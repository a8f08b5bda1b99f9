-- ===== src/Rule/Space.antt =====
-- internal/rule/space.go
pub mod Laws
pub mod Full
use kbdiag.Prelude.{
  ℕ, ℤ, pos, leb_ℤ, ltb_ℤ, length, Bool, true, false, String, Option, none, some, List, [], ◌∷◌,
  ◌++◌, ◌&&◌, ◌||◌, not, any, concat, join, str_eq, if◌then◌else◌,
}
use kbdiag.Facts.Base.{Status, Floats, int, strs}
use kbdiag.Facts.Inst.{InstDatabases, Disk, databases_redacted}
use kbdiag.Facts.Space.{
  SpaceTablespaces, Wal, SpaceWal, Mount, SpaceDisk, tablespaces_redacted, space_disk_id,
}
use kbdiag.Rule.Base.{
  Level, Verdict, Finding, Result, Seen, hidden, quiet, flagged, verify, judged, collected,
  findings_of,
}
use kbdiag.Rule.Inst.{is_nil}
use kbdiag.Rule.Names.{listed}
use kbdiag.Units.{bytes}

-- Display
unfoldable pub display : {F : Type 0} → Bool → List Status → Result F
display concealed sts = judged [] (concealed || any (λ st. (collected st).1) sts)

-- filesystem of Space: the directories that lie on it, and its disk.
pub record Filesystem : Type 0 where
  pub id : String
  pub kinds : List String
  pub paths : List String
  pub disk : Disk

-- The key of byID; a mount without an id is never merged.
unfoldable pub mount_id : Mount → String
mount_id m = if str_eq m.fsid "" then concat ("path:" ∷ m.path ∷ []) else m.fsid

-- byID[id] with the mount added, at its place in `order`, or a new entry at the end.
unfoldable pub add_mount : Mount → List Filesystem → List Filesystem
add_mount m [] =
    (record { id = mount_id m; kinds = m.kind ∷ []; paths = m.path ∷ []; disk = m.disk }) ∷ []
add_mount m (f ∷ fs) =
    let rest = add_mount m fs in
    if str_eq f.id (mount_id m)
    then (record f { kinds = f.kinds ++ m.kind ∷ []; paths = f.paths ++ m.path ∷ [] }) ∷ fs
    else f ∷ rest

abbrev pub is_judged_kind : Mount → Bool
is_judged_kind m = str_eq m.kind "data_directory" || str_eq m.kind "wal"

-- The first loop of Space over the mounts.
unfoldable pub group_mounts : List Mount → List Filesystem → List Filesystem
unfolding add_mount mount_id
group_mounts [] fs = fs
group_mounts (m ∷ ms) fs = group_mounts ms (if is_judged_kind m then add_mount m fs else fs)

-- The harm, one text for each kind that the filesystem holds.
unfoldable pub harm : Filesystem → List String
harm f =
    (if listed "data_directory" f.kinds
      then "tables, transaction status files and temp files are about to fail to grow" ∷ []
      else [])
    ++ (if listed "wal" f.kinds
        then "a new WAL segment cannot be created, so the server stops once no old segment is left to reuse"
          ∷ []
        else [])

-- The segment size that the disks are judged by, if it was collected.
unfoldable pub segment : SpaceWal → Option ℤ
segment w = elim w.status [
  | Status.ok ↦ elim w.rows [ [] ↦ none | x ∷ rest ↦ x.wal_segment_bytes ]
  | _ ↦ none
]

abbrev pub is_not_applicable : Status → Bool
is_not_applicable Status.not_applicable = true
is_not_applicable _ = false

module _ {F : Type 0} ⦃fl : Floats F⦄ where
  unfoldable pub disk_finding : ℤ → Filesystem → Finding F
  unfolding harm
  disk_finding seg f = record {
    id = "space.disk_full";
    level = Level.fail;
    symptom = concat (
        "the filesystem holding "
        ∷ join " and " f.kinds
        ∷ " has "
        ∷ bytes (fl.of_int (pos f.disk.avail_bytes))
        ∷ " free, less than one WAL segment ("
        ∷ bytes (fl.of_int seg)
        ∷ "): "
        ∷ join "; " (harm f)
        ∷ []);
    evidence =
        (record {
          probe_id = space_disk_id;
          fields =
              ("paths", strs f.paths)
              ∷ ("avail_bytes", int (pos f.disk.avail_bytes))
              ∷ ("total_bytes", int (pos f.disk.total_bytes))
              ∷ ("wal_segment_bytes", int seg)
              ∷ [];
        })
        ∷ [];
    cause = none;
    next =
        verify "kbdiag wal" "what keeps WAL here: slots, wal_keep_segments, archiving"
        ∷ verify "kbdiag top-objects" "the largest tables and indexes in this database"
        ∷ [];
  }

  -- One round of the second loop; `seg` is positive where it is converted to uint64.
  unfoldable pub judge_filesystem : ℤ → Filesystem → Seen F
  judge_filesystem seg f =
      if leb_ℤ seg (pos 0) || leb_ℤ seg (pos f.disk.avail_bytes)
      then quiet
      else flagged (disk_finding seg f)

  -- The end of Space: a finding makes it FAIL, none leaves the display verdict.
  unfoldable pub space_result : List (Finding F) → Result F → Result F
  space_result fs r = if is_nil fs then r else record { verdict = Verdict.fail; findings = fs }

  -- Space
  unfoldable pub space : InstDatabases → SpaceTablespaces → SpaceWal → SpaceDisk → Result F
  space d t w disk =
      let concealed =
        not (is_nil (databases_redacted d ++ tablespaces_redacted t))
        || is_not_applicable disk.status in
      let r = display concealed (d.status ∷ t.status ∷ w.status ∷ disk.status ∷ []) in
      if is_nil disk.rows then r else elim (segment w) [
        | none ↦ r
        | some seg ↦ space_result (findings_of (judge_filesystem seg) (group_mounts disk.rows [])) r
      ]
