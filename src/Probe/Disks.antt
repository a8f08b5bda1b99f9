-- ===== src/Probe/Disks.antt =====
-- internal/probe/inst.go and space.go: InstDisk and SpaceDisk, which read filesystems.
pub mod Laws
use kbdiag.Prelude.{
  String, Bool, true, false, Option, none, some, List, [], ◌∷◌, ◌++◌, ◌&&◌, ◌||◌, not, concat, join,
  str_eq, if◌then◌else◌,
}
use kbdiag.Facts.Base.{Status}
use kbdiag.Facts.Inst.{Info, InstInfo, Disk, InstDisk}
use kbdiag.Facts.Space.{Tablespace, SpaceTablespaces, Mount, SpaceDisk}
use kbdiag.Conn.Failures.{Failure, Attempt, done, failed}

-- statfs and deviceOf of the host, and filepath.Join of two parts.
pub record Filesystems : Type 0 where
  pub statfs : String → Attempt Disk
  pub device_of : String → Attempt String
  pub join_path : String → String → String

-- A probe of disks without rows.
abbrev pub no_disk : Status → String → InstDisk
no_disk st why = record { status = st; reason = why; rows = [] }

abbrev pub no_mounts : Status → String → SpaceDisk
no_mounts st why = record { status = st; reason = why; rows = [] }

-- A filesystem to read: what it holds, and its path.
abbrev pub Place : Type 0
Place = String × String

-- The paths of the tablespaces outside data_directory.
abbrev pub place_of : Tablespace → List Place → List Place
place_of t rest = elim t.location [
  | none ↦ rest
  | some l ↦ if str_eq l "" then rest else ("tablespace", l) ∷ rest
]

unfoldable pub outside : List Tablespace → List Place
outside [] = []
outside (t ∷ ts) = place_of t (outside ts)

unfoldable pub tablespace_places : SpaceTablespaces → List Place
unfolding outside
tablespace_places t = elim t.status [ Status.ok ↦ outside t.rows | _ ↦ [] ]

-- What the loop of SpaceDisk comes to: it stops at the error of a place that is no tablespace, or
-- has rows and the errors of the tablespaces.
pub data Walk : Type 0 where
  stopped : String → Walk
  walked : List Mount → List String → Walk

abbrev pub keep_row : Mount → Walk → Walk
keep_row m (stopped why) = stopped why
keep_row m (walked rows bad) = walked (m ∷ rows) bad

abbrev pub keep_error : String → Walk → Walk
keep_error e (stopped why) = stopped why
keep_error e (walked rows bad) = walked rows (e ∷ bad)

-- d, and its FSID
abbrev pub with_device : Disk → Attempt String → Attempt Disk
with_device d (failed e) = failed e
with_device d (done id) = done (record d { fsid = id })

abbrev pub disk_of_directory : Bool → Attempt Disk → InstDisk
disk_of_directory socket (done d) = record { status = Status.ok; reason = ""; rows = d ∷ [] }
disk_of_directory true (failed e) = no_disk Status.error e.text
disk_of_directory false (failed e) = no_disk Status.not_applicable (
    concat (
      "data_directory is not accessible on this host (the port may be forwarded elsewhere): "
      ∷ e.text ∷ []))

-- The end of SpaceDisk.
abbrev pub mounts_of : Mount → Walk → SpaceDisk
mounts_of first (stopped why) = no_mounts Status.error why
mounts_of first (walked rows []) = record { status = Status.ok; reason = ""; rows = first ∷ rows }
mounts_of first (walked rows (e ∷ es)) = record {
  status = Status.error;
  reason = join "; " (e ∷ es);
  rows = first ∷ rows;
}

module _ (fs : Filesystems) where
  abbrev pub after_statfs : String → Attempt Disk → Attempt Disk
  after_statfs path (failed e) = failed e
  after_statfs path (done d) = with_device d (fs.device_of path)

  -- d and err of one place: statfs, then deviceOf
  unfoldable pub read_place : String → Attempt Disk
  read_place path = after_statfs path (fs.statfs path)

  abbrev pub after_place : Place → Attempt Disk → Walk → Walk
  after_place p (done d) rest = keep_row (record { kind = p.0; path = p.1; disk = d }) rest
  after_place p (failed e) rest =
      if not (str_eq p.0 "tablespace") then stopped e.text else keep_error e.text rest

  -- The loop of SpaceDisk over the paths.
  unfoldable pub walk : List Place → Walk
  unfolding read_place
  walk [] = walked [] []
  walk (p ∷ ps) = after_place p (read_place p.1) (walk ps)

  -- SpaceDisk, of the data directory and its filesystem
  abbrev pub space_of_device : SpaceTablespaces → String → Attempt Disk → SpaceDisk
  space_of_device t dir (failed e) = no_mounts Status.error e.text
  space_of_device t dir (done first) =
      mounts_of (record { kind = "data_directory"; path = dir; disk = first })
        (walk (("wal", fs.join_path dir "sys_wal") ∷ tablespace_places t))

  module _ {F T : Type 0} where
    -- The data directory of the first row.
    abbrev pub disk_of_rows : Bool → List (Info F T) → InstDisk
    disk_of_rows socket [] =
        no_disk Status.skipped "inst.info was not collected, so data_directory is unknown"
    disk_of_rows socket (i ∷ rest) = elim i.data_directory [
      | none ↦ no_disk Status.skipped "insufficient_privilege: data_directory is not visible"
      | some dir ↦ disk_of_directory socket (fs.statfs dir)
    ]

    -- InstDisk
    unfoldable pub inst_disk : InstInfo F T → Bool → Bool → InstDisk
    inst_disk i socket loopback =
        if not socket && not loopback
        then no_disk Status.not_applicable "remote connection"
        else elim i.status [
          | Status.ok ↦ disk_of_rows socket i.rows
          | _ ↦ no_disk Status.skipped "inst.info was not collected, so data_directory is unknown"
        ]

    -- dir and first of SpaceDisk: both are there where InstDisk is ok, else the Go code would panic.
    abbrev pub space_of_rows : SpaceTablespaces → List (Info F T) → List Disk → SpaceDisk
    space_of_rows t (i ∷ is) (d ∷ ds) = elim i.data_directory [
      | none ↦ no_mounts Status.error ""
      | some dir ↦ space_of_device t dir (with_device d (fs.device_of dir))
    ]
    space_of_rows t is ds = no_mounts Status.error ""

    -- SpaceDisk
    unfoldable pub space_disk : InstInfo F T → SpaceTablespaces → Bool → Bool → SpaceDisk
    unfolding inst_disk walk tablespace_places
    space_disk i t socket loopback =
        let base = inst_disk i socket loopback in
        elim base.status [
          | Status.ok ↦ space_of_rows t i.rows base.rows
          | st ↦ no_mounts st base.reason
        ]
