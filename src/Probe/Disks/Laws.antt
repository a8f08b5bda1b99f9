-- ===== src/Probe/Disks/Laws.antt =====
-- internal/probe/space.go: what a collected space.disk holds.
use kbdiag.Prelude.{
  String, Bool, true, not, if◌then◌else◌, Option, none, some, List, [], ◌∷◌, map, str_eq, ◌≡◌, refl,
  ap, ◌∙◌, inl, inr, Bool-cases, arith,
}
use kbdiag.Facts.Base.{Status}
use kbdiag.Facts.Inst.{Info, InstInfo, Disk, InstDisk}
use kbdiag.Facts.Space.{Tablespace, SpaceTablespaces, Mount, SpaceDisk}
use kbdiag.Conn.Failures.{Attempt, done, failed}
use kbdiag.Probe.Outcome.{is_ok_status}
use kbdiag.Probe.Disks.{
  Filesystems, Place, Walk, stopped, walked, walk, read_place, after_place, keep_row, keep_error,
  outside, tablespace_places, mounts_of, no_mounts, space_of_device, space_of_rows, space_disk,
  inst_disk, with_device,
}

-- Where a row of space.disk was read.
abbrev pub place : Mount → Place
place m = (m.kind, m.path)

-- A walk without errors has read the places, one row for each in their order.
abbrev HasRead : List Place → Walk → Type 0
HasRead ps (walked rows []) = map place rows ≡ ps
HasRead ps _ = Unit

keep_row-HasRead :
    (p : Place) (ps : List Place) (d : Disk) (w : Walk)
    → HasRead ps w
    → HasRead (p ∷ ps) (keep_row (record { kind = p.0; path = p.1; disk = d }) w)
keep_row-HasRead p ps d (stopped why) h = tt
keep_row-HasRead p ps d (walked rows []) h = ap (◌∷◌ p) h
keep_row-HasRead p ps d (walked rows (e ∷ es)) h = tt

keep_error-HasRead : (ps : List Place) (e : String) (w : Walk) → HasRead ps (keep_error e w)
keep_error-HasRead ps e (stopped why) = tt
keep_error-HasRead ps e (walked rows bad) = tt

-- Where the tablespaces are that have a location of their own.
abbrev pub locations : List Tablespace → List String
locations [] = []
locations (t ∷ ts) =
    let rest = locations ts in
    elim t.location [ none ↦ rest | some l ↦ if not (str_eq l "") then l ∷ rest else rest ]

-- The locations that space.tablespaces has, none when it was not collected.
abbrev pub read_locations : SpaceTablespaces → List String
read_locations t = if is_ok_status t.status then locations t.rows else []

outside-locations :
    (ts : List Tablespace) → outside ts ≡ map (λ l. ("tablespace", l)) (locations ts)
unfolding outside
outside-locations [] = refl
outside-locations (t ∷ ts) = ground (arith, outside-locations ts)

module _ (fs : Filesystems) where
  after_place-HasRead :
      (p : Place) (ps : List Place) (a : Attempt Disk) (w : Walk)
      → HasRead ps w
      → HasRead (p ∷ ps) (after_place fs p a w)
  after_place-HasRead p ps (done d) w h = keep_row-HasRead p ps d w h
  after_place-HasRead p ps (failed e) w h = elim (Bool-cases (str_eq p.0 "tablespace")) [
    | inl t ↦ rw t (keep_error-HasRead (p ∷ ps) e.text w)
    | inr t ↦ rw t tt
  ]

  walk-HasRead : (ps : List Place) → HasRead ps (walk fs ps)
  unfolding walk
  walk-HasRead [] = refl
  walk-HasRead (p ∷ ps) =
      after_place-HasRead p ps (read_place fs p.1) (walk fs ps) (walk-HasRead ps)

  -- The places of space.disk for the data directory `dir` and these tablespaces.
  abbrev pub places : SpaceTablespaces → String → List Place
  places t dir =
      ("data_directory", dir)
      ∷ ("wal", fs.join_path dir "sys_wal")
      ∷ map (λ l. ("tablespace", l)) (read_locations t)

  places-tablespace_places :
      (t : SpaceTablespaces) (dir : String)
      → ("data_directory", dir) ∷ ("wal", fs.join_path dir "sys_wal") ∷ tablespace_places t
        ≡ places t dir
  unfolding tablespace_places
  places-tablespace_places t dir = ground (arith, outside-locations t.rows)

  abbrev ReadsAll : SpaceTablespaces → SpaceDisk → Type 0
  ReadsAll t d = (dir : String) × (map place d.rows ≡ places t dir)

  mounts-ReadsAll :
      (t : SpaceTablespaces) (dir : String) (first : Disk) (w : Walk)
      → HasRead (("wal", fs.join_path dir "sys_wal") ∷ tablespace_places t) w
      → let d : SpaceDisk =
          mounts_of (record { kind = "data_directory"; path = dir; disk = first }) w in
        is_ok_status d.status ≡ true → map place d.rows ≡ places t dir
  mounts-ReadsAll t dir first (stopped why) h e = absurd (ground (arith, e))
  mounts-ReadsAll t dir first (walked rows []) h e =
      ap (◌∷◌ ("data_directory", dir)) h ∙ places-tablespace_places t dir
  mounts-ReadsAll t dir first (walked rows (x ∷ xs)) h e = absurd (ground (arith, e))

  device-ReadsAll :
      (t : SpaceTablespaces) (dir : String) (a : Attempt Disk)
      → is_ok_status (space_of_device fs t dir a).status ≡ true
      → map place (space_of_device fs t dir a).rows ≡ places t dir
  device-ReadsAll t dir (failed e) h = absurd (ground (arith, h))
  device-ReadsAll t dir (done first) h = mounts-ReadsAll t dir first _ (walk-HasRead _) h

  module _ {F T : Type 0} where
    -- The directory of the first row, where the rows have one.
    abbrev pub directory : List (Info F T) → String
    directory [] = ""
    directory (i ∷ rest) = elim i.data_directory [ none ↦ "" | some dir ↦ dir ]

    rows-ReadsAll :
        (t : SpaceTablespaces) (is : List (Info F T)) (ds : List Disk)
        → is_ok_status (space_of_rows fs t is ds).status ≡ true
        → map place (space_of_rows fs t is ds).rows ≡ places t (directory is)
    rows-ReadsAll t [] ds h = absurd (ground (arith, h))
    rows-ReadsAll t (i ∷ is) [] h = absurd (ground (arith, h))
    rows-ReadsAll t (i ∷ is) (d ∷ ds) h = go i.data_directory h
      where
        go :
            (o : Option String)
            → is_ok_status
                (elim o as (λ _. SpaceDisk) [
                  | none ↦ no_mounts Status.error ""
                  | some dir ↦ space_of_device fs t dir (with_device d (fs.device_of dir))
                ]).status
              ≡ true
            → map place
                (elim o as (λ _. SpaceDisk) [
                  | none ↦ no_mounts Status.error ""
                  | some dir ↦ space_of_device fs t dir (with_device d (fs.device_of dir))
                ]).rows
              ≡ places t (elim o as (λ _. String) [ none ↦ "" | some dir ↦ dir ])
        go none e = absurd (ground (arith, e))
        go (some dir) e = device-ReadsAll t dir (with_device d (fs.device_of dir)) e

    -- A space.disk that is reported as collected has one row each for the data directory of the
    -- instance, its WAL directory and every location that space.tablespaces gives for a tablespace,
    -- in this order, and no other; where space.tablespaces was not collected, for the first two only.
    pub space_disk_complete :
        (i : InstInfo F T) (t : SpaceTablespaces) (socket loopback : Bool)
        → is_ok_status (space_disk fs i t socket loopback).status ≡ true
        → map place (space_disk fs i t socket loopback).rows ≡ places t (directory i.rows)
    unfolding space_disk
    space_disk_complete i t socket loopback h = go (inst_disk fs i socket loopback).status h
      where
        base : InstDisk
        base = inst_disk fs i socket loopback

        disk_by : Status → SpaceDisk
        disk_by Status.ok = space_of_rows fs t i.rows base.rows
        disk_by st = no_mounts st base.reason

        go :
            (st : Status)
            → is_ok_status (disk_by st).status ≡ true
            → map place (disk_by st).rows ≡ places t (directory i.rows)
        go Status.ok e = rows-ReadsAll t i.rows base.rows e
        go Status.skipped e = absurd (ground (arith, e))
        go Status.error e = absurd (ground (arith, e))
        go Status.not_applicable e = absurd (ground (arith, e))
