-- ===== src/Facts/Space.antt =====
-- internal/facts/space.go
use kbdiag.Prelude.{ℤ, pos, String, Option, List, [], ◌∷◌, count, is_some, not}
use kbdiag.Facts.Base.{
  Status, Redaction, Value, int, str, opt_int, opt_str, redactions, reason_insufficient_privilege,
}
use kbdiag.Facts.Inst.{Disk}

abbrev pub space_tablespaces_id : String
space_tablespaces_id = "space.tablespaces"

abbrev pub space_wal_id : String
space_wal_id = "space.wal"

abbrev pub space_disk_id : String
space_disk_id = "space.disk"

abbrev pub tablespace_columns : List String
tablespace_columns = "spcname" ∷ "location" ∷ "size_bytes" ∷ []

abbrev pub wal_columns : List String
wal_columns = "files" ∷ "bytes" ∷ "max_wal_size_bytes" ∷ "wal_keep_bytes" ∷ "wal_segment_bytes" ∷ []

abbrev pub space_disk_columns : List String
space_disk_columns = "path_kind" ∷ "path" ∷ "total_bytes" ∷ "used_bytes" ∷ "avail_bytes" ∷ []

pub record Tablespace : Type 0 where
  pub name : String
  pub location : Option String
  pub size_bytes : Option ℤ

unfoldable pub tablespace_row : {F : Type 0} → Tablespace → List (Value F)
tablespace_row t = str t.name ∷ opt_str t.location ∷ opt_int t.size_bytes ∷ []

pub record SpaceTablespaces : Type 0 where
  pub status : Status
  pub reason : String
  pub rows : List Tablespace

-- SpaceTablespaces.Redacted
unfoldable pub tablespaces_redacted : SpaceTablespaces → List Redaction
tablespaces_redacted s =
    redactions space_tablespaces_id ("size_bytes" ∷ []) reason_insufficient_privilege
      (pos (count (λ x. not (is_some x.size_bytes)) s.rows))

pub record Wal : Type 0 where
  pub files : ℤ
  pub bytes : ℤ
  pub max_wal_size_bytes : Option ℤ
  pub wal_keep_bytes : Option ℤ
  pub wal_segment_bytes : Option ℤ

unfoldable pub wal_row : {F : Type 0} → Wal → List (Value F)
wal_row w =
    int w.files
    ∷ int w.bytes
    ∷ opt_int w.max_wal_size_bytes
    ∷ opt_int w.wal_keep_bytes
    ∷ opt_int w.wal_segment_bytes
    ∷ []

pub record SpaceWal : Type 0 where
  pub status : Status
  pub reason : String
  pub rows : List Wal

-- The embedded Disk is the field `disk`.
pub record Mount : Type 0 where
  pub kind : String  -- data_directory | wal | tablespace
  pub path : String
  pub disk : Disk
  pub open disk use *

unfoldable pub mount_row : {F : Type 0} → Mount → List (Value F)
mount_row m =
    str m.kind
    ∷ str m.path
    ∷ int (pos m.total_bytes)
    ∷ int (pos m.used_bytes)
    ∷ int (pos m.avail_bytes)
    ∷ []

pub record SpaceDisk : Type 0 where
  pub status : Status
  pub reason : String
  pub rows : List Mount
