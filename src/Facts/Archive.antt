-- ===== src/Facts/Archive.antt =====
-- internal/facts/archive.go
use kbdiag.Prelude.{ℤ, String, Option, none, some, List, [], ◌∷◌}
use kbdiag.Facts.Base.{Status, Times, Value, int, str, opt_str, opt_float}

abbrev pub archive_status_id : String
archive_status_id = "archive.status"

abbrev pub archive_ready_id : String
archive_ready_id = "archive.ready"

abbrev pub archive_status_columns : List String
archive_status_columns =
    "archive_mode" ∷ "archive_command" ∷ "archive_timeout_s" ∷ "archived_count"
    ∷ "last_archived_wal" ∷ "last_archived_time" ∷ "last_archived_age_s" ∷ "failed_count"
    ∷ "last_failed_wal" ∷ "last_failed_time" ∷ "last_failed_age_s" ∷ "stats_reset" ∷ []

abbrev pub archive_ready_columns : List String
archive_ready_columns = "ready" ∷ "done" ∷ "oldest_ready_age_s" ∷ []

pub record Archiver (F T : Type 0) : Type 0 where
  pub mode : String
  pub command : Option String
  pub timeout_s : ℤ
  pub archived_count : ℤ
  pub last_archived_wal : Option String
  pub last_archived_time : Option T
  pub last_archived_age_s : Option F
  pub failed_count : ℤ
  pub last_failed_wal : Option String
  pub last_failed_time : Option T
  pub last_failed_age_s : Option F
  pub stats_reset : Option T

-- isoTime
abbrev pub iso_time : {T : Type 0} ⦃tm : Times T⦄ → Option T → Option String
iso_time none = none
iso_time ⦃tm⦄ (some t) = some (tm.rfc3339 t)

unfoldable pub archiver_row : {F T : Type 0} ⦃tm : Times T⦄ → Archiver F T → List (Value F)
archiver_row a =
    str a.mode
    ∷ opt_str a.command
    ∷ int a.timeout_s
    ∷ int a.archived_count
    ∷ opt_str a.last_archived_wal
    ∷ opt_str (iso_time a.last_archived_time)
    ∷ opt_float a.last_archived_age_s
    ∷ int a.failed_count
    ∷ opt_str a.last_failed_wal
    ∷ opt_str (iso_time a.last_failed_time)
    ∷ opt_float a.last_failed_age_s
    ∷ opt_str (iso_time a.stats_reset)
    ∷ []

pub record ArchiveStatus (F T : Type 0) : Type 0 where
  pub status : Status
  pub reason : String
  pub rows : List (Archiver F T)

pub record ArchiveQueue (F : Type 0) : Type 0 where
  pub ready : ℤ
  pub done : ℤ
  pub oldest_ready_age_s : Option F

unfoldable pub queue_row : {F : Type 0} → ArchiveQueue F → List (Value F)
queue_row q = int q.ready ∷ int q.done ∷ opt_float q.oldest_ready_age_s ∷ []

pub record ArchiveReady (F : Type 0) : Type 0 where
  pub status : Status
  pub reason : String
  pub rows : List (ArchiveQueue F)
