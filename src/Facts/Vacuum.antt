-- ===== src/Facts/Vacuum.antt =====
-- internal/facts/vacuum.go. A nil slice and an empty one are both [].
use kbdiag.Prelude.{ℤ, pos, String, Bool, Option, List, [], ◌∷◌, count, is_some, not}
use kbdiag.Facts.Base.{
  Status, Redaction, Value, int, str, float, strs, opt_int, opt_str, opt_bool, opt_float,
  redactions, reason_insufficient_privilege,
}

abbrev pub vacuum_tables_id : String
vacuum_tables_id = "vacuum.tables"

abbrev pub vacuum_progress_id : String
vacuum_progress_id = "vacuum.progress"

abbrev pub vacuum_settings_id : String
vacuum_settings_id = "vacuum.settings"

abbrev pub vacuum_table_columns : List String
vacuum_table_columns =
    "schemaname" ∷ "relname" ∷ "n_live_tup" ∷ "n_dead_tup" ∷ "reltuples" ∷ "reloptions"
    ∷ "last_vacuum_age_s" ∷ "last_autovacuum_age_s" ∷ "vacuum_count" ∷ "autovacuum_count" ∷ []

abbrev pub vacuum_progress_columns : List String
vacuum_progress_columns =
    "pid" ∷ "datname" ∷ "relation" ∷ "phase" ∷ "heap_blks_total" ∷ "heap_blks_scanned"
    ∷ "is_autovacuum" ∷ "xact_age_s" ∷ []

abbrev pub vacuum_setting_columns : List String
vacuum_setting_columns =
    "autovacuum" ∷ "track_counts" ∷ "autovacuum_vacuum_threshold" ∷ "autovacuum_vacuum_scale_factor"
    ∷ "autovacuum_naptime_s" ∷ "autovacuum_max_workers" ∷ []

-- `reltuples` is a float32: the float64 of the same value.
pub record VacuumTable (F : Type 0) : Type 0 where
  pub schemaname : String
  pub relname : String
  pub n_live_tup : ℤ
  pub n_dead_tup : ℤ
  pub reltuples : F
  pub reloptions : List String
  pub last_vacuum_age_s : Option F
  pub last_autovacuum_age_s : Option F
  pub vacuum_count : ℤ
  pub autovacuum_count : ℤ

unfoldable pub table_row : {F : Type 0} → VacuumTable F → List (Value F)
table_row s =
    str s.schemaname
    ∷ str s.relname
    ∷ int s.n_live_tup
    ∷ int s.n_dead_tup
    ∷ float s.reltuples
    ∷ strs s.reloptions
    ∷ opt_float s.last_vacuum_age_s
    ∷ opt_float s.last_autovacuum_age_s
    ∷ int s.vacuum_count
    ∷ int s.autovacuum_count
    ∷ []

pub record VacuumTables (F : Type 0) : Type 0 where
  pub status : Status
  pub reason : String
  pub rows : List (VacuumTable F)

pub record VacuumRun (F : Type 0) : Type 0 where
  pub pid : ℤ
  pub datname : Option String
  pub relation : Option String
  pub phase : Option String
  pub heap_blks_total : Option ℤ
  pub heap_blks_scanned : Option ℤ
  pub is_autovacuum : Option Bool
  pub xact_age_s : Option F

unfoldable pub run_row : {F : Type 0} → VacuumRun F → List (Value F)
run_row v =
    int v.pid
    ∷ opt_str v.datname
    ∷ opt_str v.relation
    ∷ opt_str v.phase
    ∷ opt_int v.heap_blks_total
    ∷ opt_int v.heap_blks_scanned
    ∷ opt_bool v.is_autovacuum
    ∷ opt_float v.xact_age_s
    ∷ []

pub record VacuumProgress (F : Type 0) : Type 0 where
  pub status : Status
  pub reason : String
  pub rows : List (VacuumRun F)

-- VacuumProgress.Redacted
unfoldable pub progress_redacted : {F : Type 0} → VacuumProgress F → List Redaction
progress_redacted p =
    redactions vacuum_progress_id ("phase" ∷ []) reason_insufficient_privilege
      (pos (count (λ x. not (is_some x.phase)) p.rows))

pub record VacuumSetting (F : Type 0) : Type 0 where
  pub autovacuum : String
  pub track_counts : String
  pub threshold : ℤ
  pub scale_factor : F
  pub naptime_s : ℤ
  pub max_workers : ℤ

unfoldable pub setting_row : {F : Type 0} → VacuumSetting F → List (Value F)
setting_row s =
    str s.autovacuum
    ∷ str s.track_counts
    ∷ int s.threshold
    ∷ float s.scale_factor
    ∷ int s.naptime_s
    ∷ int s.max_workers
    ∷ []

pub record VacuumSettings (F : Type 0) : Type 0 where
  pub status : Status
  pub reason : String
  pub rows : List (VacuumSetting F)
