-- ===== src/Facts/Checkpoint.antt =====
-- internal/facts/checkpoint.go
use kbdiag.Prelude.{ℤ, String, Option, List, [], ◌∷◌}
use kbdiag.Facts.Base.{Status, Times, Value, int, str, float, opt_str, opt_float}
use kbdiag.Facts.Archive.{iso_time}

abbrev pub checkpoint_stats_id : String
checkpoint_stats_id = "checkpoint.stats"

abbrev pub checkpoint_last_id : String
checkpoint_last_id = "checkpoint.last"

abbrev pub checkpoint_settings_id : String
checkpoint_settings_id = "checkpoint.settings"

abbrev pub checkpoint_stats_columns : List String
checkpoint_stats_columns =
    "checkpoints_timed" ∷ "checkpoints_req" ∷ "checkpoint_write_s" ∷ "checkpoint_sync_s"
    ∷ "buffers_checkpoint" ∷ "buffers_clean" ∷ "maxwritten_clean" ∷ "buffers_backend"
    ∷ "buffers_backend_fsync" ∷ "buffers_alloc" ∷ "stats_reset" ∷ "stats_reset_age_s" ∷ []

abbrev pub checkpoint_last_columns : List String
checkpoint_last_columns =
    "checkpoint_time" ∷ "checkpoint_age_s" ∷ "checkpoint_lsn" ∷ "redo_lsn" ∷ "redo_wal_file" ∷ []

abbrev pub checkpoint_settings_columns : List String
checkpoint_settings_columns =
    "checkpoint_timeout_s" ∷ "max_wal_size_bytes" ∷ "checkpoint_completion_target"
    ∷ "checkpoint_warning_s" ∷ "log_checkpoints" ∷ []

pub record BgWriter (F : Type 0) (T : Type 0) : Type 0 where
  pub checkpoints_timed : ℤ
  pub checkpoints_req : ℤ
  pub checkpoint_write_s : F
  pub checkpoint_sync_s : F
  pub buffers_checkpoint : ℤ
  pub buffers_clean : ℤ
  pub maxwritten_clean : ℤ
  pub buffers_backend : ℤ
  pub buffers_backend_fsync : ℤ
  pub buffers_alloc : ℤ
  pub stats_reset : Option T
  pub stats_reset_age_s : Option F

unfoldable pub writer_row : {F T : Type 0} ⦃tm : Times T⦄ → BgWriter F T → List (Value F)
writer_row c =
    int c.checkpoints_timed
    ∷ int c.checkpoints_req
    ∷ float c.checkpoint_write_s
    ∷ float c.checkpoint_sync_s
    ∷ int c.buffers_checkpoint
    ∷ int c.buffers_clean
    ∷ int c.maxwritten_clean
    ∷ int c.buffers_backend
    ∷ int c.buffers_backend_fsync
    ∷ int c.buffers_alloc
    ∷ opt_str (iso_time c.stats_reset)
    ∷ opt_float c.stats_reset_age_s
    ∷ []

pub record CheckpointStats (F : Type 0) (T : Type 0) : Type 0 where
  pub status : Status
  pub reason : String
  pub rows : List (BgWriter F T)

pub record LastCheckpoint (F : Type 0) (T : Type 0) : Type 0 where
  pub time : Option T
  pub age_s : Option F
  pub lsn : Option String
  pub redo_lsn : Option String
  pub redo_wal_file : Option String

unfoldable pub last_row : {F T : Type 0} ⦃tm : Times T⦄ → LastCheckpoint F T → List (Value F)
last_row t =
    opt_str (iso_time t.time)
    ∷ opt_float t.age_s
    ∷ opt_str t.lsn
    ∷ opt_str t.redo_lsn
    ∷ opt_str t.redo_wal_file
    ∷ []

pub record CheckpointLast (F : Type 0) (T : Type 0) : Type 0 where
  pub status : Status
  pub reason : String
  pub rows : List (LastCheckpoint F T)

pub record CheckpointSetting (F : Type 0) : Type 0 where
  pub timeout_s : ℤ
  pub max_wal_size_bytes : ℤ
  pub completion_target : F
  pub warning_s : ℤ
  pub log_checkpoints : String

unfoldable pub setting_row : {F : Type 0} → CheckpointSetting F → List (Value F)
setting_row t =
    int t.timeout_s
    ∷ int t.max_wal_size_bytes
    ∷ float t.completion_target
    ∷ int t.warning_s
    ∷ str t.log_checkpoints
    ∷ []

pub record CheckpointSettings (F : Type 0) : Type 0 where
  pub status : Status
  pub reason : String
  pub rows : List (CheckpointSetting F)
