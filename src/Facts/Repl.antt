-- ===== src/Facts/Repl.antt =====
-- internal/facts/repl.go
use kbdiag.Prelude.{ℤ, String, Bool, Option, List, [], ◌∷◌}
use kbdiag.Facts.Base.{Status, Value, int, str, bool, opt_int, opt_str, opt_float}

abbrev pub repl_downstreams_id : String
repl_downstreams_id = "repl.downstreams"

abbrev pub repl_sync_id : String
repl_sync_id = "repl.sync"

abbrev pub repl_replay_id : String
repl_replay_id = "repl.replay"

abbrev pub repl_downstream_columns : List String
repl_downstream_columns =
    "pid" ∷ "application_name" ∷ "client_addr" ∷ "state" ∷ "sync_state" ∷ "sync_priority"
    ∷ "sent_lsn" ∷ "write_lsn" ∷ "flush_lsn" ∷ "replay_lsn" ∷ "sent_lag_bytes" ∷ "flush_lag_bytes"
    ∷ "replay_lag_bytes" ∷ "write_lag_s" ∷ "flush_lag_s" ∷ "replay_lag_s" ∷ "reply_age_s" ∷ []

abbrev pub repl_sync_columns : List String
repl_sync_columns = "synchronous_standby_names" ∷ "synchronous_commit" ∷ []

abbrev pub repl_replay_columns : List String
repl_replay_columns =
    "receive_lsn" ∷ "replay_lsn" ∷ "replay_gap_bytes" ∷ "last_replay_age_s" ∷ "replay_paused" ∷ []

pub record Replica (F : Type 0) : Type 0 where
  pub pid : ℤ
  pub application_name : Option String
  pub client_addr : Option String
  pub state : Option String
  pub sync_state : Option String
  pub sync_priority : Option ℤ
  pub sent_lsn : Option String
  pub write_lsn : Option String
  pub flush_lsn : Option String
  pub replay_lsn : Option String
  pub sent_lag_bytes : Option ℤ
  pub flush_lag_bytes : Option ℤ
  pub replay_lag_bytes : Option ℤ
  pub write_lag_s : Option F
  pub flush_lag_s : Option F
  pub replay_lag_s : Option F
  pub reply_age_s : Option F

unfoldable pub replica_row : {F : Type 0} → Replica F → List (Value F)
replica_row r =
    int r.pid
    ∷ opt_str r.application_name
    ∷ opt_str r.client_addr
    ∷ opt_str r.state
    ∷ opt_str r.sync_state
    ∷ opt_int r.sync_priority
    ∷ opt_str r.sent_lsn
    ∷ opt_str r.write_lsn
    ∷ opt_str r.flush_lsn
    ∷ opt_str r.replay_lsn
    ∷ opt_int r.sent_lag_bytes
    ∷ opt_int r.flush_lag_bytes
    ∷ opt_int r.replay_lag_bytes
    ∷ opt_float r.write_lag_s
    ∷ opt_float r.flush_lag_s
    ∷ opt_float r.replay_lag_s
    ∷ opt_float r.reply_age_s
    ∷ []

pub record ReplDownstreams (F : Type 0) : Type 0 where
  pub status : Status
  pub reason : String
  pub rows : List (Replica F)

pub record SyncSetting : Type 0 where
  pub standby_names : Option String
  pub commit : String

unfoldable pub sync_setting_row : {F : Type 0} → SyncSetting → List (Value F)
sync_setting_row s = opt_str s.standby_names ∷ str s.commit ∷ []

pub record ReplSync : Type 0 where
  pub status : Status
  pub reason : String
  pub rows : List SyncSetting

pub record Replay (F : Type 0) : Type 0 where
  pub receive_lsn : Option String
  pub replay_lsn : Option String
  pub replay_gap_bytes : Option ℤ
  pub last_replay_age_s : Option F
  pub replay_paused : Bool

unfoldable pub replay_row : {F : Type 0} → Replay F → List (Value F)
replay_row r =
    opt_str r.receive_lsn
    ∷ opt_str r.replay_lsn
    ∷ opt_int r.replay_gap_bytes
    ∷ opt_float r.last_replay_age_s
    ∷ bool r.replay_paused
    ∷ []

pub record ReplReplay (F : Type 0) : Type 0 where
  pub status : Status
  pub reason : String
  pub rows : List (Replay F)
