-- ===== src/Facts/Inst.antt =====
-- internal/facts/inst.go
use kbdiag.Prelude.{ℕ, ℤ, pos, ◌-ℤ◌, wrap32, String, Option, List, [], ◌∷◌, count, is_some, not}
use kbdiag.Facts.Base.{
  Status, Times, Redaction, Value, int, str, float, opt_int, opt_str, opt_float, redactions,
  reason_insufficient_privilege,
}

abbrev pub inst_info_id : String
inst_info_id = "inst.info"

abbrev pub inst_databases_id : String
inst_databases_id = "inst.databases"

abbrev pub inst_downstreams_id : String
inst_downstreams_id = "inst.downstreams"

abbrev pub inst_upstream_id : String
inst_upstream_id = "inst.upstream"

abbrev pub inst_disk_id : String
inst_disk_id = "inst.disk"

abbrev pub info_columns : List String
info_columns =
    "version" ∷ "start_time" ∷ "uptime_s" ∷ "connections" ∷ "max_connections"
    ∷ "superuser_reserved_connections" ∷ "data_directory" ∷ "port" ∷ "usable_connections" ∷ []

abbrev pub database_columns : List String
database_columns = "datname" ∷ "size_bytes" ∷ []

abbrev pub downstreams_columns : List String
downstreams_columns = "application_name" ∷ "client_addr" ∷ "state" ∷ "sync_state" ∷ []

abbrev pub upstream_columns : List String
upstream_columns =
    "status" ∷ "sender_host" ∷ "sender_port" ∷ "slot_name" ∷ "last_msg_age_s"
    ∷ "wal_receiver_timeout_s" ∷ []

abbrev pub disk_columns : List String
disk_columns = "total_bytes" ∷ "used_bytes" ∷ "avail_bytes" ∷ []

pub record Info (F T : Type 0) : Type 0 where
  pub version : String
  pub start_time : T
  pub uptime_s : F
  pub connections : ℤ
  pub max_connections : ℤ
  pub superuser_reserved : ℤ
  pub data_directory : Option String
  pub port : ℤ

-- Usable: the int32 difference, which wraps.
unfoldable pub usable : {F T : Type 0} → Info F T → ℤ
usable i = wrap32 (i.max_connections -ℤ i.superuser_reserved)

unfoldable pub info_row : {F T : Type 0} ⦃tm : Times T⦄ → Info F T → List (Value F)
info_row ⦃tm⦄ i =
    str i.version
    ∷ str (tm.rfc3339 (tm.truncate_s i.start_time))
    ∷ float i.uptime_s
    ∷ int i.connections
    ∷ int i.max_connections
    ∷ int i.superuser_reserved
    ∷ opt_str i.data_directory
    ∷ int i.port
    ∷ int (usable i)
    ∷ []

pub record Database : Type 0 where
  pub datname : String
  pub size_bytes : Option ℤ

unfoldable pub database_row : {F : Type 0} → Database → List (Value F)
database_row d = str d.datname ∷ opt_int d.size_bytes ∷ []

pub record InstInfo (F T : Type 0) : Type 0 where
  pub status : Status
  pub reason : String
  pub rows : List (Info F T)

pub record InstDatabases : Type 0 where
  pub status : Status
  pub reason : String
  pub rows : List Database

-- InstDatabases.Redacted
unfoldable pub databases_redacted : InstDatabases → List Redaction
databases_redacted d =
    redactions inst_databases_id ("size_bytes" ∷ []) reason_insufficient_privilege
      (pos (count (λ x. not (is_some x.size_bytes)) d.rows))

pub record Downstream : Type 0 where
  pub application_name : Option String
  pub client_addr : Option String
  pub state : Option String
  pub sync_state : Option String

unfoldable pub downstream_row : {F : Type 0} → Downstream → List (Value F)
downstream_row d =
    opt_str d.application_name ∷ opt_str d.client_addr ∷ opt_str d.state ∷ opt_str d.sync_state ∷ []

pub record InstDownstreams : Type 0 where
  pub status : Status
  pub reason : String
  pub rows : List Downstream

-- InstDownstreams.Redacted
unfoldable pub downstreams_redacted : InstDownstreams → List Redaction
downstreams_redacted d =
    redactions inst_downstreams_id ("state" ∷ "sync_state" ∷ []) reason_insufficient_privilege
      (pos (count (λ x. not (is_some x.state)) d.rows))

pub record Upstream (F : Type 0) : Type 0 where
  pub status : Option String
  pub sender_host : Option String
  pub sender_port : Option ℤ
  pub slot_name : Option String
  pub last_msg_age_s : Option F
  pub wal_receiver_timeout_s : Option F

unfoldable pub upstream_row : {F : Type 0} → Upstream F → List (Value F)
upstream_row u =
    opt_str u.status
    ∷ opt_str u.sender_host
    ∷ opt_int u.sender_port
    ∷ opt_str u.slot_name
    ∷ opt_float u.last_msg_age_s
    ∷ opt_float u.wal_receiver_timeout_s
    ∷ []

pub record InstUpstream (F : Type 0) : Type 0 where
  pub status : Status
  pub reason : String
  pub rows : List (Upstream F)

-- InstUpstream.Redacted
unfoldable pub upstream_redacted : {F : Type 0} → InstUpstream F → List Redaction
upstream_redacted u =
    redactions inst_upstream_id ("status" ∷ []) reason_insufficient_privilege
      (pos (count (λ x. not (is_some x.status)) u.rows))

-- The byte counts are uint64.
pub record Disk : Type 0 where
  pub total_bytes : ℕ
  pub used_bytes : ℕ
  pub avail_bytes : ℕ
  pub fsid : String

unfoldable pub disk_row : {F : Type 0} → Disk → List (Value F)
disk_row d = int (pos d.total_bytes) ∷ int (pos d.used_bytes) ∷ int (pos d.avail_bytes) ∷ []

pub record InstDisk : Type 0 where
  pub status : Status
  pub reason : String
  pub rows : List Disk
