-- ===== src/Facts/Session.antt =====
-- internal/facts/session.go
use kbdiag.Prelude.{
  ℕ, ℤ, pos, String, Bool, false, Option, none, some, List, [], ◌∷◌, ◌++◌, ◌&&◌, not, count, str_eq,
}
use kbdiag.Facts.Base.{
  Status, Redaction, Value, int, opt_str, opt_nat, opt_float, redactions,
  reason_insufficient_privilege, reason_track_activities_off,
}

abbrev pub session_activity_id : String
session_activity_id = "session.activity"

abbrev pub session_columns : List String
session_columns =
    "pid" ∷ "usename" ∷ "datname" ∷ "application_name" ∷ "client_addr" ∷ "backend_type" ∷ "state"
    ∷ "backend_xid" ∷ "backend_xmin" ∷ "xact_age_s" ∷ "query_age_s" ∷ "state_age_s"
    ∷ "wait_event_type" ∷ "wait_event" ∷ "query" ∷ []

pub record Session (F : Type 0) : Type 0 where
  pub pid : ℤ
  pub usename : Option String
  pub datname : Option String
  pub application_name : Option String
  pub client_addr : Option String
  pub backend_type : Option String
  pub state : Option String
  pub backend_xid : Option ℕ
  pub backend_xmin : Option ℕ
  pub xact_age_s : Option F
  pub query_age_s : Option F
  pub state_age_s : Option F
  pub wait_event_type : Option String
  pub wait_event : Option String
  pub query : Option String

pub record SessionActivity (F : Type 0) : Type 0 where
  pub status : Status
  pub reason : String
  pub rows : List (Session F)

abbrev pub insufficient_privilege : String
insufficient_privilege = "<insufficient privilege>"

abbrev pub masked_session_columns : List String
masked_session_columns =
    "client_addr" ∷ "backend_type" ∷ "state" ∷ "xact_age_s" ∷ "query_age_s" ∷ "state_age_s"
    ∷ "wait_event_type" ∷ "wait_event" ∷ "query" ∷ []

abbrev pub untracked_session_columns : List String
untracked_session_columns =
    "state" ∷ "state_age_s" ∷ "wait_event_type" ∷ "wait_event" ∷ "query" ∷ []

-- s != nil && *s == v
abbrev pub is_text : Option String → String → Bool
is_text none v = false
is_text (some s) v = str_eq s v

module _ {F : Type 0} where
  -- Row
  unfoldable pub row : Session F → List (Value F)
  row s =
      int s.pid
      ∷ opt_str s.usename
      ∷ opt_str s.datname
      ∷ opt_str s.application_name
      ∷ opt_str s.client_addr
      ∷ opt_str s.backend_type
      ∷ opt_str s.state
      ∷ opt_nat s.backend_xid
      ∷ opt_nat s.backend_xmin
      ∷ opt_float s.xact_age_s
      ∷ opt_float s.query_age_s
      ∷ opt_float s.state_age_s
      ∷ opt_str s.wait_event_type
      ∷ opt_str s.wait_event
      ∷ opt_str s.query
      ∷ []

  -- Masked
  unfoldable pub masked : Session F → Bool
  masked s = is_text s.query insufficient_privilege

  -- Untracked
  unfoldable pub untracked : Session F → Bool
  untracked s = is_text s.state "disabled"

  -- Redacted: a masked row is not counted as untracked too.
  unfoldable pub redacted : SessionActivity F → List Redaction
  redacted a =
      redactions session_activity_id masked_session_columns reason_insufficient_privilege
        (pos (count masked a.rows))
      ++ redactions session_activity_id untracked_session_columns reason_track_activities_off
          (pos (count (λ s. not (masked s) && untracked s) a.rows))
