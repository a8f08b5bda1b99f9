-- ===== src/Facts/Wait.antt =====
-- internal/facts/wait.go. The counts are Go ints: integers that do not overflow, as they count sessions.
use kbdiag.Prelude.{ℤ, pos, ◌+ℤ◌, ◌-ℤ◌, String, Option, List, [], ◌∷◌, ◌++◌, if◌then◌else◌}
use kbdiag.Facts.Base.{
  Status, Redaction, Value, int, ints, opt_str, redactions, reason_insufficient_privilege,
  reason_track_activities_off,
}
use kbdiag.Facts.Session.{is_text}

abbrev pub wait_summary_id : String
wait_summary_id = "wait.summary"

abbrev pub wait_columns : List String
wait_columns = "wait_event_type" ∷ "wait_event" ∷ "state" ∷ "sessions" ∷ "pids" ∷ []

pub record Wait : Type 0 where
  pub wait_event_type : Option String
  pub wait_event : Option String
  pub state : Option String
  pub sessions : ℤ
  pub pids : List ℤ
  pub masked : ℤ
  pub background : List ℤ

pub record WaitSummary : Type 0 where
  pub status : Status
  pub reason : String
  pub rows : List Wait

unfoldable pub row : {F : Type 0} → Wait → List (Value F)
row w =
    opt_str w.wait_event_type
    ∷ opt_str w.wait_event
    ∷ opt_str w.state
    ∷ int w.sessions
    ∷ ints w.pids
    ∷ []

abbrev pub redacted_wait_columns : List String
redacted_wait_columns = "wait_event_type" ∷ "wait_event" ∷ "state" ∷ []

-- The loop of Redacted: the two sums over the groups.
unfoldable pub masked_sum : List Wait → ℤ
masked_sum [] = pos 0
masked_sum (w ∷ ws) = w.masked +ℤ masked_sum ws

unfoldable pub untracked_sum : List Wait → ℤ
untracked_sum [] = pos 0
untracked_sum (w ∷ ws) =
    let rest = untracked_sum ws in
    if is_text w.state "disabled" then (w.sessions -ℤ w.masked) +ℤ rest else rest

unfoldable pub redacted : WaitSummary → List Redaction
redacted s =
    redactions wait_summary_id redacted_wait_columns reason_insufficient_privilege
      (masked_sum s.rows)
    ++ redactions wait_summary_id redacted_wait_columns reason_track_activities_off
        (untracked_sum s.rows)
