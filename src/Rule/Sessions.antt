-- ===== src/Rule/Sessions.antt =====
-- internal/rule/rule.go: Sessions.
pub mod Laws
use kbdiag.Prelude.{
  Bool, String, none, some, [], ◌∷◌, ◌||◌, not, concat, show, str_eq, if◌then◌else◌,
}
use kbdiag.Facts.Base.{Status, Floats, int, str, float, opt_nat}
use kbdiag.Facts.Session.{Session, SessionActivity, masked, untracked, session_activity_id}
use kbdiag.Rule.Base.{
  Level, Verdict, Finding, Result, Thresholds, Seen, hidden, quiet, flagged, verify, judged,
  findings_of, some_hidden,
}

abbrev pub is_idle_in_txn : String → Bool
is_idle_in_txn state =
    str_eq state "idle in transaction" || str_eq state "idle in transaction (aborted)"

module _ {F : Type 0} ⦃fl : Floats F⦄ where
  unfoldable pub idle_finding : Session F → String → F → Finding F
  idle_finding s state age = record {
    id = "session.idle_in_txn";
    level = Level.warn;
    symptom =
        concat
          ("session " ∷ show s.pid ∷ " has been " ∷ state ∷ " for " ∷ fl.fixed0 age ∷ "s" ∷ []);
    evidence =
        (record {
          probe_id = session_activity_id;
          fields =
              ("pid", int s.pid)
              ∷ ("state", str state)
              ∷ ("state_age_s", float age)
              ∷ ("backend_xid", opt_nat s.backend_xid)
              ∷ [];
        })
        ∷ [];
    cause = none;
    next =
        verify (concat ("kbdiag session " ∷ show s.pid ∷ []))
          "which locks it holds, whether it blocks anyone"
        ∷ [];
  }

  -- One round of the loop over the rows.
  unfoldable pub judge_idle : Thresholds F → Session F → Seen F
  judge_idle th s = if masked s || untracked s then hidden else elim s.state [
    | none ↦ quiet
    | some state ↦ elim s.state_age_s [
      | none ↦ quiet
      | some age ↦
          if not (is_idle_in_txn state)
          then quiet
          else if fl.lt age th.idle_in_txn_warn_s
          then quiet
          else flagged (idle_finding s state age)
    ]
  ]

  -- Sessions
  unfoldable pub sessions : SessionActivity F → Thresholds F → Result F
  sessions a th = elim a.status [
    | Status.not_applicable ↦ record { verdict = Verdict.ok; findings = [] }
    | Status.ok ↦ judged (findings_of (judge_idle th) a.rows) (some_hidden (judge_idle th) a.rows)
    | _ ↦ record { verdict = Verdict.unknown; findings = [] }
  ]
