-- ===== src/Scenario/Session.antt =====
-- internal/scenario/lock.go: Session, and internal/scenario/sessions.go. The text layouts
-- (SetSession, SetSessions) are not modelled.
pub mod Laws
use kbdiag.Prelude.{
  ℤ, pos, eqb_ℤ, String, Bool, true, false, Option, none, some, List, [], ◌∷◌, ◌&&◌, ◌||◌, not, map,
  select, concat, show, str_eq, if◌then◌else◌,
}
use kbdiag.Facts.Base as Facts
use kbdiag.Facts.Base.{Floats, Times, Status}
use kbdiag.Facts.Session as FactsSession
use kbdiag.Facts.Session.{Session, SessionActivity, session_activity_id, session_columns}
use kbdiag.Facts.Lock as FactsLock
use kbdiag.Facts.Lock.{Lock, LockList, lock_list_id, lock_columns, contains}
use kbdiag.Rule.Base.{Verdict, Finding, Result, Next, Thresholds, merge}
use kbdiag.Rule.Sessions as Rule
use kbdiag.Rule.Locks as RuleLocks
use kbdiag.Report.{Report, new, add_probe, add_redacted, is_collected}

abbrev pub is_pid : Option ℤ → ℤ → Bool
is_pid none p = false
is_pid (some q) p = eqb_ℤ q p

abbrev pub is_nil {ℓ} : {A : Type ℓ} → List A → Bool
is_nil [] = true
is_nil _ = false

module _ {F T : Type 0} ⦃fl : Floats F⦄ ⦃tm : Times T⦄ where
  -- Sessions
  unfoldable pub sessions : Facts.Context T → SessionActivity F → ℤ → Thresholds F → Report F
  sessions c a limit th = add_redacted (FactsSession.redacted a) (
      add_probe session_activity_id a.status a.reason session_columns (map FactsSession.row a.rows)
        limit (new "sessions" c (Rule.sessions a th)))

module _ {F : Type 0} where
  -- act of Session: the rows of the pid.
  unfoldable pub own_activity : ℤ → SessionActivity F → SessionActivity F
  own_activity pid a = record a { rows = select (λ s. eqb_ℤ s.pid pid) a.rows }

  -- locks of Session: the rows of the pid, and those that it blocks.
  unfoldable pub own_locks : ℤ → LockList F → LockList F
  own_locks pid l = record l {
    rows = select (λ x. is_pid x.pid pid || contains x.blocked_by pid) l.rows;
  }

  unfoldable pub found : ℤ → SessionActivity F → Bool
  unfolding own_activity
  found pid a = not (is_collected a.status) || not (is_nil (own_activity pid a).rows)

  -- The step that leads back to this very session is left out.
  unfoldable pub without_self : String → Finding F → Finding F
  without_self self f = record f { next = select (λ n. not (str_eq n.command self)) f.next }

unfoldable pub self_command : ℤ → String
self_command pid = concat ("kbdiag session " ∷ show pid ∷ [])

module _ {F : Type 0} ⦃fl : Floats F⦄ where
  -- r of Session, before the steps are filtered.
  unfoldable pub session_verdict : ℤ → SessionActivity F → LockList F → Thresholds F → Result F
  session_verdict pid a l th =
      let r =
        merge (Rule.sessions (own_activity pid a) th ∷ RuleLocks.locks (own_locks pid l) th ∷ []) in
      if found pid a
      then r
      else merge (r ∷ record { verdict = Verdict.unknown; findings = [] } ∷ [])

  unfoldable pub session_result : ℤ → SessionActivity F → LockList F → Thresholds F → Result F
  session_result pid a l th =
      let r = session_verdict pid a l th in
      record { verdict = r.verdict; findings = map (without_self (self_command pid)) r.findings }

module _ {F T : Type 0} ⦃fl : Floats F⦄ ⦃tm : Times T⦄ where
  -- Session: the report, and whether the pid was there.
  unfoldable pub session :
      Facts.Context T → SessionActivity F → LockList F → ℤ → Thresholds F → Report F × Bool
  unfolding session_result
  session c a l pid th =
      let act = own_activity pid a in
      let locks = own_locks pid l in
      (
        add_redacted (FactsLock.redacted locks) (
            add_redacted (FactsSession.redacted act) (
              add_probe lock_list_id locks.status locks.reason lock_columns
                (map FactsLock.row locks.rows) (pos 0)
                (add_probe session_activity_id act.status act.reason session_columns
                  (map FactsSession.row act.rows) (pos 0)
                  (new "session" c (session_result pid a l th))))),
        found pid a,
      )
