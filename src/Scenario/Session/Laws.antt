-- ===== src/Scenario/Session/Laws.antt =====
-- internal/scenario/lock.go: what the report of one session keeps of its rules.
use kbdiag.Prelude.{
  ℤ, eqb_ℤ, String, Bool, true, false, none, some, List, [], ◌∷◌, ◌&&◌, ◌||◌, not, any, map, select,
  str_eq, ◌≡◌, refl, arith, if◌then◌else◌,
}
use kbdiag.Facts.Base.{Floats, Times, Status}
use kbdiag.Facts.Base as Facts
use kbdiag.Facts.Session.{Session, SessionActivity}
use kbdiag.Facts.Lock.{Lock, LockList, contains}
use kbdiag.Rule.Base.{Verdict, Finding, Result, Next, Thresholds, merge}
use kbdiag.Rule.Verdicts.{worse, merge-two, merge-IsJudged, verdict_of_levels, IsJudged}
use kbdiag.Rule.Sessions as Rule
use kbdiag.Rule.Locks as RuleLocks
use kbdiag.Rule.Sessions.Laws.{sessions_verdict, sessions-verdict, sessions-IsJudged}
use kbdiag.Rule.Locks.Laws.{locks_verdict, locks-verdict, locks-IsJudged}
use kbdiag.Report.{is_collected, new, add_probe, add_redacted}
use kbdiag.Scenario.Session.{
  session, session_result, session_verdict, without_self, self_command, own_activity, own_locks,
  found, is_pid, is_nil,
}

-- A step whose command is the given one.
abbrev pub leads_to : String → Next → Bool
leads_to command n = str_eq n.command command

select-removes :
    (command : String) (ns : List Next)
    → any (leads_to command) (select (λ n. not (str_eq n.command command)) ns) ≡ false
select-removes command [] = refl
select-removes command (n ∷ ns) = ground (arith, select-removes command ns)

module _ {F : Type 0} where
  -- Some finding has a step with that command.
  abbrev pub suggests : String → List (Finding F) → Bool
  suggests command fs = any (λ f. any (leads_to command) f.next) fs

  without_self-suggests :
      (command : String) (fs : List (Finding F))
      → suggests command (map (without_self command) fs) ≡ false
  unfolding without_self
  without_self-suggests command [] = refl
  without_self-suggests command (f ∷ fs) =
      ground (arith, select-removes command f.next, without_self-suggests command fs)

module _ {F T : Type 0} ⦃fl : Floats F⦄ ⦃tm : Times T⦄ where
  -- The report of a session never suggests to run the same command again.
  pub session-suggests :
      (c : Facts.Context T) (a : SessionActivity F) (l : LockList F) (pid : ℤ) (th : Thresholds F)
      → suggests (self_command pid) (session c a l pid th).0.findings ≡ false
  unfolding session session_result add_redacted add_probe new
  session-suggests c a l pid th =
      without_self-suggests (self_command pid) (session_verdict pid a l th).findings

module _ {F : Type 0} ⦃fl : Floats F⦄ where
  -- A row of a lock that the pid holds or waits for, or that waits for the pid.
  abbrev pub concerns : ℤ → Lock F → Bool
  concerns pid l = contains l.blocked_by pid || elim l.pid [ none ↦ false | some p ↦ eqb_ℤ p pid ]

  -- The worse of the verdicts of the pid's session rows and of the lock rows that concern it.
  abbrev pub own_verdict : ℤ → SessionActivity F → LockList F → Thresholds F → Verdict
  own_verdict pid a l th =
      worse (sessions_verdict th a.status (select (λ s. eqb_ℤ s.pid pid) a.rows))
        (locks_verdict th l.status (select (concerns pid) l.rows))

  -- The activity was collected, and has no row of the pid.
  abbrev pub is_absent : ℤ → SessionActivity F → Bool
  is_absent pid a = is_collected a.status && not (any (λ s. eqb_ℤ s.pid pid) a.rows)

  select-cong :
      (p q : Lock F → Bool) (xs : List (Lock F))
      → ((x : Lock F) → p x ≡ q x)
      → select p xs ≡ select q xs
  select-cong p q [] e = refl
  select-cong p q (x ∷ xs) e = ground (arith, e x, select-cong p q xs e)

  own_locks-concern :
      (pid : ℤ) (l : LockList F) → (own_locks pid l).rows ≡ select (concerns pid) l.rows
  unfolding own_locks
  own_locks-concern pid l =
      select-cong (λ x. is_pid x.pid pid || contains x.blocked_by pid) (concerns pid) l.rows
        (λ x. ground arith)

  is_nil-select :
      (p : Session F → Bool) (xs : List (Session F)) → is_nil (select p xs) ≡ not (any p xs)
  is_nil-select p [] = refl
  is_nil-select p (x ∷ xs) = ground (arith, is_nil-select p xs)

  found-is_absent : (pid : ℤ) (a : SessionActivity F) → found pid a ≡ not (is_absent pid a)
  unfolding found own_activity
  found-is_absent pid a = ground (arith, is_nil-select (λ s. eqb_ℤ s.pid pid) a.rows)

  session_verdict-own :
      (pid : ℤ) (a : SessionActivity F) (l : LockList F) (th : Thresholds F)
      → (session_verdict pid a l th).verdict ≡ (
          if is_absent pid a
          then worse (own_verdict pid a l th) Verdict.unknown
          else own_verdict pid a l th)
  unfolding session_verdict own_activity own_locks
  session_verdict-own pid a l th =
      let s = Rule.sessions (own_activity pid a) th in
      let k = RuleLocks.locks (own_locks pid l) th in
      let absent : Result F = record { verdict = Verdict.unknown; findings = [] } in
      let unknown_IsJudged : IsJudged absent = record {
        unseen = true;
        explained = ground (arith, verdict_of_levels {F = F} [] true);
      } in
      ground (
        arith,
        merge-two s k (sessions-IsJudged (own_activity pid a) th)
            (locks-IsJudged (own_locks pid l) th),
        merge-two (merge (s ∷ k ∷ [])) absent (merge-IsJudged (s ∷ k ∷ [])) unknown_IsJudged,
        sessions-verdict (own_activity pid a) th,
        locks-verdict (own_locks pid l) th,
        own_locks-concern pid l,
        found-is_absent pid a,
      )

module _ {F T : Type 0} ⦃fl : Floats F⦄ ⦃tm : Times T⦄ where
  -- The verdict of a session's report is the worse of what the session rule says of the activity rows
  -- of the pid and what the lock rule says of the lock rows that are the pid's or that name it among
  -- the pids that block them. For a pid that the activity was collected without, it is the worse of
  -- these and UNKNOWN, so that a lock wait that the rule flags still gives WARN.
  pub session-verdict :
      (c : Facts.Context T) (a : SessionActivity F) (l : LockList F) (pid : ℤ) (th : Thresholds F)
      → (session c a l pid th).0.verdict ≡ (
          if is_absent pid a
          then worse (own_verdict pid a l th) Verdict.unknown
          else own_verdict pid a l th)
  unfolding session session_result add_redacted add_probe new
  session-verdict c a l pid th = session_verdict-own pid a l th
