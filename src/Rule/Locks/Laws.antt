-- ===== src/Rule/Locks/Laws.antt =====
-- internal/rule/lock.go: the verdict of Locks.
use kbdiag.Prelude.{
  Bool, true, false, Option, none, some, List, [], ◌&&◌, ◌||◌, not, any, is_some, ◌≡◌, arith,
}
use kbdiag.Facts.Base.{Status, Floats}
use kbdiag.Facts.Lock.{Lock, LockList}
use kbdiag.Rule.Base.{Verdict, Thresholds, is_hidden, collected, findings_of, some_hidden, judged}
use kbdiag.Rule.Verdicts.{level_verdict, verdict_of_levels, IsJudged, judged-IsJudged, if-IsJudged}
use kbdiag.Rule.Loops.{warns, fails, verdict-warning_loop}
use kbdiag.Rule.Locks.{locks, judge_lock, lock_waiting}

module _ {F : Type 0} ⦃fl : Floats F⦄ where
  -- A backend's lock request that is not granted.
  abbrev pub is_waiting : Lock F → Bool
  is_waiting x = is_some x.pid && not x.granted

  abbrev pub waited_for : Thresholds F → Option F → Bool
  waited_for th none = false
  waited_for th (some wait) = not (fl.lt wait th.lock_wait_warn_s)

  abbrev pub is_overdue : Thresholds F → Lock F → Bool
  is_overdue th x = is_waiting x && waited_for th x.wait_s

  abbrev pub is_unknown_wait : Lock F → Bool
  is_unknown_wait x = is_waiting x && not (is_some x.wait_s)

  judge_lock-warns : (th : Thresholds F) (x : Lock F) → warns (judge_lock th x) ≡ is_overdue th x
  unfolding judge_lock lock_waiting
  judge_lock-warns th x = ground arith

  judge_lock-fails : (th : Thresholds F) (x : Lock F) → fails (judge_lock th x) ≡ false
  unfolding judge_lock lock_waiting
  judge_lock-fails th x = ground arith

  judge_lock-hidden :
      (th : Thresholds F) (x : Lock F) → is_hidden (judge_lock th x) ≡ is_unknown_wait x
  unfolding judge_lock
  judge_lock-hidden th x = ground arith

  -- What the verdict of the locks rule is, by the probe's status and the rows.
  abbrev pub locks_verdict : Thresholds F → Status → List (Lock F) → Verdict
  locks_verdict th Status.not_applicable rows = Verdict.ok
  locks_verdict th Status.ok rows =
      level_verdict false (any (is_overdue th) rows) (any is_unknown_wait rows)
  locks_verdict th _ rows = Verdict.unknown

  -- The locks rule says WARN exactly when a backend's request that is not granted has waited at
  -- least the threshold, else UNKNOWN when the time of such a request is not known or the probe
  -- was skipped or failed, and else OK.
  pub locks-verdict :
      (l : LockList F) (th : Thresholds F) → (locks l th).verdict ≡ locks_verdict th l.status l.rows
  unfolding locks collected findings_of
  locks-verdict l th =
      let loop =
        verdict-warning_loop (judge_lock th) (is_overdue th) is_unknown_wait (judge_lock-fails th)
          (judge_lock-warns th) (judge_lock-hidden th) l.rows false in
      ground (arith, loop, verdict_of_levels {F = F} [] true, verdict_of_levels {F = F} [] false)

  pub locks-IsJudged : (l : LockList F) (th : Thresholds F) → IsJudged (locks l th)
  unfolding locks
  locks-IsJudged l th =
      if-IsJudged (not (collected l.status).0) (judged [] (collected l.status).1)
        (judged (findings_of (judge_lock th) l.rows)
          ((collected l.status).1 || some_hidden (judge_lock th) l.rows))
        (judged-IsJudged [] (collected l.status).1)
        (judged-IsJudged (findings_of (judge_lock th) l.rows)
          ((collected l.status).1 || some_hidden (judge_lock th) l.rows))
