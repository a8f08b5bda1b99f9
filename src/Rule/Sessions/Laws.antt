-- ===== src/Rule/Sessions/Laws.antt =====
-- internal/rule/rule.go: the verdict of Sessions.
use kbdiag.Prelude.{
  String, Bool, true, false, Option, none, some, List, [], ◌&&◌, not, any, ◌≡◌, arith,
}
use kbdiag.Facts.Base.{Status, Floats}
use kbdiag.Facts.Session.{Session, SessionActivity, masked, untracked}
use kbdiag.Rule.Base.{Verdict, Thresholds, is_hidden, some_hidden}
use kbdiag.Rule.Verdicts.{level_verdict, verdict_of_levels, IsJudged}
use kbdiag.Rule.Loops.{warns, fails, verdict-loop, any-cong, any-false}
use kbdiag.Rule.Sessions.{sessions, judge_idle, idle_finding, is_idle_in_txn}

module _ {F : Type 0} ⦃fl : Floats F⦄ where
  abbrev pub is_readable : Session F → Bool
  is_readable s = not (masked s) && not (untracked s)

  -- Idle in a transaction, for no less than the threshold.
  abbrev pub idles_for : Thresholds F → Option String → Option F → Bool
  idles_for th none age = false
  idles_for th (some state) none = false
  idles_for th (some state) (some age) =
      is_idle_in_txn state && not (fl.lt age th.idle_in_txn_warn_s)

  abbrev pub is_overdue : Thresholds F → Session F → Bool
  is_overdue th s = is_readable s && idles_for th s.state s.state_age_s

  judge_idle-warns : (th : Thresholds F) (s : Session F) → warns (judge_idle th s) ≡ is_overdue th s
  unfolding judge_idle idle_finding
  judge_idle-warns th s = ground arith

  judge_idle-fails : (th : Thresholds F) (s : Session F) → fails (judge_idle th s) ≡ false
  unfolding judge_idle idle_finding
  judge_idle-fails th s = ground arith

  judge_idle-hidden :
      (th : Thresholds F) (s : Session F) → is_hidden (judge_idle th s) ≡ not (is_readable s)
  unfolding judge_idle
  judge_idle-hidden th s = ground arith

  -- What the verdict of the sessions rule is, by the probe's status and the rows.
  abbrev pub sessions_verdict : Thresholds F → Status → List (Session F) → Verdict
  sessions_verdict th Status.not_applicable rows = Verdict.ok
  sessions_verdict th Status.ok rows =
      level_verdict false (any (is_overdue th) rows) (any (λ s. not (is_readable s)) rows)
  sessions_verdict th _ rows = Verdict.unknown

  -- The sessions rule says WARN exactly when some readable session has been idle in a transaction
  -- for at least the threshold, else UNKNOWN when a row is masked or untracked or the probe was
  -- skipped or failed, and else OK.
  pub sessions-verdict :
      (a : SessionActivity F) (th : Thresholds F)
      → (sessions a th).verdict ≡ sessions_verdict th a.status a.rows
  unfolding sessions
  sessions-verdict a th = ground (
    arith,
    verdict-loop (judge_idle th) a.rows (any (λ s. is_hidden (judge_idle th s)) a.rows),
    any-false (judge_idle th) (λ s. fails (judge_idle th s)) a.rows (judge_idle-fails th),
    any-cong (λ s. warns (judge_idle th s)) (is_overdue th) a.rows (judge_idle-warns th),
    any-cong (λ s. is_hidden (judge_idle th s)) (λ s. not (is_readable s)) a.rows
        (judge_idle-hidden th),
  )

  pub sessions-IsJudged : (a : SessionActivity F) (th : Thresholds F) → IsJudged (sessions a th)
  unfolding sessions
  sessions-IsJudged a th = record {
    unseen = elim a.status [
      | Status.not_applicable ↦ false
      | Status.ok ↦ some_hidden (judge_idle th) a.rows
      | _ ↦ true
    ];
    explained =
        ground (arith, verdict_of_levels {F = F} [] true, verdict_of_levels {F = F} [] false);
  }
