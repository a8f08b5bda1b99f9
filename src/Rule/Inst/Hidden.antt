-- ===== src/Rule/Inst/Hidden.antt =====
-- internal/rule/inst.go: the verdict of Waits.
use kbdiag.Prelude.{pos, eqb_ℤ, Bool, true, false, List, [], ◌||◌, not, ◌≡◌, arith, if◌then◌else◌}
use kbdiag.Facts.Base.{Status}
use kbdiag.Facts.Wait.{Wait, WaitSummary, masked_sum, untracked_sum}
use kbdiag.Facts.Wait as Wait
use kbdiag.Rule.Base.{Verdict, collected}
use kbdiag.Rule.Verdicts.{verdict_of_levels}
use kbdiag.Rule.Inst.{waits, is_nil}

-- Some sessions are masked, or untracked.
abbrev pub some_concealed : List Wait → Bool
some_concealed rows =
    not (eqb_ℤ (masked_sum rows) (pos 0)) || not (eqb_ℤ (untracked_sum rows) (pos 0))

abbrev pub waits_verdict : Status → List Wait → Verdict
waits_verdict Status.not_applicable rows = Verdict.ok
waits_verdict Status.ok rows = if some_concealed rows then Verdict.unknown else Verdict.ok
waits_verdict _ rows = Verdict.unknown

redacted-concealed : (w : WaitSummary) → not (is_nil (Wait.redacted w)) ≡ some_concealed w.rows
unfolding Wait.redacted
redacted-concealed w = ground arith

-- The waits rule flags nothing: it says UNKNOWN exactly when the probe was skipped or failed or
-- its groups count masked or untracked sessions, and else OK.
pub waits-verdict :
    (F : Type 0) (w : WaitSummary) → (waits {F = F} w).verdict ≡ waits_verdict w.status w.rows
unfolding waits collected
waits-verdict F w = ground (
  arith,
  redacted-concealed w,
  verdict_of_levels {F = F} [] true,
  verdict_of_levels {F = F} [] false,
)
