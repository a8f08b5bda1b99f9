-- ===== src/Rule/Params/Laws.antt =====
-- internal/rule/params.go: the verdict of Params.
use kbdiag.Prelude.{
  String, Bool, true, false, List, [], ◌&&◌, not, any, any_zero_iff, is_some, str_eq, ◌≡◌, arith,
}
use kbdiag.Facts.Base.{Status}
use kbdiag.Facts.Params as Params
use kbdiag.Facts.Params.{Param, ParamsChanged}
use kbdiag.Rule.Base.{Verdict, collected}
use kbdiag.Rule.Verdicts.{level_verdict, verdict_of_levels}
use kbdiag.Rule.Loops.{warns, fails, verdict-loop, any-cong, any-false}
use kbdiag.Rule.Inst.{is_nil}
use kbdiag.Rule.Params.{params, judge_param, param_finding}

-- A parameter that the configuration file set, of which the file is not shown.
abbrev pub is_concealed : Param → Bool
is_concealed x = str_eq x.source "configuration file" && not (is_some x.sourcefile)

redacted-concealed :
    (p : ParamsChanged) → not (is_nil (Params.redacted p)) ≡ any is_concealed p.rows
unfolding Params.redacted
redacted-concealed p =
    let (there, back) = any_zero_iff is_concealed p.rows in ground (arith, there, back)

abbrev pub params_verdict : Status → List Param → Verdict
params_verdict Status.not_applicable rows = Verdict.ok
params_verdict Status.ok rows =
    level_verdict false (any (λ x. x.pending_restart) rows) (any is_concealed rows)
params_verdict _ rows = Verdict.unknown

module _ (F : Type 0) (base : String → String) where
  judge_param-levels :
      (x : Param)
      → (warns (judge_param base {F = F} x) ≡ x.pending_restart)
        × (fails (judge_param base {F = F} x) ≡ false)
  unfolding judge_param param_finding
  judge_param-levels x = ground arith

  -- The params rule says WARN exactly when some changed parameter waits for a restart, else
  -- UNKNOWN when one that the configuration file set comes without its file or the probe was
  -- skipped or failed, and else OK.
  pub params-verdict :
      (p : ParamsChanged) → (params base {F = F} p).verdict ≡ params_verdict p.status p.rows
  unfolding params collected
  params-verdict p = ground (
    arith,
    verdict-loop (judge_param base {F = F}) p.rows (any is_concealed p.rows),
    any-false (judge_param base {F = F}) (λ x. fails (judge_param base {F = F} x)) p.rows
        (λ x. (judge_param-levels x).1),
    any-cong (λ x. warns (judge_param base {F = F} x)) (λ x. x.pending_restart) p.rows
        (λ x. (judge_param-levels x).0),
    redacted-concealed p,
    verdict_of_levels {F = F} [] true,
    verdict_of_levels {F = F} [] false,
  )
