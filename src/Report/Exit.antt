-- ===== src/Report/Exit.antt =====
-- internal/report/report.go: the exit code of a command that runs several rules.
use kbdiag.Prelude.{◌==◌, List, [], ◌∷◌, all, ◌≡◌, refl, arith}
use kbdiag.Rule.Base.{Verdict, Result, is_ok, merge}
use kbdiag.Rule.Verdicts.{AllJudged, worst, merge-worst}
use kbdiag.Report.{exit_code}

worst-ok : {F : Type 0} (rs : List (Result F)) → is_ok (worst rs) ≡ all (λ r. is_ok r.verdict) rs
worst-ok [] = refl
worst-ok (r ∷ rs) = ground (arith, worst-ok rs)

exit_code-ok : (v : Verdict) → (exit_code v == 0) ≡ is_ok v
unfolding exit_code
exit_code-ok v = ground arith

-- A command that merges the results of several rules, each explained by its findings and unread
-- inputs, exits with 0 exactly when every one of its rules says OK.
pub exit_code-merge :
    {F : Type 0} (rs : List (Result F))
    → AllJudged rs
    → (exit_code (merge rs).verdict == 0) ≡ all (λ r. is_ok r.verdict) rs
exit_code-merge rs js = cc (merge-worst rs js, exit_code-ok (merge rs).verdict, worst-ok rs)
