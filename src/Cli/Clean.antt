-- ===== src/Cli/Clean.antt =====
-- cmd/kbdiag/main.go: when `kbdiag txn` exits with 0, from its flags to the rows that it read.
use kbdiag.Prelude.{
  ℤ, pos, leb_ℤ, ◌==◌, Bool, true, false, Option, is_some, ◌&&◌, not, any, ◌≡◌, refl, ap, ap₂, ◌∙◌,
  String, inl, inr, Bool-cases, arith,
}
use kbdiag.Unicode.{Unicode}
use kbdiag.Facts.Base as Facts
use kbdiag.Facts.Base.{Floats, Times, Status}
use kbdiag.Facts.Session.{SessionActivity}
use kbdiag.Facts.Txn.{TxnPrepared}
use kbdiag.Rule.Base.{Verdict, Thresholds, is_ok}
use kbdiag.Rule.Verdicts.{worse}
use kbdiag.Rule.Vacuum.{Singles}
use kbdiag.Rule.Txn.Laws.{is_long, is_unseen, is_stale, long_verdict, prepared_verdict, txn-verdict}
use kbdiag.Report.{new, add_probe, add_redacted}
use kbdiag.Scenario.Commands as Scenario
use kbdiag.Conn.Failures.{Attempt, done, failed}
use kbdiag.Cli.Outside.{Host}
use kbdiag.Cli.{GlobalFlags, check_timeout, run_code}
use kbdiag.Cli.Commands.{txn, parsed, run_command, execute, silent}
use kbdiag.Cli.Laws.{told_code, reached_code, printed_code, diagnose-code}

-- A probe that was read and has nothing to show for it, or that does not apply.
abbrev pub is_clean : Status → Bool → Bool
is_clean Status.ok quiet = quiet
is_clean Status.not_applicable quiet = true
is_clean _ quiet = false

-- Every session row could be read, and none had a transaction open for as long as the threshold.
abbrev pub no_long : {F : Type 0} ⦃fl : Floats F⦄ → Thresholds F → SessionActivity F → Bool
no_long th a = is_clean a.status (not (any (is_long th) a.rows) && not (any is_unseen a.rows))

-- No transaction was prepared as long ago as the threshold.
abbrev pub no_stale : {F T : Type 0} ⦃fl : Floats F⦄ → Thresholds F → TxnPrepared F T → Bool
no_stale th p = is_clean p.status (not (any (is_stale th) p.rows))

worse-is_ok : (v w : Verdict) → is_ok (worse v w) ≡ (is_ok v && is_ok w)
worse-is_ok v w = ground arith

long-is_ok :
    {F : Type 0} ⦃fl : Floats F⦄ (a : SessionActivity F) (th : Thresholds F)
    → is_ok (long_verdict th a.status a.rows) ≡ no_long th a
long-is_ok a th = ground arith

prepared-is_ok :
    {F T : Type 0} ⦃fl : Floats F⦄ (p : TxnPrepared F T) (th : Thresholds F)
    → is_ok (prepared_verdict th p.status p.rows) ≡ no_stale th p
prepared-is_ok p th = ground arith

printed-zero :
    (error : Option String) (v : Verdict)
    → (printed_code error v == 0) ≡ (not (is_some error) && is_ok v)
printed-zero error v = ground arith

-- The attempt succeeded, and this holds of what it gave.
abbrev pub on_done : {A : Type 0} → Attempt A → (A → Bool) → Bool
on_done (failed e) holds = false
on_done (done a) holds = holds a

module _ {X F T : Type 0} (h : Host X F T) ⦃fl : Floats F⦄ ⦃tm : Times T⦄ ⦃u : Unicode⦄
    ⦃sg : Singles F⦄ where
  -- The report of txn was printed, and neither the sessions nor the prepared transactions that were
  -- read call for a finding or are unknown.
  abbrev pub is_clean_txn : GlobalFlags → ℤ → Thresholds F → X → Facts.Context T → Bool
  is_clean_txn g limit th x c =
      not (
        is_some
          (h.print g.json (Scenario.txn c (h.session_activity x) (h.txn_prepared x c) limit th)))
      && (no_long th (h.session_activity x) && no_stale th (h.txn_prepared x c))

  -- The server was reached and said what it is, and then this holds of it.
  abbrev pub is_reached : GlobalFlags → (X → Facts.Context T → Bool) → Bool
  is_reached g holds = on_done (h.connect g.cfg) (λ x. on_done (h.identify x g.cfg) (holds x))

  report-zero :
      (g : GlobalFlags) (limit : ℤ) (th : Thresholds F) (x : X) (c : Facts.Context T)
      → let r = Scenario.txn c (h.session_activity x) (h.txn_prepared x c) limit th in
        (printed_code (h.print g.json r) r.verdict == 0) ≡ is_clean_txn g limit th x c
  unfolding Scenario.txn add_redacted add_probe new
  report-zero g limit th x c =
      let a = h.session_activity x in
      let p = h.txn_prepared x c in
      printed-zero _ _
      ∙ ap (λ b. not (is_some (h.print g.json (Scenario.txn c a p limit th))) && b)
          (ap is_ok (txn-verdict a p th)
            ∙ worse-is_ok _ _
            ∙ ap₂ (λ v w. v && w) (long-is_ok a th) (prepared-is_ok p th))

  told-zero :
      (g : GlobalFlags) (limit : ℤ) (th : Thresholds F) (x : X) (a : Attempt (Facts.Context T))
      → (told_code h g
            (λ c. silent h (Scenario.txn c (h.session_activity x) (h.txn_prepared x c) limit th))
            a
          == 0)
        ≡ on_done a (is_clean_txn g limit th x)
  told-zero g limit th x (failed e) = refl
  told-zero g limit th x (done c) = report-zero g limit th x c

  reached-zero :
      (g : GlobalFlags) (limit : ℤ) (th : Thresholds F) (a : Attempt X)
      → (reached_code h g
            (λ x c. silent h (Scenario.txn c (h.session_activity x) (h.txn_prepared x c) limit th))
            a
          == 0)
        ≡ on_done a (λ x. on_done (h.identify x g.cfg) (is_clean_txn g limit th x))
  reached-zero g limit th (failed e) = refl
  reached-zero g limit th (done x) = told-zero g limit th x (h.identify x g.cfg)

  -- `kbdiag txn` exits with 0 exactly when its timeout is positive, the server was reached and said
  -- what it is, the report was printed, and the sessions and the prepared transactions that were
  -- read are clean: both were collected or do not apply, every session row could be read, and no
  -- session had a transaction open and no transaction was prepared for at least its threshold.
  pub txn-exits_zero :
      (g : GlobalFlags) (limit : ℤ) (th : Thresholds F)
      → (run_code (execute h (parsed g (txn limit th))) == 0)
        ≡ (not (leb_ℤ g.cfg.query_timeout (pos 0)) && is_reached g (is_clean_txn g limit th))
  unfolding execute check_timeout run_command run_code
  txn-exits_zero g limit th = elim (Bool-cases (leb_ℤ g.cfg.query_timeout (pos 0))) [
    | inl late ↦ rw late refl
    | inr late ↦ rw late (
        ap (λ n. n == 0)
          (diagnose-code h g
            (λ x c. silent h (Scenario.txn c (h.session_activity x) (h.txn_prepared x c) limit th)))
        ∙ reached-zero g limit th (h.connect g.cfg))
  ]
