-- ===== src/Rule/Txn/Laws.antt =====
-- internal/rule/txn.go: the verdict of Txn.
use kbdiag.Prelude.{
  Bool, true, false, Option, none, some, List, [], ◌∷◌, ◌&&◌, ◌||◌, not, any, ◌≡◌, arith,
}
use kbdiag.Facts.Base.{Status, Floats}
use kbdiag.Facts.Session.{Session, SessionActivity, masked, untracked}
use kbdiag.Facts.Txn.{Prepared, TxnPrepared}
use kbdiag.Rule.Base.{Verdict, Thresholds, is_hidden, collected, findings_of, some_hidden, judged}
use kbdiag.Rule.Verdicts.{
  level_verdict, verdict_of_levels, worse, merge-worst, IsJudged, judged-IsJudged, if-IsJudged,
}
use kbdiag.Rule.Loops.{warns, fails, verdict-warning_loop, verdict-loop, any-false, any-cong}
use kbdiag.Rule.Txn.{
  txn, long_txn, prepared, judge_long, judge_prepared, long_finding, prepared_finding,
}

module _ {F : Type 0} ⦃fl : Floats F⦄ where
  abbrev pub is_unseen : Session F → Bool
  is_unseen s = masked s || untracked s

  abbrev pub open_for : Thresholds F → Option F → Bool
  open_for th none = false
  open_for th (some age) = not (fl.lt age th.xact_warn_s)

  abbrev pub is_long : Thresholds F → Session F → Bool
  is_long th s = not (is_unseen s) && open_for th s.xact_age_s

  judge_long-warns : (th : Thresholds F) (s : Session F) → warns (judge_long th s) ≡ is_long th s
  unfolding judge_long long_finding
  judge_long-warns th s = ground arith

  judge_long-fails : (th : Thresholds F) (s : Session F) → fails (judge_long th s) ≡ false
  unfolding judge_long long_finding
  judge_long-fails th s = ground arith

  judge_long-hidden :
      (th : Thresholds F) (s : Session F) → is_hidden (judge_long th s) ≡ is_unseen s
  unfolding judge_long
  judge_long-hidden th s = ground arith

  abbrev pub long_verdict : Thresholds F → Status → List (Session F) → Verdict
  long_verdict th Status.not_applicable rows = Verdict.ok
  long_verdict th Status.ok rows = level_verdict false (any (is_long th) rows) (any is_unseen rows)
  long_verdict th _ rows = Verdict.unknown

  pub long_txn-verdict :
      (a : SessionActivity F) (th : Thresholds F)
      → (long_txn a th).verdict ≡ long_verdict th a.status a.rows
  unfolding long_txn collected findings_of
  long_txn-verdict a th =
      let loop =
        verdict-warning_loop (judge_long th) (is_long th) is_unseen (judge_long-fails th)
          (judge_long-warns th) (judge_long-hidden th) a.rows false in
      ground (arith, loop, verdict_of_levels {F = F} [] true, verdict_of_levels {F = F} [] false)

  long_txn-IsJudged : (a : SessionActivity F) (th : Thresholds F) → IsJudged (long_txn a th)
  unfolding long_txn
  long_txn-IsJudged a th =
      if-IsJudged (not (collected a.status).0) (judged [] (collected a.status).1)
        (judged (findings_of (judge_long th) a.rows)
          ((collected a.status).1 || some_hidden (judge_long th) a.rows))
        (judged-IsJudged [] (collected a.status).1)
        (judged-IsJudged (findings_of (judge_long th) a.rows)
          ((collected a.status).1 || some_hidden (judge_long th) a.rows))

module _ {F T : Type 0} ⦃fl : Floats F⦄ where
  abbrev pub is_stale : Thresholds F → Prepared F T → Bool
  is_stale th x = not (fl.lt x.age_s th.prepared_warn_s)

  judge_prepared-warns :
      (th : Thresholds F) (x : Prepared F T) → warns (judge_prepared th x) ≡ is_stale th x
  unfolding judge_prepared prepared_finding
  judge_prepared-warns th x = ground arith

  judge_prepared-fails :
      (th : Thresholds F) (x : Prepared F T) → fails (judge_prepared th x) ≡ false
  unfolding judge_prepared prepared_finding
  judge_prepared-fails th x = ground arith

  judge_prepared-hidden :
      (th : Thresholds F) (x : Prepared F T) → is_hidden (judge_prepared th x) ≡ false
  unfolding judge_prepared
  judge_prepared-hidden th x = ground arith

  -- A row of the prepared transactions is never unreadable.
  abbrev pub never_hidden : Prepared F T → Bool
  never_hidden x = false

  abbrev pub prepared_verdict : Thresholds F → Status → List (Prepared F T) → Verdict
  prepared_verdict th Status.not_applicable rows = Verdict.ok
  prepared_verdict th Status.ok rows = level_verdict false (any (is_stale th) rows) false
  prepared_verdict th _ rows = Verdict.unknown

  prepared-verdict :
      (p : TxnPrepared F T) (th : Thresholds F)
      → (prepared p th).verdict ≡ prepared_verdict th p.status p.rows
  unfolding prepared collected findings_of
  prepared-verdict p th = ground (
    arith,
    verdict-loop (judge_prepared th) p.rows false,
    any-false (judge_prepared th) (λ x. fails (judge_prepared th x)) p.rows
        (judge_prepared-fails th),
    any-cong (λ x. warns (judge_prepared th x)) (is_stale th) p.rows (judge_prepared-warns th),
    verdict_of_levels {F = F} [] true,
    verdict_of_levels {F = F} [] false,
  )

  prepared-IsJudged : (p : TxnPrepared F T) (th : Thresholds F) → IsJudged (prepared p th)
  unfolding prepared
  prepared-IsJudged p th =
      if-IsJudged (not (collected p.status).0) (judged [] (collected p.status).1)
        (judged (findings_of (judge_prepared th) p.rows) (collected p.status).1)
        (judged-IsJudged [] (collected p.status).1)
        (judged-IsJudged (findings_of (judge_prepared th) p.rows) (collected p.status).1)

  -- The txn rule says the worse of two verdicts. The sessions': WARN when one that can be read has
  -- had a transaction open for at least the threshold, else UNKNOWN when a row is masked or
  -- untracked, else OK. The prepared transactions': WARN when one was prepared at least the
  -- threshold ago, else OK. Of a probe that was skipped or failed each is UNKNOWN, and of one that
  -- does not apply OK.
  pub txn-verdict :
      (a : SessionActivity F) (p : TxnPrepared F T) (th : Thresholds F)
      → (txn a p th).verdict
        ≡ worse (long_verdict th a.status a.rows) (prepared_verdict th p.status p.rows)
  unfolding txn
  txn-verdict a p th = ground (
    arith,
    merge-worst (long_txn a th ∷ prepared p th ∷ [])
        (long_txn-IsJudged a th, (prepared-IsJudged p th, tt)),
    long_txn-verdict a th,
    prepared-verdict p th,
  )
