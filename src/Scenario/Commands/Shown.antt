-- ===== src/Scenario/Commands/Shown.antt =====
-- internal/scenario/txn.go: the session rows that `kbdiag txn` shows, against its rule.
use kbdiag.Prelude.{
  Bool, false, List, [], ◌∷◌, ◌||◌, not, select, ◌≡◌, refl, ap₂, arith, if◌then◌else◌,
}
use kbdiag.Facts.Base.{Floats}
use kbdiag.Facts.Session.{Session, SessionActivity}
use kbdiag.Rule.Base.{Finding, Thresholds, quiet, findings_of, some_hidden, judged, collected}
use kbdiag.Rule.Txn.{long_txn, judge_long}
use kbdiag.Scenario.Commands.{in_txn}

module _ {F : Type 0} ⦃fl : Floats F⦄ where
  judge_long-in_txn :
      (th : Thresholds F) (s : Session F) → in_txn s ≡ false → judge_long th s ≡ quiet
  unfolding in_txn judge_long
  judge_long-in_txn th s h = ground (arith, h)

  findings_of-select :
      (th : Thresholds F) (rows : List (Session F))
      → (findings_of (judge_long th) (select in_txn rows) ≡ findings_of (judge_long th) rows)
        × (some_hidden (judge_long th) (select in_txn rows) ≡ some_hidden (judge_long th) rows)
  unfolding findings_of
  findings_of-select th [] = (refl, refl)
  findings_of-select th (s ∷ rows) =
      ground (arith, judge_long-in_txn th s, findings_of-select th rows)

  -- The session rows that `kbdiag txn` shows, before its limit, are all that its rule needs: the
  -- rule on long transactions answers the same for them as for every row.
  pub long_txn-select :
      (a : SessionActivity F) (th : Thresholds F)
      → long_txn (record a { rows = select in_txn a.rows }) th ≡ long_txn a th
  unfolding long_txn
  long_txn-select a th =
      let (same, hides) = findings_of-select th a.rows in
      ap₂
        (λ (fs : List (Finding F)) (h : Bool).
          (if not (collected a.status).0
            then judged [] (collected a.status).1
            else judged fs ((collected a.status).1 || h)))
        same hides
