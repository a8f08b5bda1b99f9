-- ===== src/Rule/Seq/Laws.antt =====
-- internal/rule/seq.go: the verdict of Seq.
use kbdiag.Prelude.{
  ◌==◌, ℤ, pos, eqb_ℤ, String, Bool, true, false, none, some, is_some, inl, inr, Option-cases,
  any_zero_iff, [], ◌&&◌, not, any, str_eq, ◌≡◌, arith,
}
use kbdiag.Facts.Base.{Status, Floats}
use kbdiag.Facts.Seq as Seq
use kbdiag.Facts.Seq.{Sequence, SeqList}
use kbdiag.Rule.Base.{Verdict, collected, findings_of}
use kbdiag.Rule.Verdicts.{level_verdict, verdict_of_levels}
use kbdiag.Rule.Loops.{warns, fails, verdict-loop, any-cong, any-false}
use kbdiag.Rule.Inst.{is_nil}
use kbdiag.Rule.Seq.{seq, judge_seq, seq_left, values_left, seq_finding}
use kbdiag.Rule.Seq.Nextval.{nextval, nextval_cases, mul-le_iff-le-div, step, left_room}

-- No value is left exactly when the next call of nextval fails.
values_left-nextval :
    (s : Sequence) (last : ℤ)
    → eqb_ℤ s.increment_by (pos 0) ≡ false
    → (values_left s last == 0) ≡ not (is_some (nextval s last))
unfolding values_left
values_left-nextval s last h =
    let (into, out) = mul-le_iff-le-div 1 (step s) (left_room s last) (ground arith) in
    ground (arith, nextval_cases s last h, into, out)

module _ (F : Type 0) ⦃fl : Floats F⦄ where
  -- Called before, not cycling, and the next call would fail.
  abbrev pub is_exhausted : Sequence → Bool
  is_exhausted s = elim s.last_value [
    | none ↦ false
    | some last ↦
        not s.cycle && not (eqb_ℤ s.increment_by (pos 0)) && not (is_some (nextval s last))
  ]

  judge_seq-exhausted : (s : Sequence) → fails (judge_seq ⦃fl = fl⦄ s) ≡ is_exhausted s
  unfolding judge_seq seq_finding
  judge_seq-exhausted s = elim (Option-cases s.last_value) [
    | inl unused ↦ ground (arith, unused)
    | inr (last, called) ↦ unfold seq_left in ground (arith, called, values_left-nextval s last)
  ]

  judge_seq-warns : (s : Sequence) → warns (judge_seq ⦃fl = fl⦄ s) ≡ false
  unfolding judge_seq seq_finding
  judge_seq-warns s = ground arith

  -- Some row's last value could not be read.
  abbrev pub is_unread : SeqList → Bool
  is_unread l = any (λ s. not s.readable) l.rows

  redacted-unread : (l : SeqList) → not (is_nil (Seq.redacted l)) ≡ is_unread l
  unfolding Seq.redacted
  redacted-unread l =
      let (there, back) = any_zero_iff (λ s. not s.readable) l.rows in ground (arith, there, back)

  abbrev pub seq_verdict : SeqList → String → Status → Verdict
  seq_verdict l role Status.not_applicable = Verdict.ok
  seq_verdict l role Status.ok =
      level_verdict (not (str_eq role "standby") && any is_exhausted l.rows) false (is_unread l)
  seq_verdict l role _ = Verdict.unknown

  -- The seq rule says FAIL exactly when, on a node that is not a standby, some sequence that was
  -- called before, does not cycle and has a step other than 0 would fail at its next nextval;
  -- else UNKNOWN when a sequence could not be read or the probe was skipped or failed, and else OK.
  pub seq-verdict :
      (l : SeqList) (role : String) → (seq ⦃fl = fl⦄ l role).verdict ≡ seq_verdict l role l.status
  unfolding seq collected findings_of
  seq-verdict l role = ground (
    arith,
    verdict-loop (judge_seq ⦃fl = fl⦄) l.rows (is_unread l),
    any-false (judge_seq ⦃fl = fl⦄) (λ s. warns (judge_seq ⦃fl = fl⦄ s)) l.rows judge_seq-warns,
    any-cong (λ s. fails (judge_seq ⦃fl = fl⦄ s)) is_exhausted l.rows judge_seq-exhausted,
    redacted-unread l,
    verdict_of_levels {F = F} [] (is_unread l),
    verdict_of_levels {F = F} [] true,
    verdict_of_levels {F = F} [] false,
  )
