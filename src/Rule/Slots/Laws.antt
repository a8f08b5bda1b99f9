-- ===== src/Rule/Slots/Laws.antt =====
-- internal/rule/inst.go: the verdict of Slots.
use kbdiag.Prelude.{true, false, List, [], not, any, ◌≡◌, arith}
use kbdiag.Facts.Base.{Status, Floats}
use kbdiag.Facts.Slot.{Slot, SlotList}
use kbdiag.Rule.Base.{Verdict, collected}
use kbdiag.Rule.Verdicts.{level_verdict, verdict_of_levels}
use kbdiag.Rule.Loops.{warns, fails, verdict-loop, any-cong, any-false}
use kbdiag.Rule.Slots.{slots, judge_slot, slot_finding}

abbrev pub slots_verdict : Status → List Slot → Verdict
slots_verdict Status.not_applicable rows = Verdict.ok
slots_verdict Status.ok rows = level_verdict false (any (λ s. not s.active) rows) false
slots_verdict _ rows = Verdict.unknown

module _ (F : Type 0) ⦃fl : Floats F⦄ where
  judge_slot-levels :
      (s : Slot)
      → (warns (judge_slot {F = F} s) ≡ not s.active) × (fails (judge_slot {F = F} s) ≡ false)
  unfolding judge_slot slot_finding
  judge_slot-levels s = ground arith

  -- The slots rule says WARN exactly when some slot is inactive, else UNKNOWN when the probe was
  -- skipped or failed, and else OK.
  pub slots-verdict : (l : SlotList) → (slots {F = F} l).verdict ≡ slots_verdict l.status l.rows
  unfolding slots collected
  slots-verdict l = ground (
    arith,
    verdict-loop (judge_slot {F = F}) l.rows false,
    any-false (judge_slot {F = F}) (λ s. fails (judge_slot {F = F} s)) l.rows
        (λ s. (judge_slot-levels s).1),
    any-cong (λ s. warns (judge_slot {F = F} s)) (λ s. not s.active) l.rows
        (λ s. (judge_slot-levels s).0),
    verdict_of_levels {F = F} [] true,
    verdict_of_levels {F = F} [] false,
  )
