-- ===== src/Rule/Slots.antt =====
-- internal/rule/inst.go: Slots.
pub mod Laws
use kbdiag.Prelude.{
  ℕ, ℤ, pos, ltb_ℤ, Bool, true, false, String, Option, none, some, List, [], ◌∷◌, not, concat, show,
  show_ℕ, if◌then◌else◌,
}
use kbdiag.Facts.Base.{Floats, str, bool, opt_nat, opt_int}
use kbdiag.Facts.Slot.{Slot, SlotList, slot_list_id}
use kbdiag.Rule.Base.{
  Level, Finding, Result, Seen, quiet, flagged, verify, judged, collected, findings_of,
}
use kbdiag.Units.{bytes}

module _ (F : Type 0) ⦃fl : Floats F⦄ where
  -- The text that the finding begins with and what the slot keeps, one piece for each test.
  unfoldable pub slot_symptom : Slot → List String
  slot_symptom s =
      "replication slot "
      ∷ s.name
      ∷ " is inactive, "
      ∷ (elim s.retained_wal_bytes [
        | none ↦ "retaining no WAL"
        | some b ↦
            concat ("retaining " ∷ bytes (fl.most (fl.of_int (pos 0)) (fl.of_int b)) ∷ " WAL" ∷ [])
      ])
      ∷ (elim s.xmin [
        | none ↦ ""
        | some x ↦ concat (", xmin " ∷ show_ℕ x ∷ " holding back the vacuum horizon" ∷ [])
      ])
      ∷ (elim s.catalog_xmin [
        | none ↦ ""
        | some x ↦
            concat
              (", catalog_xmin " ∷ show_ℕ x ∷ " holding back the system catalogs' horizon" ∷ [])
      ])
      ∷ []

module _ {F : Type 0} ⦃fl : Floats F⦄ where
  unfoldable pub slot_finding : Slot → Finding F
  slot_finding s = record {
    id = "slot.inactive";
    level = Level.warn;
    symptom = concat (slot_symptom F s);
    evidence =
        (record {
          probe_id = slot_list_id;
          fields =
              ("slot_name", str s.name)
              ∷ ("active", bool s.active)
              ∷ ("xmin", opt_nat s.xmin)
              ∷ ("catalog_xmin", opt_nat s.catalog_xmin)
              ∷ ("retained_wal_bytes", opt_int s.retained_wal_bytes)
              ∷ [];
        })
        ∷ [];
    cause = none;
    next =
        verify "kbdiag status"
          "run on this slot's downstream node (usually a standby): if it cannot connect, the node is down; inst.upstream warns when it has no receiver, the receiver is not streaming, or nothing has come for longer than wal_receiver_timeout"
        ∷ [];
  }

  -- One round of the loop over the rows.
  unfoldable pub judge_slot : Slot → Seen F
  judge_slot s = if s.active then quiet else flagged (slot_finding s)

  -- Slots
  unfoldable pub slots : SlotList → Result F
  slots l =
      let (judge, unseen) = collected l.status in
      if not judge then judged [] unseen else judged (findings_of judge_slot l.rows) unseen
