-- ===== src/Facts/Slot.antt =====
-- internal/facts/slot.go
use kbdiag.Prelude.{ℕ, ℤ, String, Bool, Option, List, [], ◌∷◌}
use kbdiag.Facts.Base.{Status, Value, str, bool, opt_int, opt_nat, opt_str}

abbrev pub slot_list_id : String
slot_list_id = "slot.list"

abbrev pub slot_columns : List String
slot_columns =
    "slot_name" ∷ "slot_type" ∷ "active" ∷ "active_pid" ∷ "xmin" ∷ "catalog_xmin" ∷ "xmin_age"
    ∷ "restart_lsn" ∷ "retained_wal_bytes" ∷ []

pub record Slot : Type 0 where
  pub name : String
  pub type : String
  pub active : Bool
  pub active_pid : Option ℤ
  pub xmin : Option ℕ
  pub catalog_xmin : Option ℕ
  pub xmin_age : Option ℤ
  pub restart_lsn : Option String
  pub retained_wal_bytes : Option ℤ

pub record SlotList : Type 0 where
  pub status : Status
  pub reason : String
  pub rows : List Slot

unfoldable pub row : {F : Type 0} → Slot → List (Value F)
row s =
    str s.name
    ∷ str s.type
    ∷ bool s.active
    ∷ opt_int s.active_pid
    ∷ opt_nat s.xmin
    ∷ opt_nat s.catalog_xmin
    ∷ opt_int s.xmin_age
    ∷ opt_str s.restart_lsn
    ∷ opt_int s.retained_wal_bytes
    ∷ []
