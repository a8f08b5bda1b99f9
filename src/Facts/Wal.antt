-- ===== src/Facts/Wal.antt =====
-- internal/facts/wal.go
use kbdiag.Prelude.{String, Bool, Option, List, [], ◌∷◌}
use kbdiag.Facts.Base.{Status, Value, bool, opt_str}

abbrev pub wal_position_id : String
wal_position_id = "wal.position"

abbrev pub wal_position_columns : List String
wal_position_columns = "in_recovery" ∷ "lsn" ∷ "wal_file" ∷ []

pub record Position : Type 0 where
  pub in_recovery : Bool
  pub lsn : Option String
  pub wal_file : Option String

unfoldable pub row : {F : Type 0} → Position → List (Value F)
row i = bool i.in_recovery ∷ opt_str i.lsn ∷ opt_str i.wal_file ∷ []

pub record WalPosition : Type 0 where
  pub status : Status
  pub reason : String
  pub rows : List Position
