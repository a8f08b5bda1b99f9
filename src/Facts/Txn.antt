-- ===== src/Facts/Txn.antt =====
-- internal/facts/txn.go
use kbdiag.Prelude.{ℕ, pos, String, List, [], ◌∷◌}
use kbdiag.Facts.Base.{Status, Times, Value, int, str, float}

abbrev pub txn_prepared_id : String
txn_prepared_id = "txn.prepared"

abbrev pub prepared_columns : List String
prepared_columns = "gid" ∷ "owner" ∷ "database" ∷ "prepared_at" ∷ "age_s" ∷ "transaction" ∷ []

pub record Prepared (F T : Type 0) : Type 0 where
  pub gid : String
  pub owner : String
  pub database : String
  pub prepared_at : T
  pub age_s : F
  pub transaction : ℕ

pub record TxnPrepared (F T : Type 0) : Type 0 where
  pub status : Status
  pub reason : String
  pub rows : List (Prepared F T)

unfoldable pub row : {F T : Type 0} ⦃tm : Times T⦄ → Prepared F T → List (Value F)
row ⦃tm⦄ p =
    str p.gid
    ∷ str p.owner
    ∷ str p.database
    ∷ str (tm.rfc3339 (tm.truncate_s p.prepared_at))
    ∷ float p.age_s
    ∷ int (pos p.transaction)
    ∷ []
