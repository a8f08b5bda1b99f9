-- ===== src/Facts/Seq.antt =====
-- internal/facts/seq.go
use kbdiag.Prelude.{ℤ, pos, String, Bool, Option, List, [], ◌∷◌, count, not}
use kbdiag.Facts.Base.{
  Status, Redaction, Value, int, str, bool, opt_int, redactions, reason_insufficient_privilege,
}

abbrev pub seq_list_id : String
seq_list_id = "seq.list"

abbrev pub seq_columns : List String
seq_columns =
    "schemaname" ∷ "sequencename" ∷ "data_type" ∷ "start_value" ∷ "min_value" ∷ "max_value"
    ∷ "increment_by" ∷ "cycle" ∷ "cache_size" ∷ "last_value" ∷ "readable" ∷ []

-- The numbers are int64.
pub record Sequence : Type 0 where
  pub schemaname : String
  pub sequencename : String
  pub data_type : String
  pub start_value : ℤ
  pub min_value : ℤ
  pub max_value : ℤ
  pub increment_by : ℤ
  pub cycle : Bool
  pub cache_size : ℤ
  pub last_value : Option ℤ
  pub readable : Bool

unfoldable pub row : {F : Type 0} → Sequence → List (Value F)
row s =
    str s.schemaname
    ∷ str s.sequencename
    ∷ str s.data_type
    ∷ int s.start_value
    ∷ int s.min_value
    ∷ int s.max_value
    ∷ int s.increment_by
    ∷ bool s.cycle
    ∷ int s.cache_size
    ∷ opt_int s.last_value
    ∷ bool s.readable
    ∷ []

pub record SeqList : Type 0 where
  pub status : Status
  pub reason : String
  pub rows : List Sequence

unfoldable pub redacted : SeqList → List Redaction
redacted l =
    redactions seq_list_id ("last_value" ∷ []) reason_insufficient_privilege
      (pos (count (λ s. not s.readable) l.rows))
