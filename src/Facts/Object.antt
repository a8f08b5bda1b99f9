-- ===== src/Facts/Object.antt =====
-- internal/facts/object.go
use kbdiag.Prelude.{ℤ, String, Option, List, [], ◌∷◌}
use kbdiag.Facts.Base.{Status, Value, int, str, opt_int}

abbrev pub object_tables_id : String
object_tables_id = "object.tables"

abbrev pub object_indexes_id : String
object_indexes_id = "object.indexes"

abbrev pub object_table_columns : List String
object_table_columns =
    "schemaname" ∷ "relname" ∷ "relkind" ∷ "total_bytes" ∷ "table_bytes" ∷ "index_bytes"
    ∷ "toast_bytes" ∷ "reltuples" ∷ []

abbrev pub object_index_columns : List String
object_index_columns = "schemaname" ∷ "relname" ∷ "table_name" ∷ "bytes" ∷ []

pub record ObjectTable : Type 0 where
  pub schemaname : String
  pub relname : String
  pub relkind : String
  pub total_bytes : ℤ
  pub table_bytes : ℤ
  pub index_bytes : ℤ
  pub toast_bytes : Option ℤ
  pub reltuples : ℤ

unfoldable pub table_row : {F : Type 0} → ObjectTable → List (Value F)
table_row s =
    str s.schemaname
    ∷ str s.relname
    ∷ str s.relkind
    ∷ int s.total_bytes
    ∷ int s.table_bytes
    ∷ int s.index_bytes
    ∷ opt_int s.toast_bytes
    ∷ int s.reltuples
    ∷ []

pub record ObjectTables : Type 0 where
  pub status : Status
  pub reason : String
  pub rows : List ObjectTable

pub record ObjectIndex : Type 0 where
  pub schemaname : String
  pub relname : String
  pub table_name : String
  pub bytes : ℤ

unfoldable pub index_row : {F : Type 0} → ObjectIndex → List (Value F)
index_row s = str s.schemaname ∷ str s.relname ∷ str s.table_name ∷ int s.bytes ∷ []

pub record ObjectIndexes : Type 0 where
  pub status : Status
  pub reason : String
  pub rows : List ObjectIndex
