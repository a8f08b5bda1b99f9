-- ===== src/Facts/Freeze.antt =====
-- internal/facts/freeze.go
use kbdiag.Prelude.{ℕ, ◌-◌, ◌^◌, ℤ, pos, String, Bool, List, [], ◌∷◌}
use kbdiag.Facts.Base.{Status, Value, int, str, bool}

abbrev pub freeze_databases_id : String
freeze_databases_id = "freeze.databases"

abbrev pub freeze_tables_id : String
freeze_tables_id = "freeze.tables"

abbrev pub freeze_limits_id : String
freeze_limits_id = "freeze.limits"

abbrev pub freeze_database_columns : List String
freeze_database_columns =
    "datname" ∷ "datfrozenxid" ∷ "xid_age" ∷ "datminmxid" ∷ "mxid_age" ∷ "datallowconn" ∷ []

abbrev pub freeze_table_columns : List String
freeze_table_columns =
    "relation" ∷ "relkind" ∷ "relfrozenxid" ∷ "xid_age" ∷ "relminmxid" ∷ "mxid_age"
    ∷ "heap_bytes_est" ∷ []

abbrev pub freeze_limit_columns : List String
freeze_limit_columns =
    "autovacuum_freeze_max_age" ∷ "autovacuum_multixact_freeze_max_age" ∷ "vacuum_freeze_table_age"
    ∷ []

abbrev pub xid_stop_age : ℤ
xid_stop_age = pos (2 ^ 31 - 1 - 1_000_000)

abbrev pub mxid_stop_age : ℤ
mxid_stop_age = pos (2 ^ 31 - 1 - 100)

pub record FrozenDatabase : Type 0 where
  pub datname : String
  pub dat_frozen_xid : ℕ
  pub xid_age : ℤ
  pub dat_min_mxid : ℕ
  pub mxid_age : ℤ
  pub allow_conn : Bool

unfoldable pub database_row : {F : Type 0} → FrozenDatabase → List (Value F)
database_row d =
    str d.datname
    ∷ int (pos d.dat_frozen_xid)
    ∷ int d.xid_age
    ∷ int (pos d.dat_min_mxid)
    ∷ int d.mxid_age
    ∷ bool d.allow_conn
    ∷ []

pub record FreezeDatabases : Type 0 where
  pub status : Status
  pub reason : String
  pub rows : List FrozenDatabase

pub record FrozenTable : Type 0 where
  pub relation : String
  pub relkind : String
  pub rel_frozen_xid : ℕ
  pub xid_age : ℤ
  pub rel_min_mxid : ℕ
  pub mxid_age : ℤ
  pub heap_bytes_est : ℤ

unfoldable pub table_row : {F : Type 0} → FrozenTable → List (Value F)
table_row t =
    str t.relation
    ∷ str t.relkind
    ∷ int (pos t.rel_frozen_xid)
    ∷ int t.xid_age
    ∷ int (pos t.rel_min_mxid)
    ∷ int t.mxid_age
    ∷ int t.heap_bytes_est
    ∷ []

pub record FreezeTables : Type 0 where
  pub status : Status
  pub reason : String
  pub rows : List FrozenTable

pub record FreezeLimit : Type 0 where
  pub freeze_max_age : ℤ
  pub multi_freeze_max_age : ℤ
  pub freeze_table_age : ℤ

unfoldable pub limit_row : {F : Type 0} → FreezeLimit → List (Value F)
limit_row l = int l.freeze_max_age ∷ int l.multi_freeze_max_age ∷ int l.freeze_table_age ∷ []

pub record FreezeLimits : Type 0 where
  pub status : Status
  pub reason : String
  pub rows : List FreezeLimit
