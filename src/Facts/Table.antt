-- ===== src/Facts/Table.antt =====
-- internal/facts/table.go. A nil slice and an empty one are both [].
use kbdiag.Prelude.{ℤ, String, Bool, Option, List, [], ◌∷◌}
use kbdiag.Facts.Base.{Status, Value, int, str, bool, float, strs, opt_int, opt_float}

abbrev pub table_info_id : String
table_info_id = "table.info"

abbrev pub table_size_id : String
table_size_id = "table.size"

abbrev pub table_stats_id : String
table_stats_id = "table.stats"

abbrev pub table_indexes_id : String
table_indexes_id = "table.indexes"

abbrev pub table_info_columns : List String
table_info_columns =
    "oid" ∷ "schemaname" ∷ "relname" ∷ "relkind" ∷ "relpersistence" ∷ "reltuples" ∷ "relpages"
    ∷ "reloptions" ∷ "xid_age" ∷ "mxid_age" ∷ []

abbrev pub table_size_columns : List String
table_size_columns = "total_bytes" ∷ "table_bytes" ∷ "index_bytes" ∷ "toast_bytes" ∷ []

abbrev pub table_stats_columns : List String
table_stats_columns =
    "n_live_tup" ∷ "n_dead_tup" ∷ "n_mod_since_analyze" ∷ "last_vacuum_age_s"
    ∷ "last_autovacuum_age_s" ∷ "last_analyze_age_s" ∷ "last_autoanalyze_age_s" ∷ "vacuum_count"
    ∷ "autovacuum_count" ∷ "analyze_count" ∷ "autoanalyze_count" ∷ "seq_scan" ∷ "seq_tup_read"
    ∷ "idx_scan" ∷ "idx_tup_fetch" ∷ "n_tup_ins" ∷ "n_tup_upd" ∷ "n_tup_del" ∷ "n_tup_hot_upd"
    ∷ "heap_blks_read" ∷ "heap_blks_hit" ∷ "idx_blks_read" ∷ "idx_blks_hit" ∷ []

abbrev pub table_index_columns : List String
table_index_columns =
    "indexrelname" ∷ "definition" ∷ "bytes" ∷ "is_unique" ∷ "is_primary" ∷ "is_valid" ∷ "idx_scan"
    ∷ []

-- `reltuples` is a float32: the float64 of the same value.
pub record TableInfo (F : Type 0) : Type 0 where
  pub oid : ℤ
  pub schemaname : String
  pub relname : String
  pub relkind : String
  pub relpersistence : String
  pub reltuples : F
  pub relpages : ℤ
  pub reloptions : List String
  pub xid_age : Option ℤ
  pub mxid_age : Option ℤ

unfoldable pub info_row : {F : Type 0} → TableInfo F → List (Value F)
info_row o =
    int o.oid
    ∷ str o.schemaname
    ∷ str o.relname
    ∷ str o.relkind
    ∷ str o.relpersistence
    ∷ float o.reltuples
    ∷ int o.relpages
    ∷ strs o.reloptions
    ∷ opt_int o.xid_age
    ∷ opt_int o.mxid_age
    ∷ []

pub record TableInfos (F : Type 0) : Type 0 where
  pub status : Status
  pub reason : String
  pub rows : List (TableInfo F)

pub record TableSize : Type 0 where
  pub total_bytes : ℤ
  pub table_bytes : ℤ
  pub index_bytes : ℤ
  pub toast_bytes : Option ℤ

unfoldable pub size_row : {F : Type 0} → TableSize → List (Value F)
size_row t = int t.total_bytes ∷ int t.table_bytes ∷ int t.index_bytes ∷ opt_int t.toast_bytes ∷ []

pub record TableSizes : Type 0 where
  pub status : Status
  pub reason : String
  pub rows : List TableSize

pub record TableStat (F : Type 0) : Type 0 where
  pub n_live_tup : ℤ
  pub n_dead_tup : ℤ
  pub n_mod_since_analyze : ℤ
  pub last_vacuum_age_s : Option F
  pub last_autovacuum_age_s : Option F
  pub last_analyze_age_s : Option F
  pub last_autoanalyze_age_s : Option F
  pub vacuum_count : ℤ
  pub autovacuum_count : ℤ
  pub analyze_count : ℤ
  pub autoanalyze_n : ℤ
  pub seq_scan : ℤ
  pub seq_tup_read : ℤ
  pub idx_scan : Option ℤ
  pub idx_tup_fetch : Option ℤ
  pub n_tup_ins : ℤ
  pub n_tup_upd : ℤ
  pub n_tup_del : ℤ
  pub n_tup_hot_upd : ℤ
  pub heap_blks_read : Option ℤ
  pub heap_blks_hit : Option ℤ
  pub idx_blks_read : Option ℤ
  pub idx_blks_hit : Option ℤ

unfoldable pub stat_row : {F : Type 0} → TableStat F → List (Value F)
stat_row n =
    int n.n_live_tup
    ∷ int n.n_dead_tup
    ∷ int n.n_mod_since_analyze
    ∷ opt_float n.last_vacuum_age_s
    ∷ opt_float n.last_autovacuum_age_s
    ∷ opt_float n.last_analyze_age_s
    ∷ opt_float n.last_autoanalyze_age_s
    ∷ int n.vacuum_count
    ∷ int n.autovacuum_count
    ∷ int n.analyze_count
    ∷ int n.autoanalyze_n
    ∷ int n.seq_scan
    ∷ int n.seq_tup_read
    ∷ opt_int n.idx_scan
    ∷ opt_int n.idx_tup_fetch
    ∷ int n.n_tup_ins
    ∷ int n.n_tup_upd
    ∷ int n.n_tup_del
    ∷ int n.n_tup_hot_upd
    ∷ opt_int n.heap_blks_read
    ∷ opt_int n.heap_blks_hit
    ∷ opt_int n.idx_blks_read
    ∷ opt_int n.idx_blks_hit
    ∷ []

pub record TableStats (F : Type 0) : Type 0 where
  pub status : Status
  pub reason : String
  pub rows : List (TableStat F)

pub record TableIndex : Type 0 where
  pub name : String
  pub definition : String
  pub bytes : Option ℤ
  pub is_unique : Bool
  pub is_primary : Bool
  pub is_valid : Bool
  pub idx_scan : Option ℤ

unfoldable pub index_row : {F : Type 0} → TableIndex → List (Value F)
index_row n =
    str n.name
    ∷ str n.definition
    ∷ opt_int n.bytes
    ∷ bool n.is_unique
    ∷ bool n.is_primary
    ∷ bool n.is_valid
    ∷ opt_int n.idx_scan
    ∷ []

pub record TableIndexes : Type 0 where
  pub status : Status
  pub reason : String
  pub rows : List TableIndex
