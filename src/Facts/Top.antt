-- ===== src/Facts/Top.antt =====
-- internal/facts/top.go
use kbdiag.Prelude.{ℤ, pos, String, Bool, false, Option, none, some, List, [], ◌∷◌, count, str_eq}
use kbdiag.Facts.Base.{
  Status, Redaction, Value, int, float, opt_int, opt_str, redactions, reason_insufficient_privilege,
}

abbrev pub sql_top_id : String
sql_top_id = "sql.top"

abbrev pub top_columns : List String
top_columns =
    "queryid" ∷ "username" ∷ "datname" ∷ "calls" ∷ "total_exec_s" ∷ "mean_exec_s" ∷ "max_exec_s"
    ∷ "rows" ∷ "shared_blks_hit" ∷ "shared_blks_read" ∷ "temp_blks_written" ∷ "query" ∷ []

pub record Statement (F : Type 0) : Type 0 where
  pub query_id : Option ℤ
  pub username : Option String
  pub datname : Option String
  pub calls : ℤ
  pub total_exec_s : F
  pub mean_exec_s : F
  pub max_exec_s : F
  pub rows : ℤ
  pub shared_blks_hit : ℤ
  pub shared_blks_read : ℤ
  pub temp_blks_written : ℤ
  pub query : Option String

unfoldable pub row : {F : Type 0} → Statement F → List (Value F)
row q =
    opt_int q.query_id
    ∷ opt_str q.username
    ∷ opt_str q.datname
    ∷ int q.calls
    ∷ float q.total_exec_s
    ∷ float q.mean_exec_s
    ∷ float q.max_exec_s
    ∷ int q.rows
    ∷ int q.shared_blks_hit
    ∷ int q.shared_blks_read
    ∷ int q.temp_blks_written
    ∷ opt_str q.query
    ∷ []

-- Statement.Masked
unfoldable pub masked : {F : Type 0} → Statement F → Bool
masked s = elim s.query [ none ↦ false | some q ↦ str_eq q "<insufficient privilege>" ]

pub record SqlTop (F : Type 0) : Type 0 where
  pub status : Status
  pub reason : String
  pub rows : List (Statement F)
  pub track : String

-- SQLTop.Redacted
unfoldable pub redacted : {F : Type 0} → SqlTop F → List Redaction
redacted t =
    redactions sql_top_id ("query" ∷ "queryid" ∷ []) reason_insufficient_privilege
      (pos (count masked t.rows))
