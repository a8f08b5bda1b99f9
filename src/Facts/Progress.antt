-- ===== src/Facts/Progress.antt =====
-- internal/facts/progress.go
use kbdiag.Prelude.{ℤ, pos, String, Option, List, [], ◌∷◌, count, is_some, not}
use kbdiag.Facts.Base.{
  Status, Redaction, Value, int, str, opt_int, opt_str, opt_float, redactions,
  reason_insufficient_privilege,
}

abbrev pub progress_list_id : String
progress_list_id = "progress.list"

abbrev pub progress_checkpoint_id : String
progress_checkpoint_id = "progress.checkpoint"

abbrev pub progress_columns : List String
progress_columns =
    "pid" ∷ "command" ∷ "datname" ∷ "relation" ∷ "phase" ∷ "done" ∷ "total" ∷ "unit" ∷ "running_s"
    ∷ "waiting_lockers" ∷ []

pub record Operation (F : Type 0) : Type 0 where
  pub pid : ℤ
  pub command : String
  pub datname : Option String
  pub relation : Option String
  pub phase : Option String
  pub done : Option ℤ
  pub total : Option ℤ
  pub unit : String
  pub running_s : Option F
  pub waiting_lockers : Option ℤ

unfoldable pub row : {F : Type 0} → Operation F → List (Value F)
row p =
    int p.pid
    ∷ str p.command
    ∷ opt_str p.datname
    ∷ opt_str p.relation
    ∷ opt_str p.phase
    ∷ opt_int p.done
    ∷ opt_int p.total
    ∷ str p.unit
    ∷ opt_float p.running_s
    ∷ opt_int p.waiting_lockers
    ∷ []

pub record ProgressList (F : Type 0) : Type 0 where
  pub status : Status
  pub reason : String
  pub rows : List (Operation F)

-- ProgressList.Redacted
unfoldable pub redacted : {F : Type 0} → ProgressList F → String → List Redaction
redacted p id =
    redactions id ("phase" ∷ []) reason_insufficient_privilege
      (pos (count (λ x. not (is_some x.phase)) p.rows))
