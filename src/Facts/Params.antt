-- ===== src/Facts/Params.antt =====
-- internal/facts/params.go
use kbdiag.Prelude.{ℤ, pos, String, Bool, Option, List, [], ◌∷◌, ◌&&◌, count, not, is_some, str_eq}
use kbdiag.Facts.Base.{
  Status, Redaction, Value, str, bool, opt_int, opt_str, redactions, reason_insufficient_privilege,
}

abbrev pub params_changed_id : String
params_changed_id = "params.changed"

abbrev pub param_columns : List String
param_columns =
    "name" ∷ "setting" ∷ "unit" ∷ "source" ∷ "sourcefile" ∷ "sourceline" ∷ "boot_val" ∷ "reset_val"
    ∷ "context" ∷ "pending_restart" ∷ []

pub record Param : Type 0 where
  pub name : String
  pub setting : Option String
  pub unit : Option String
  pub source : String
  pub sourcefile : Option String
  pub sourceline : Option ℤ
  pub boot_val : Option String
  pub reset_val : Option String
  pub context : String
  pub pending_restart : Bool

unfoldable pub row : {F : Type 0} → Param → List (Value F)
row p =
    str p.name
    ∷ opt_str p.setting
    ∷ opt_str p.unit
    ∷ str p.source
    ∷ opt_str p.sourcefile
    ∷ opt_int p.sourceline
    ∷ opt_str p.boot_val
    ∷ opt_str p.reset_val
    ∷ str p.context
    ∷ bool p.pending_restart
    ∷ []

pub record ParamsChanged : Type 0 where
  pub status : Status
  pub reason : String
  pub rows : List Param

unfoldable pub redacted : ParamsChanged → List Redaction
redacted p =
    redactions params_changed_id ("sourcefile" ∷ "sourceline" ∷ []) reason_insufficient_privilege
      (pos (count (λ x. str_eq x.source "configuration file" && not (is_some x.sourcefile)) p.rows))
