-- ===== src/Rule/Params.antt =====
-- internal/rule/params.go. filepath.Base is a parameter, `base`.
pub mod Laws
use kbdiag.Prelude.{
  ℤ, Bool, true, false, String, Option, none, some, List, [], ◌∷◌, ◌&&◌, ◌||◌, not, concat, show,
  str_eq, if◌then◌else◌,
}
use kbdiag.Facts.Base.{str, opt_str, opt_int}
use kbdiag.Facts.Params as Params
use kbdiag.Facts.Params.{Param, ParamsChanged, params_changed_id}
use kbdiag.Rule.Base.{
  Level, Finding, Result, Next, Seen, quiet, flagged, fix, judged, collected, findings_of,
}
use kbdiag.Rule.Inst.{is_nil}
use kbdiag.Rule.Names.{replace_char}
use kbdiag.Rule.Txn.{or_dash}

module _ (base : String → String) where
  -- where the parameter was changed, in brackets
  unfoldable pub place : Param → String
  place x = elim x.sourcefile [
    | some file ↦ concat (
        " ("
        ∷ base file
        ∷ (elim x.sourceline [ none ↦ "" | some n ↦ concat (":" ∷ show n ∷ []) ])
        ∷ ")"
        ∷ [])
    | none ↦ if str_eq x.source "default" then "" else concat (" (" ∷ x.source ∷ ")" ∷ [])
  ]

  unfoldable pub running : Param → String
  running x = elim x.unit [
    | none ↦ or_dash x.setting
    | some u ↦
        if str_eq u "" then or_dash x.setting else concat (or_dash x.setting ∷ " (" ∷ u ∷ ")" ∷ [])
  ]

  unfoldable pub restart_next : Param → List Next
  restart_next x =
      (record {
        kind = "verify";
        command = "";
        sql = concat (
            "select sourcefile, sourceline, setting, applied, error from sys_file_settings where name = '"
            ∷ replace_char b'\'' "''" x.name
            ∷ "'"
            ∷ []);
        note = "the value waiting in the file (needs a superuser)";
      })
      ∷ fix
          (elim x.setting [
            | none ↦ ""
            | some v ↦
                concat
                  ("ALTER SYSTEM SET " ∷ x.name ∷ " = '" ∷ replace_char b'\'' "''" v ∷ "'" ∷ [])
          ])
          "if the change was not meant: writes the running value back; after SELECT sys_reload_conf() the flag clears (a reload clears it only when the file's value equals the running one, so ALTER SYSTEM RESET alone leaves it until a restart). Otherwise plan the restart"
      ∷ []

  unfoldable pub param_finding : {F : Type 0} → Param → Finding F
  param_finding x = record {
    id = "params.pending_restart";
    level = Level.warn;
    symptom = concat (
        "parameter "
        ∷ x.name
        ∷ " was changed"
        ∷ place x
        ∷ " but the instance still runs with "
        ∷ running x
        ∷ ": the new value takes effect only after a restart, the next one included"
        ∷ []);
    evidence =
        (record {
          probe_id = params_changed_id;
          fields =
              ("name", str x.name)
              ∷ ("setting", opt_str x.setting)
              ∷ ("sourcefile", opt_str x.sourcefile)
              ∷ ("sourceline", opt_int x.sourceline)
              ∷ ("context", str x.context)
              ∷ [];
        })
        ∷ [];
    cause = none;
    next = restart_next x;
  }

  -- One round of the loop over the rows.
  unfoldable pub judge_param : {F : Type 0} → Param → Seen F
  judge_param x = if not x.pending_restart then quiet else flagged (param_finding x)

  -- Params
  unfoldable pub params : {F : Type 0} → ParamsChanged → Result F
  params p =
      let (judge, unseen) = collected p.status in
      if not judge
      then judged [] unseen
      else judged (findings_of judge_param p.rows) (not (is_nil (Params.redacted p)))
