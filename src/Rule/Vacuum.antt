-- ===== src/Rule/Vacuum.antt =====
-- internal/rule/vacuum.go
pub mod Laws
pub mod Options
pub mod Threshold
use Prim.Native.Char.{code}
use kbdiag.Prelude.{
  ℤ, pos, ◌==◌, Bool, true, false, String, Option, none, some, List, [], ◌∷◌, ◌&&◌, ◌||◌, not,
  concat, show, str_eq, if◌then◌else◌, is_some,
}
use mathlib.Core.List.{◌++◌ as ◌+++◌}
use kbdiag.Unicode.{Unicode}
use kbdiag.Facts.Base.{Status, Floats, int, str, float}
use kbdiag.Facts.Vacuum.{
  VacuumTable, VacuumTables, VacuumSetting, VacuumSettings, vacuum_tables_id, vacuum_settings_id,
}
use kbdiag.Rule.Base.{
  Level, Verdict, Finding, Next, Result, Seen, quiet, flagged, verify, fix, judged, collected,
  findings_of,
}
use kbdiag.Rule.Names.{has_control, qualified}
use kbdiag.Rule.Names.Booleans.{parse_bool}

-- float32: what the code does with one. A float32 is the float64 of the same value, so that `Floats`
-- compares two of them.
pub record Singles (F : Type 0) : Type 0 where
  pub single : F → F  -- float32(x)
  pub single_int : ℤ → F  -- float32(n)
  pub plus : F → F → F  -- a + b
  pub times : F → F → F  -- a * b
  pub parse : String → Option F  -- strconv.ParseFloat(s, 32); `none` is an error
  pub plain : F → String  -- strconv.FormatFloat(float64(x), 'f', -1, 32)

-- strings.Cut(s, "="); `none` is ok == false
unfoldable pub cut_equals : String → Option (String × String)
cut_equals String.[] = none
cut_equals (String.◌∷◌ c s) =
    let rest = cut_equals s in
    if code c == b'='
    then some ("", s)
    else elim rest [ none ↦ none | some p ↦ some (String.◌∷◌ c p.0, p.1) ]

-- The variables of VacuumThreshold's loop.
pub record Limits (F : Type 0) : Type 0 where
  pub base : F
  pub factor : F
  pub on : Bool

-- A Go value, or the one before when it was not read.
abbrev pub or_else {ℓ} : {A : Type ℓ} → Option A → A → A
or_else none a = a
or_else (some b) a = b

-- vacuumSetting; `none` is setOK == false
unfoldable pub vacuum_setting : {F : Type 0} → VacuumSettings F → Option (VacuumSetting F)
vacuum_setting s = elim s.status [
  | Status.ok ↦ elim s.rows [ [] ↦ none | x ∷ rest ↦ some x ]
  | _ ↦ none
]

-- vacuumSwitch
unfoldable pub vacuum_switch : {F : Type 0} → VacuumSetting F → String
vacuum_switch s = if not (str_eq s.autovacuum "on") then "autovacuum" else "track_counts"

-- set.Autovacuum != "on" || set.TrackCounts != "on"
unfoldable pub switched_off : {F : Type 0} → VacuumSetting F → Bool
switched_off s = not (str_eq s.autovacuum "on") || not (str_eq s.track_counts "on")

-- vacuumDisabled
unfoldable pub vacuum_disabled : {F : Type 0} → VacuumSetting F → Finding F
unfolding vacuum_switch
vacuum_disabled s = record {
  id = "vacuum.disabled";
  level = Level.warn;
  symptom = concat (
      "autovacuum=" ∷ s.autovacuum ∷ ", track_counts=" ∷ s.track_counts
      ∷ ": no table is vacuumed automatically any more (only the anti-wraparound vacuum still runs), so dead tuples pile up"
      ∷ []);
  evidence =
      (record {
        probe_id = vacuum_settings_id;
        fields = ("autovacuum", str s.autovacuum) ∷ ("track_counts", str s.track_counts) ∷ [];
      })
      ∷ [];
  cause = none;
  next =
      fix (concat ("ALTER SYSTEM SET " ∷ vacuum_switch s ∷ " = on" ∷ []))
        "then SELECT sys_reload_conf(); unless it was turned off on purpose"
      ∷ [];
}

module _ {F : Type 0} ⦃u : Unicode⦄ ⦃sg : Singles F⦄ where
  -- One round of VacuumThreshold's loop, of an option that was cut.
  unfoldable pub set_option : Limits F → String → String → Limits F
  set_option l k v =
      if str_eq k "autovacuum_enabled"
      then record l { on = or_else (parse_bool v) l.on }
      else if str_eq k "autovacuum_vacuum_threshold"
      then record l { base = or_else (sg.parse v) l.base }
      else if str_eq k "autovacuum_vacuum_scale_factor"
      then record l { factor = or_else (sg.parse v) l.factor }
      else l

  -- An option without an equals sign is passed over.
  abbrev pub set_cut : Limits F → Option (String × String) → Limits F
  set_cut l none = l
  set_cut l (some (k, v)) = set_option l k v

  unfoldable pub read_option : Limits F → String → Limits F
  unfolding cut_equals set_option
  read_option l o = set_cut l (cut_equals o)

  unfoldable pub read_options : Limits F → List String → Limits F
  unfolding read_option
  read_options l [] = l
  read_options l (o ∷ os) = read_options (read_option l o) os

  unfoldable pub default_limits : VacuumSetting F → Limits F
  default_limits s = record {
    base = sg.single_int s.threshold;
    factor = sg.single s.scale_factor;
    on = true;
  }

  -- VacuumThreshold: (threshold, on)
  unfoldable pub vacuum_threshold : VacuumTable F → VacuumSetting F → F × Bool
  unfolding read_options default_limits
  vacuum_threshold t s =
      let l = read_options (default_limits s) t.reloptions in
      (sg.plus l.base (sg.times l.factor t.reltuples), l.on)

  -- The symptom of vacuum.table_disabled.
  disabled_symptom : String → ℤ → F → String
  disabled_symptom rel dead threshold = concat (
      "table "
      ∷ rel
      ∷ " has "
      ∷ show dead
      ∷ " dead tuples, past its autovacuum threshold "
      ∷ sg.plain threshold
      ∷ ", but autovacuum is off for it (autovacuum_enabled=off): nothing will clean it"
      ∷ [])

  -- The finding vacuum.table_disabled, which the rules of vacuum and of table both write.
  unfoldable pub table_disabled : String → VacuumTable F → F → List Next → Finding F
  unfolding disabled_symptom
  table_disabled probe t threshold next = record {
    id = "vacuum.table_disabled";
    level = Level.warn;
    symptom =
        disabled_symptom (concat (t.schemaname ∷ "." ∷ t.relname ∷ [])) t.n_dead_tup threshold;
    evidence =
        (record {
          probe_id = probe;
          fields =
              ("schemaname", str t.schemaname)
              ∷ ("relname", str t.relname)
              ∷ ("n_dead_tup", int t.n_dead_tup)
              ∷ ("reltuples", float t.reltuples)
              ∷ ("threshold", float threshold)
              ∷ [];
        })
        ∷ [];
    cause = none;
    next = next;
  }

  -- fix of Vacuum's loop
  vacuum_fix : VacuumTable F → String → Next
  vacuum_fix t db =
      let where_text =
        if has_control db
        then "connected to this database"
        else concat ("connected to database " ∷ db ∷ []) in
      if has_control (concat (t.schemaname ∷ "." ∷ t.relname ∷ []))
      then verify "kbdiag vacuum --json"
          "the table name has control characters and the text shows it escaped: take the raw name from the JSON before running VACUUM"
      else fix (concat ("VACUUM " ∷ qualified t.schemaname t.relname ∷ [])) (
          concat (
            where_text
            ∷ "; turn autovacuum back on with ALTER TABLE ... RESET (autovacuum_enabled) unless it was turned off on purpose"
            ∷ []))

  module _ ⦃fl : Floats F⦄ where
    -- on || float32(x.NDeadTup) <= threshold
    abbrev pub is_cleaned : F × Bool → VacuumTable F → Bool
    is_cleaned j x = j.1 || fl.le (sg.single_int x.n_dead_tup) j.0

    -- One round of Vacuum's loop.
    unfoldable pub judge_table : String → VacuumSetting F → VacuumTable F → Seen F
    unfolding table_disabled vacuum_fix
    judge_table db set x =
        let j = vacuum_threshold x set in
        if is_cleaned j x
        then quiet
        else flagged (
            table_disabled vacuum_tables_id x j.0 (
              vacuum_fix x db
              ∷ verify "kbdiag txn"
                  "if dead tuples remain after VACUUM: the oldest transaction holding back the horizon"
              ∷ verify "kbdiag slots" "or a replication slot's xmin"
              ∷ []))

    -- The findings of Vacuum, of the settings that were read.
    unfoldable pub vacuum_findings :
        Bool → String → VacuumTables F → Option (VacuumSetting F) → List (Finding F)
    unfolding judge_table vacuum_disabled switched_off
    vacuum_findings judge db t none = []
    vacuum_findings judge db t (some set) =
        (if switched_off set then vacuum_disabled set ∷ [] else [])
        +++ (if judge then findings_of (judge_table db set) t.rows else [])

    -- Vacuum
    unfoldable pub vacuum : VacuumTables F → VacuumSettings F → String → String → Result F
    unfolding vacuum_findings
    vacuum t s role db =
        let (judge, unseen) = collected t.status in
        let set = vacuum_setting s in
        if str_eq role "standby"
        then record { verdict = Verdict.ok; findings = [] }
        else judged (vacuum_findings judge db t set) (unseen || not (is_some set))
