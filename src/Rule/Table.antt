-- ===== src/Rule/Table.antt =====
-- internal/rule/table.go
pub mod Laws
pub mod Agreement
use kbdiag.Prelude.{
  ℤ, pos, Bool, true, false, String, Option, none, some, List, [], ◌∷◌, ◌&&◌, ◌||◌, not, is_some,
  concat, str_eq, if◌then◌else◌,
}
use mathlib.Core.List.{◌++◌ as ◌+++◌}
use kbdiag.Unicode.{Unicode}
use kbdiag.Facts.Base.{Floats, int, str, opt_int}
use kbdiag.Facts.Freeze.{FreezeLimits}
use kbdiag.Facts.Table.{TableInfo, TableInfos, TableStat, TableStats, table_info_id, table_stats_id}
use kbdiag.Facts.Vacuum.{VacuumTable, VacuumSetting, VacuumSettings}
use kbdiag.Rule.Base.{
  Finding, Next, Result, Seen, hidden, quiet, flagged, verify, fix, judged, collected, is_hidden,
}
use kbdiag.Rule.Names.{has_control, qualified}
use kbdiag.Rule.Freeze.{age_finding, freeze_limit}
use kbdiag.Rule.Vacuum.{
  Singles, vacuum_setting, vacuum_disabled, switched_off, table_disabled, vacuum_threshold,
}

-- mxid
abbrev pub mxid_or_zero : Option ℤ → ℤ
mxid_or_zero none = pos 0
mxid_or_zero (some m) = m

module _ {F : Type 0} where
  -- tableFix
  unfoldable pub table_fix : String → TableInfo F → String → Next
  table_fix sql t note =
      if has_control (concat (t.schemaname ∷ t.relname ∷ []))
      then fix (concat (sql ∷ " <table>" ∷ [])) (
          concat (
            "the name has control characters and is shown escaped: use it as you gave it; " ∷ note
            ∷ []))
      else fix (concat (sql ∷ " " ∷ qualified t.schemaname t.relname ∷ [])) note

  -- The finding of a table's age, of the xid age that was read.
  unfoldable pub aged : FreezeLimits → String → TableInfo F → ℤ → Seen F
  unfolding table_fix
  aged l db t xid =
      let seen =
        age_finding "freeze.table_age" (concat ("table " ∷ t.schemaname ∷ "." ∷ t.relname ∷ [])) xid
          (mxid_or_zero t.mxid_age) (freeze_limit l) in
      elim seen [
        | hidden ↦ hidden
        | quiet ↦ quiet
        | flagged f ↦ flagged (record f {
          evidence =
              (record {
                probe_id = table_info_id;
                fields =
                    ("schemaname", str t.schemaname)
                    ∷ ("relname", str t.relname)
                    ∷ ("xid_age", int xid)
                    ∷ ("mxid_age", opt_int t.mxid_age)
                    ∷ [];
              })
              ∷ [];
          next =
              verify "kbdiag txn" "the oldest transaction or 2PC holding back freezing"
              ∷ verify "kbdiag slots" "a replication slot's xmin holds it back too"
              ∷ table_fix "VACUUM (FREEZE, VERBOSE)" t
                  (concat ("on the primary, connected to database " ∷ db ∷ []))
              ∷ [];
        })
      ]

  -- A table without a frozen xid has no age to judge.
  unfoldable pub judge_age : FreezeLimits → String → TableInfo F → Seen F
  unfolding aged
  judge_age l db t = elim t.xid_age [ none ↦ quiet | some xid ↦ aged l db t xid ]

  abbrev pub found : Seen F → List (Finding F)
  found (flagged f) = f ∷ []
  found _ = []

  -- vt
  unfoldable pub vacuum_row : TableInfo F → TableStat F → VacuumTable F
  vacuum_row t s = record {
    schemaname = t.schemaname;
    relname = t.relname;
    n_live_tup = pos 0;
    n_dead_tup = s.n_dead_tup;
    reltuples = t.reltuples;
    reloptions = t.reloptions;
    last_vacuum_age_s = none;
    last_autovacuum_age_s = none;
    vacuum_count = pos 0;
    autovacuum_count = pos 0;
  }

  module _ ⦃u : Unicode⦄ ⦃sg : Singles F⦄ ⦃fl : Floats F⦄ where
    -- !on && float32(vt.NDeadTup) > threshold
    abbrev pub is_uncleaned : F × Bool → VacuumTable F → Bool
    is_uncleaned j x = not j.1 && fl.lt j.0 (sg.single_int x.n_dead_tup)

    unfoldable pub judge_dead :
        String → TableInfo F → VacuumSetting F → List (TableStat F) → List (Finding F)
    unfolding vacuum_row table_fix
    judge_dead db t set [] = []
    judge_dead db t set (s ∷ rest) =
        let vt = vacuum_row t s in
        let j = vacuum_threshold vt set in
        if is_uncleaned j vt
        then table_disabled table_stats_id vt j.0 (
            table_fix "VACUUM" t (
              concat (
                "connected to database " ∷ db
                ∷ "; turn autovacuum back on with ALTER TABLE ... RESET (autovacuum_enabled) unless it was turned off on purpose"
                ∷ []))
            ∷ [])
          ∷ []
        else []

    -- The findings of a primary's settings and statistics.
    unfoldable pub primary_findings :
        Bool → String → TableInfo F → TableStats F → Option (VacuumSetting F) → List (Finding F)
    unfolding judge_dead
    primary_findings sj db t s none = []
    primary_findings sj db t s (some set) =
        if switched_off set
        then vacuum_disabled set ∷ []
        else if sj
        then judge_dead db t set s.rows
        else []

    -- Table, of the first row of table.info.
    unfoldable pub judge_info :
        TableInfo F
        → Bool
        → TableStats F
        → FreezeLimits
        → VacuumSettings F
        → String
        → String
        → Result F
    unfolding judge_age primary_findings
    judge_info t unseen s l v role db =
        let age = judge_age l db t in
        let (sj, su) = collected s.status in
        let set = vacuum_setting v in
        if str_eq role "standby"
        then judged (found age) (unseen || is_hidden age)
        else judged (found age +++ primary_findings sj db t s set)
            (unseen || is_hidden age || su || not (is_some set))

    -- Table
    unfoldable pub table :
        TableInfos F → TableStats F → FreezeLimits → VacuumSettings F → String → String → Result F
    unfolding judge_info
    table i s l v role db =
        let (judge, unseen) = collected i.status in
        if not judge
        then judged [] true
        else elim i.rows [ [] ↦ judged [] true | t ∷ rest ↦ judge_info t unseen s l v role db ]
