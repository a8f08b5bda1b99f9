-- ===== src/Scenario/Displays/Laws.antt =====
-- internal/scenario/table.go: what `kbdiag table` says of a name, found or not.
use kbdiag.Prelude.{
  true, false, String, List, [], ◌∷◌, ◌≡◌, refl, inl, inr, Bool-cases, if◌then◌else◌,
}
use kbdiag.Unicode.{Unicode}
use kbdiag.Facts.Base as Facts
use kbdiag.Facts.Base.{Status, Floats, Times}
use kbdiag.Facts.Table.{TableInfo, TableInfos, TableSizes, TableStats, TableIndexes}
use kbdiag.Facts.Vacuum.{VacuumSettings}
use kbdiag.Facts.Freeze.{FreezeLimits}
use kbdiag.Rule.Base.{Verdict, collected}
use kbdiag.Rule.Table as RuleTable
use kbdiag.Rule.Vacuum.{Singles}
use kbdiag.Rule.Verdicts.{verdict_of_levels}
use kbdiag.Report.{new, add_probe}
use kbdiag.Scenario.Displays.{is_table_kind, table_found, table_result, table}

module _ {F T : Type 0} ⦃fl : Floats F⦄ ⦃tm : Times T⦄ ⦃u : Unicode⦄ ⦃sg : Singles F⦄ where
  -- What `kbdiag table` says of the name.
  abbrev pub name_verdict :
      Facts.Context T
      → TableInfos F
      → TableStats F
      → FreezeLimits
      → VacuumSettings F
      → Status
      → List (TableInfo F)
      → Verdict
  name_verdict c i s l v Status.ok (t ∷ []) =
      if is_table_kind t.relkind
      then (RuleTable.judge_info t false s l v c.role c.database).verdict
      else Verdict.unknown
  name_verdict c i s l v _ rows = Verdict.unknown

  table_result-verdict :
      (c : Facts.Context T) (s : TableStats F) (l : FreezeLimits) (v : VacuumSettings F)
      (st : Status) (why : String) (rows : List (TableInfo F))
      → let i : TableInfos F = record { status = st; reason = why; rows = rows } in
        (table_result c i s l v).verdict ≡ name_verdict c i s l v st rows
  unfolding table_result table_found RuleTable.table collected
  table_result-verdict c s l v Status.ok why [] = refl
  table_result-verdict c s l v Status.ok why (t ∷ []) =
      elim (Bool-cases (is_table_kind t.relkind)) [ inl e ↦ rw e refl | inr e ↦ rw e refl ]
  table_result-verdict c s l v Status.ok why (t ∷ more ∷ rest) = refl
  table_result-verdict c s l v Status.skipped why rows = verdict_of_levels [] true
  table_result-verdict c s l v Status.error why rows = verdict_of_levels [] true
  table_result-verdict c s l v Status.not_applicable why rows = verdict_of_levels [] true

  -- `kbdiag table` judges the row only when table.info was collected and gave exactly one row of a
  -- kind that is a table; in every other case (not collected, no such table, several, an index or a
  -- view) it says UNKNOWN.
  pub table-verdict :
      (c : Facts.Context T) (i : TableInfos F) (z : TableSizes) (s : TableStats F)
      (x : TableIndexes) (l : FreezeLimits) (v : VacuumSettings F)
      → (table c i z s x l v).0.verdict ≡ name_verdict c i s l v i.status i.rows
  unfolding table new add_probe
  table-verdict c i z s x l v = table_result-verdict c s l v i.status i.reason i.rows
