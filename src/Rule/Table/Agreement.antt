-- ===== src/Rule/Table/Agreement.antt =====
-- internal/rule/table.go and vacuum.go: the two commands on the same table.
use kbdiag.Prelude.{[], ◌∷◌, not, ◌≡◌}
use kbdiag.Unicode.{Unicode}
use kbdiag.Facts.Base.{Status, Floats}
use kbdiag.Facts.Freeze.{FreezeLimits}
use kbdiag.Facts.Table.{TableInfo, TableInfos, TableStat, TableStats}
use kbdiag.Facts.Vacuum.{VacuumSetting, VacuumSettings, VacuumTable, VacuumTables}
use kbdiag.Rule.Vacuum.{Singles, vacuum_threshold}
use kbdiag.Rule.Table.{vacuum_row}

module _ {F : Type 0} ⦃u : Unicode⦄ ⦃sg : Singles F⦄ ⦃fl : Floats F⦄ where
  -- The facts of one table, as each of the two commands reads them.
  abbrev pub one_info : TableInfo F → TableInfos F
  one_info t = record { status = Status.ok; reason = ""; rows = t ∷ [] }

  abbrev pub one_stat : TableStat F → TableStats F
  one_stat s = record { status = Status.ok; reason = ""; rows = s ∷ [] }

  abbrev pub one_row : VacuumTable F → VacuumTables F
  one_row x = record { status = Status.ok; reason = ""; rows = x ∷ [] }

  module _ (t : TableInfo F) (s : TableStat F) (l : FreezeLimits) (v : VacuumSettings F) where
    -- The comparison of the dead tuples with the threshold of these settings, where neither is a NaN.
    abbrev pub IsOrdered : VacuumSetting F → Type 0
    IsOrdered set =
        fl.le (sg.single_int s.n_dead_tup) (vacuum_threshold (vacuum_row t s) set).0
        ≡ not (fl.lt (vacuum_threshold (vacuum_row t s) set).0 (sg.single_int s.n_dead_tup))
