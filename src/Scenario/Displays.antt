-- ===== src/Scenario/Displays.antt =====
-- internal/scenario/table.go, vacuum.go, progress.go, checkpoint.go, wal.go and topobjects.go.
pub mod Laws
use kbdiag.Prelude.{
  ℤ, pos, Bool, true, false, String, Option, List, [], ◌∷◌, ◌++◌, ◌||◌, not, map, str_eq,
  if◌then◌else◌,
}
use kbdiag.Unicode.{Unicode}
use kbdiag.Facts.Base as Facts
use kbdiag.Facts.Base.{Status, Floats, Times}
use kbdiag.Facts.Table as FactsTable
use kbdiag.Facts.Table.{
  TableInfo, TableInfos, TableSizes, TableStats, TableIndexes, table_info_id, table_size_id,
  table_stats_id, table_indexes_id, table_info_columns, table_size_columns, table_stats_columns,
  table_index_columns,
}
use kbdiag.Facts.Vacuum as FactsVacuum
use kbdiag.Facts.Vacuum.{VacuumTables, VacuumProgress, VacuumSettings}
use kbdiag.Facts.Freeze as FactsFreeze
use kbdiag.Facts.Freeze.{FreezeLimits}
use kbdiag.Facts.Progress as FactsProgress
use kbdiag.Facts.Progress.{ProgressList, progress_list_id, progress_checkpoint_id, progress_columns}
use kbdiag.Facts.Checkpoint as FactsCheckpoint
use kbdiag.Facts.Checkpoint.{CheckpointStats, CheckpointLast, CheckpointSettings}
use kbdiag.Facts.Wal as FactsWal
use kbdiag.Facts.Wal.{WalPosition, wal_position_id, wal_position_columns}
use kbdiag.Facts.Space as FactsSpace
use kbdiag.Facts.Space.{SpaceWal, space_wal_id, wal_columns}
use kbdiag.Facts.Slot as FactsSlot
use kbdiag.Facts.Slot.{SlotList, slot_list_id, slot_columns}
use kbdiag.Facts.Archive.{ArchiveReady, queue_row, archive_ready_id, archive_ready_columns}
use kbdiag.Facts.Object as FactsObject
use kbdiag.Facts.Object.{
  ObjectTables, ObjectIndexes, object_tables_id, object_indexes_id, object_table_columns,
  object_index_columns,
}
use kbdiag.Rule.Base.{Verdict, Result}
use kbdiag.Rule.Inst.{is_nil}
use kbdiag.Rule.Space.{display}
use kbdiag.Rule.Table as RuleTable
use kbdiag.Rule.Vacuum as RuleVacuum
use kbdiag.Rule.Vacuum.{Singles}
use kbdiag.Report.{Report, new, add_probe, add_redacted}

-- TableKinds[k]
unfoldable pub is_table_kind : String → Bool
is_table_kind k = str_eq k "r" || str_eq k "p" || str_eq k "m" || str_eq k "t"

-- TableAfter
unfoldable pub table_after : {F : Type 0} → TableInfos F → Status × String
table_after i = elim i.status [
  | Status.ok ↦ (Status.not_applicable, "no such table")
  | _ ↦ (Status.skipped, "table.info was not collected")
]

-- len(i.Rows) == 1 && TableKinds[i.Rows[0].Relkind]
abbrev pub is_one_table : {F : Type 0} → List (TableInfo F) → Bool
is_one_table [] = false
is_one_table (t ∷ []) = is_table_kind t.relkind
is_one_table (t ∷ s ∷ rest) = false

-- found of Table
unfoldable pub table_found : {F : Type 0} → TableInfos F → Bool
unfolding is_table_kind
table_found i = elim i.status [ Status.ok ↦ is_one_table i.rows | _ ↦ true ]

module _ {F T : Type 0} ⦃fl : Floats F⦄ ⦃tm : Times T⦄ where
  unfoldable pub progress : Facts.Context T → ProgressList F → ProgressList F → Report F
  progress c p cp =
      let concealed = not (
        is_nil (
          FactsProgress.redacted p progress_list_id
          ++ FactsProgress.redacted cp progress_checkpoint_id)) in
      add_redacted (FactsProgress.redacted cp progress_checkpoint_id) (
        add_redacted (FactsProgress.redacted p progress_list_id) (
          add_probe progress_checkpoint_id cp.status cp.reason progress_columns
            (map FactsProgress.row cp.rows) (pos 0)
            (add_probe progress_list_id p.status p.reason progress_columns
              (map FactsProgress.row p.rows) (pos 0)
              (new "progress" c (display concealed (p.status ∷ cp.status ∷ []))))))

  unfoldable pub checkpoint :
      Facts.Context T → CheckpointStats F T → CheckpointLast F T → CheckpointSettings F → Report F
  checkpoint c s l set =
      add_probe FactsCheckpoint.checkpoint_settings_id set.status set.reason
        FactsCheckpoint.checkpoint_settings_columns (map FactsCheckpoint.setting_row set.rows)
        (pos 0)
        (add_probe FactsCheckpoint.checkpoint_stats_id s.status s.reason
          FactsCheckpoint.checkpoint_stats_columns (map FactsCheckpoint.writer_row s.rows) (pos 0)
          (add_probe FactsCheckpoint.checkpoint_last_id l.status l.reason
            FactsCheckpoint.checkpoint_last_columns (map FactsCheckpoint.last_row l.rows) (pos 0)
            (new "checkpoint" c (display false (s.status ∷ l.status ∷ set.status ∷ [])))))

  unfoldable pub wal :
      Facts.Context T → WalPosition → SpaceWal → SlotList → ArchiveReady F → Report F
  wal c p w s a =
      add_probe archive_ready_id a.status a.reason archive_ready_columns (map queue_row a.rows)
        (pos 0)
        (add_probe slot_list_id s.status s.reason slot_columns (map FactsSlot.row s.rows) (pos 0) (
          add_probe space_wal_id w.status w.reason wal_columns (map FactsSpace.wal_row w.rows)
            (pos 0)
            (add_probe wal_position_id p.status p.reason wal_position_columns
              (map FactsWal.row p.rows) (pos 0)
              (new "wal" c (display false (p.status ∷ w.status ∷ s.status ∷ a.status ∷ []))))))

  unfoldable pub top_objects : Facts.Context T → ObjectTables → ObjectIndexes → ℤ → Report F
  top_objects c t i limit =
      add_probe object_indexes_id i.status i.reason object_index_columns
        (map FactsObject.index_row i.rows) limit
        (add_probe object_tables_id t.status t.reason object_table_columns
          (map FactsObject.table_row t.rows) limit
          (new "top-objects" c (display false (t.status ∷ i.status ∷ []))))

module _ {F T : Type 0} ⦃fl : Floats F⦄ ⦃tm : Times T⦄ ⦃u : Unicode⦄ ⦃sg : Singles F⦄ where
  unfoldable pub vacuum :
      Facts.Context T → VacuumTables F → VacuumProgress F → VacuumSettings F → ℤ → Report F
  vacuum c t p s limit = add_redacted (FactsVacuum.progress_redacted p) (
      add_probe FactsVacuum.vacuum_tables_id t.status t.reason FactsVacuum.vacuum_table_columns
        (map FactsVacuum.table_row t.rows) limit
        (add_probe FactsVacuum.vacuum_progress_id p.status p.reason
          FactsVacuum.vacuum_progress_columns (map FactsVacuum.run_row p.rows) (pos 0)
          (add_probe FactsVacuum.vacuum_settings_id s.status s.reason
            FactsVacuum.vacuum_setting_columns (map FactsVacuum.setting_row s.rows) (pos 0)
            (new "vacuum" c (RuleVacuum.vacuum t s c.role c.database)))))

  -- r of Table
  unfoldable pub table_result :
      Facts.Context T → TableInfos F → TableStats F → FreezeLimits → VacuumSettings F → Result F
  unfolding table_found
  table_result c i s l v =
      if table_found i
      then RuleTable.table i s l v c.role c.database
      else record { verdict = Verdict.unknown; findings = [] }

  -- Table
  unfoldable pub table :
      Facts.Context T
      → TableInfos F
      → TableSizes
      → TableStats F
      → TableIndexes
      → FreezeLimits
      → VacuumSettings F
      → Report F × Bool
  unfolding table_result
  table c i z s x l v =
      let r =
        add_probe FactsVacuum.vacuum_settings_id v.status v.reason
          FactsVacuum.vacuum_setting_columns (map FactsVacuum.setting_row v.rows) (pos 0)
          (add_probe FactsFreeze.freeze_limits_id l.status l.reason FactsFreeze.freeze_limit_columns
            (map FactsFreeze.limit_row l.rows) (pos 0)
            (add_probe table_indexes_id x.status x.reason table_index_columns
              (map FactsTable.index_row x.rows) (pos 0)
              (add_probe table_stats_id s.status s.reason table_stats_columns
                (map FactsTable.stat_row s.rows) (pos 0)
                (add_probe table_size_id z.status z.reason table_size_columns
                  (map FactsTable.size_row z.rows) (pos 0)
                  (add_probe table_info_id i.status i.reason table_info_columns
                    (map FactsTable.info_row i.rows) (pos 0)
                    (new "table" c (table_result c i s l v))))))) in
      (r, table_found i)
