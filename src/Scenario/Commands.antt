-- ===== src/Scenario/Commands.antt =====
-- internal/scenario: the commands that pass their facts to a rule and show every row of them. The
-- text layouts (the Set methods of the report) are not modelled.
pub mod Shown
use kbdiag.Prelude.{ℤ, pos, String, Bool, is_some, ◌||◌, map, select}
use kbdiag.Unicode.{Unicode}
use kbdiag.Facts.Base as Facts
use kbdiag.Facts.Base.{Floats, Times}
use kbdiag.Facts.Session as FactsSession
use kbdiag.Facts.Session.{
  Session, SessionActivity, session_activity_id, session_columns, masked, untracked,
}
use kbdiag.Facts.Txn as FactsTxn
use kbdiag.Facts.Txn.{TxnPrepared, txn_prepared_id, prepared_columns}
use kbdiag.Facts.Wait as FactsWait
use kbdiag.Facts.Wait.{WaitSummary, wait_summary_id, wait_columns}
use kbdiag.Facts.Inst.{
  InstInfo, InstDatabases, InstDownstreams, InstUpstream, InstDisk, info_row, database_row,
  downstream_row, upstream_row, disk_row, info_columns, database_columns, downstreams_columns,
  upstream_columns, disk_columns, inst_info_id, inst_databases_id, inst_downstreams_id,
  inst_upstream_id, inst_disk_id, databases_redacted, downstreams_redacted, upstream_redacted,
}
use kbdiag.Facts.Slot as FactsSlot
use kbdiag.Facts.Slot.{SlotList, slot_list_id, slot_columns}
use kbdiag.Facts.Archive.{
  ArchiveStatus, ArchiveReady, archiver_row, queue_row, archive_status_id, archive_ready_id,
  archive_status_columns, archive_ready_columns,
}
use kbdiag.Facts.Params as FactsParams
use kbdiag.Facts.Params.{ParamsChanged, params_changed_id, param_columns}
use kbdiag.Facts.Repl.{
  ReplDownstreams, ReplSync, ReplReplay, replica_row, sync_setting_row, replay_row,
  repl_downstreams_id, repl_sync_id, repl_replay_id, repl_downstream_columns, repl_sync_columns,
  repl_replay_columns,
}
use kbdiag.Facts.Cluster.{
  ClusterNodes, ClusterEvents, ClusterSyncs, node_row, event_row, sync_row, cluster_nodes_id,
  cluster_events_id, cluster_sync_id, cluster_node_columns, cluster_event_columns,
  cluster_sync_columns,
}
use kbdiag.Facts.Space.{
  SpaceTablespaces, SpaceWal, SpaceDisk, tablespace_row, wal_row, mount_row, tablespaces_redacted,
  space_tablespaces_id, space_wal_id, space_disk_id, tablespace_columns, wal_columns,
  space_disk_columns,
}
use kbdiag.Facts.Freeze as FactsFreeze
use kbdiag.Facts.Freeze.{FreezeDatabases, FreezeTables, FreezeLimits}
use kbdiag.Rule.Base.{Thresholds}
use kbdiag.Rule.Txn as RuleTxn
use kbdiag.Rule.Inst as RuleInst
use kbdiag.Rule.Slots as RuleSlots
use kbdiag.Rule.Archive as RuleArchive
use kbdiag.Rule.Params as RuleParams
use kbdiag.Rule.Repl as RuleRepl
use kbdiag.Rule.Cluster as RuleCluster
use kbdiag.Rule.Space as RuleSpace
use kbdiag.Rule.Freeze as RuleFreeze
use kbdiag.Report.{Report, new, add_probe, add_redacted}

-- A session that is, or may be, in a transaction.
unfoldable pub in_txn : {F : Type 0} → Session F → Bool
in_txn s =
    masked s
    || untracked s
    || is_some s.xact_age_s
    || is_some s.backend_xid
    || is_some s.backend_xmin

module _ {F T : Type 0} ⦃fl : Floats F⦄ ⦃tm : Times T⦄ where
  unfoldable pub txn :
      Facts.Context T → SessionActivity F → TxnPrepared F T → ℤ → Thresholds F → Report F
  txn c a p limit th = add_redacted (FactsSession.redacted a) (
      add_probe txn_prepared_id p.status p.reason prepared_columns (map FactsTxn.row p.rows) (pos 0)
        (add_probe session_activity_id a.status a.reason session_columns
          (map FactsSession.row (select in_txn a.rows)) limit (new "txn" c (RuleTxn.txn a p th))))

  unfoldable pub waits : Facts.Context T → WaitSummary → Report F
  waits c w = add_redacted (FactsWait.redacted w) (
      add_probe wait_summary_id w.status w.reason wait_columns (map FactsWait.row w.rows) (pos 0)
        (new "waits" c (RuleInst.waits w)))

  unfoldable pub status :
      Facts.Context T
      → InstInfo F T
      → InstDatabases
      → InstDownstreams
      → InstUpstream F
      → InstDisk
      → Report F
  status c i d n u disk = add_redacted (upstream_redacted u) (
      add_redacted (downstreams_redacted n) (
        add_redacted (databases_redacted d) (
          add_probe inst_disk_id disk.status disk.reason disk_columns (map disk_row disk.rows)
            (pos 0)
            (add_probe inst_upstream_id u.status u.reason upstream_columns (map upstream_row u.rows)
              (pos 0)
              (add_probe inst_downstreams_id n.status n.reason downstreams_columns
                (map downstream_row n.rows) (pos 0)
                (add_probe inst_databases_id d.status d.reason database_columns
                  (map database_row d.rows) (pos 0)
                  (add_probe inst_info_id i.status i.reason info_columns (map info_row i.rows)
                    (pos 0) (new "status" c (RuleInst.status i d n u)))))))))

  unfoldable pub slots : Facts.Context T → SlotList → Report F
  slots c l =
      add_probe slot_list_id l.status l.reason slot_columns (map FactsSlot.row l.rows) (pos 0)
        (new "slots" c (RuleSlots.slots l))

  unfoldable pub space :
      Facts.Context T → InstDatabases → SpaceTablespaces → SpaceWal → SpaceDisk → Report F
  space c d t w disk = add_redacted (tablespaces_redacted t) (
      add_redacted (databases_redacted d) (
        add_probe space_tablespaces_id t.status t.reason tablespace_columns
          (map tablespace_row t.rows) (pos 0)
          (add_probe inst_databases_id d.status d.reason database_columns (map database_row d.rows)
            (pos 0)
            (add_probe space_wal_id w.status w.reason wal_columns (map wal_row w.rows) (pos 0) (
              add_probe space_disk_id disk.status disk.reason space_disk_columns
                (map mount_row disk.rows) (pos 0) (new "space" c (RuleSpace.space d t w disk)))))))

  unfoldable pub archive : Facts.Context T → ArchiveStatus F T → ArchiveReady F → Report F
  archive c s r =
      add_probe archive_ready_id r.status r.reason archive_ready_columns (map queue_row r.rows)
        (pos 0)
        (add_probe archive_status_id s.status s.reason archive_status_columns
          (map archiver_row s.rows) (pos 0) (new "archive" c (RuleArchive.archive s c.role)))

  unfoldable pub params : (String → String) → Facts.Context T → ParamsChanged → Report F
  params base c p = add_redacted (FactsParams.redacted p) (
      add_probe params_changed_id p.status p.reason param_columns (map FactsParams.row p.rows)
        (pos 0) (new "params" c (RuleParams.params base p)))

module _ {F T : Type 0} ⦃fl : Floats F⦄ ⦃tm : Times T⦄ ⦃u : Unicode⦄ where
  unfoldable pub repl :
      Facts.Context T → ReplDownstreams F → ReplSync → InstUpstream F → ReplReplay F → Report F
  repl c d s up r = add_redacted (upstream_redacted up) (
      add_probe repl_downstreams_id d.status d.reason repl_downstream_columns
        (map replica_row d.rows) (pos 0)
        (add_probe repl_replay_id r.status r.reason repl_replay_columns (map replay_row r.rows)
          (pos 0)
          (add_probe inst_upstream_id up.status up.reason upstream_columns
            (map upstream_row up.rows) (pos 0)
            (add_probe repl_sync_id s.status s.reason repl_sync_columns
              (map sync_setting_row s.rows) (pos 0) (new "repl" c (RuleRepl.repl d s up r))))))

  unfoldable pub cluster :
      Facts.Context T → ClusterNodes → ClusterEvents F T → InstDownstreams → ClusterSyncs → Report F
  cluster c n e d s =
      add_probe cluster_sync_id s.status s.reason cluster_sync_columns (map sync_row s.rows) (pos 0)
        (add_probe inst_downstreams_id d.status d.reason downstreams_columns
          (map downstream_row d.rows) (pos 0)
          (add_probe cluster_events_id e.status e.reason cluster_event_columns
            (map event_row e.rows) (pos 0)
            (add_probe cluster_nodes_id n.status n.reason cluster_node_columns (map node_row n.rows)
              (pos 0) (new "cluster" c (RuleCluster.cluster n d s c.role)))))

  unfoldable pub freeze :
      Facts.Context T → FreezeDatabases → FreezeTables → FreezeLimits → ℤ → Report F
  freeze c d t l limit =
      add_probe FactsFreeze.freeze_tables_id t.status t.reason FactsFreeze.freeze_table_columns
        (map FactsFreeze.table_row t.rows) limit
        (add_probe FactsFreeze.freeze_databases_id d.status d.reason
          FactsFreeze.freeze_database_columns (map FactsFreeze.database_row d.rows) (pos 0)
          (add_probe FactsFreeze.freeze_limits_id l.status l.reason FactsFreeze.freeze_limit_columns
            (map FactsFreeze.limit_row l.rows) (pos 0)
            (new "freeze" c (RuleFreeze.freeze d l c.role))))
