-- ===== src/Cli/Outside.antt =====
-- What cmd/kbdiag/main.go calls: the connection, the probes, and the output.
use kbdiag.Prelude.{ℤ, String, Bool, Option}
use kbdiag.Facts.Base as Facts
use kbdiag.Facts.Session.{SessionActivity}
use kbdiag.Facts.Lock.{LockList}
use kbdiag.Facts.Wait.{WaitSummary}
use kbdiag.Facts.Txn.{TxnPrepared}
use kbdiag.Facts.Slot.{SlotList}
use kbdiag.Facts.Inst.{InstInfo, InstDatabases, InstDownstreams, InstUpstream, InstDisk}
use kbdiag.Facts.Seq.{SeqList}
use kbdiag.Facts.Params.{ParamsChanged}
use kbdiag.Facts.Archive.{ArchiveStatus, ArchiveReady}
use kbdiag.Facts.Freeze.{FreezeDatabases, FreezeTables, FreezeLimits}
use kbdiag.Facts.Space.{SpaceTablespaces, SpaceWal, SpaceDisk}
use kbdiag.Facts.Vacuum.{VacuumTables, VacuumProgress, VacuumSettings}
use kbdiag.Facts.Cluster.{ClusterNodes, ClusterEvents, ClusterSyncs}
use kbdiag.Facts.Repl.{ReplDownstreams, ReplSync, ReplReplay}
use kbdiag.Facts.Table.{TableInfos, TableSizes, TableStats, TableIndexes}
use kbdiag.Facts.Top.{SqlTop}
use kbdiag.Facts.Object.{ObjectTables, ObjectIndexes}
use kbdiag.Facts.Progress.{ProgressList}
use kbdiag.Facts.Checkpoint.{CheckpointStats, CheckpointLast, CheckpointSettings}
use kbdiag.Facts.Wal.{WalPosition}
use kbdiag.Conn.{Config}
use kbdiag.Conn.Failures.{Attempt}
use kbdiag.Report.{Report}

-- `X` is a connection. Opening one twice need not come to the same: `probe_open` is the first
-- connection that the cluster command tries, `connect` the one of diagnose.
pub record Host (X F T : Type 0) : Type 0 where
  pub connect : Config → Attempt X
  pub probe_open : Config → Attempt X
  pub identify : X → Config → Attempt (Facts.Context T)
  pub print : Bool → Report F → Option String  -- the error of WriteJSON or WriteText
  pub duration_text : ℤ → String  -- %v of a time.Duration
  pub quoted : String → String  -- %q
  pub base : String → String  -- filepath.Base
  pub session_activity : X → SessionActivity F
  pub lock_list : X → LockList F
  pub txn_prepared : X → Facts.Context T → TxnPrepared F T
  pub wait_summary : X → WaitSummary
  pub inst_info : X → InstInfo F T
  pub inst_databases : X → InstDatabases
  pub inst_downstreams : X → InstDownstreams
  pub inst_upstream : X → Facts.Context T → InstUpstream F
  pub inst_disk : InstInfo F T → Bool → Bool → InstDisk
  pub slot_list : X → SlotList
  pub space_tablespaces : X → SpaceTablespaces
  pub space_wal : X → SpaceWal
  pub space_disk : InstInfo F T → SpaceTablespaces → Bool → Bool → SpaceDisk
  pub freeze_databases : X → FreezeDatabases
  pub freeze_tables : X → FreezeTables
  pub freeze_limits : X → FreezeLimits
  pub vacuum_tables : X → Facts.Context T → VacuumTables F
  pub vacuum_progress : X → Facts.Context T → VacuumProgress F
  pub vacuum_settings : X → VacuumSettings F
  pub archive_status : X → ArchiveStatus F T
  pub archive_ready : X → ArchiveReady F
  pub params_changed : X → ParamsChanged
  pub repl_downstreams : X → ReplDownstreams F
  pub repl_sync : X → Facts.Context T → ReplSync
  pub repl_replay : X → Facts.Context T → ReplReplay F
  pub cluster_nodes : X → Facts.Context T → ClusterNodes
  pub cluster_events : X → Facts.Context T → ClusterEvents F T
  pub cluster_sync : X → Facts.Context T → ClusterNodes → Bool → Bool → ClusterSyncs
  pub object_tables : X → ObjectTables
  pub object_indexes : X → ObjectIndexes
  pub table_info : X → String → TableInfos F
  pub table_size : X → ℤ → TableSizes
  pub table_stats : X → Facts.Context T → ℤ → TableStats F
  pub table_indexes : X → ℤ → Bool → TableIndexes
  pub sql_top : X → Facts.Context T → SqlTop F
  pub progress_list : X → ProgressList F
  pub progress_checkpoint : X → ProgressList F
  pub checkpoint_stats : X → CheckpointStats F T
  pub checkpoint_last : X → CheckpointLast F T
  pub checkpoint_settings : X → CheckpointSettings F
  pub wal_position : X → WalPosition
  pub seq_list : X → SeqList
