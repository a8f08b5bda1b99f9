-- ===== src/Examples/Nodes.antt =====
-- The rules on instances, replication, clusters and disks at concrete rows.
use kbdiag.Prelude.{
  ℕ, ℤ, pos, ◌-ℤ◌, ◌≤ℤ◌, ◌<ℤ◌, wrap32, String, true, false, Option, none, some, [], ◌∷◌, any, ◌≡◌,
  ◌↔◌, arith,
}
use kbdiag.Facts.Base.{Status}
use kbdiag.Facts.Inst.{
  Info, InstInfo, InstDatabases, InstDownstreams, Downstream, InstUpstream, usable,
}
use kbdiag.Facts.Repl.{ReplDownstreams, ReplSync, ReplReplay}
use kbdiag.Facts.Cluster.{ClusterNode, ClusterNodes, ClusterSyncs}
use kbdiag.Facts.Space.{SpaceTablespaces, SpaceWal, Mount, SpaceDisk}
use kbdiag.Rule.Base.{Verdict}
use kbdiag.Rule.Loops.{fails}
use kbdiag.Rule.Inst.{status, connections, connections_finding, past_timeout}
use kbdiag.Rule.Inst.Laws.{connections-full, status-verdict}
use kbdiag.Rule.Repl.{repl}
use kbdiag.Rule.Repl.Laws.{repl-verdict}
use kbdiag.Rule.Space.{space, segment, group_mounts}
use kbdiag.Rule.Space.Full.{space-verdict}
use kbdiag.Rule.Space.Laws.{group_mounts-filesystems, holds, ids_distinct, is_mounted_on}
use kbdiag.Examples.Samples.{whole_floats, epoch_times, ascii}

abbrev full_instance : Info ℕ ℕ
full_instance = record {
  version = "V8R6";
  start_time = 0;
  uptime_s = 1000;
  connections = pos 98;
  max_connections = pos 100;
  superuser_reserved = pos 3;
  data_directory = none;
  port = pos 54321;
}

connections-full_example :
    (fails {F = ℕ} (connections full_instance) ≡ true)
    ↔ ((pos 3 <ℤ pos 100) × (pos 100 -ℤ pos 3 ≤ℤ pos 98))
connections-full_example =
    connections-full full_instance (omega arith) (omega arith) (omega arith) (omega arith)

abbrev instance_info : InstInfo ℕ ℕ
instance_info = record { status = Status.ok; reason = ""; rows = full_instance ∷ [] }

abbrev no_databases : InstDatabases
no_databases = record { status = Status.ok; reason = ""; rows = [] }

abbrev standby_of : String → Downstream
standby_of name = record {
  application_name = some name;
  client_addr = none;
  state = some "streaming";
  sync_state = some "async";
}

abbrev one_downstream : InstDownstreams
one_downstream = record { status = Status.ok; reason = ""; rows = standby_of "node2" ∷ [] }

abbrev no_upstream : InstUpstream ℕ
no_upstream = record { status = Status.not_applicable; reason = "primary"; rows = [] }

status-verdict_example :
    (status instance_info no_databases one_downstream no_upstream).verdict ≡ Verdict.fail
unfolding connections connections_finding usable wrap32 ◌-ℤ◌
status-verdict_example = status-verdict instance_info no_databases one_downstream no_upstream

-- A standby whose receiver streams but is past its timeout, with replay paused.
abbrev stuck_upstream : InstUpstream ℕ
stuck_upstream = record {
  status = Status.ok;
  reason = "";
  rows =
      (record {
        status = some "streaming";
        sender_host = some "10.0.0.1";
        sender_port = some (pos 54321);
        slot_name = none;
        last_msg_age_s = some 90;
        wal_receiver_timeout_s = some 60;
      })
      ∷ [];
}

abbrev no_replicas : ReplDownstreams ℕ
no_replicas = record { status = Status.not_applicable; reason = "standby"; rows = [] }

abbrev no_sync : ReplSync
no_sync = record { status = Status.not_applicable; reason = "standby"; rows = [] }

abbrev replaying : ReplReplay ℕ
replaying = record {
  status = Status.ok;
  reason = "";
  rows =
      (record {
        receive_lsn = none;
        replay_lsn = none;
        replay_gap_bytes = none;
        last_replay_age_s = none;
        replay_paused = false;
      })
      ∷ [];
}

repl-verdict_example :
    (repl ⦃u = ascii⦄ no_replicas no_sync stuck_upstream replaying).verdict ≡ Verdict.warn
unfolding past_timeout
repl-verdict_example = repl-verdict ⦃u = ascii⦄ no_replicas no_sync stuck_upstream replaying

abbrev node_of : ℕ → String → String → Option ℤ → ClusterNode
node_of id name type upstream = record {
  node_id = pos id;
  node_name = name;
  type = type;
  upstream_node_id = upstream;
  active = true;
  priority = none;
  location = none;
  slot_name = none;
  is_local = false;
}

abbrev two_nodes : ClusterNodes
two_nodes = record {
  status = Status.ok;
  reason = "";
  rows =
      (record (node_of 1 "node1" "primary" none) { is_local = true })
      ∷ node_of 2 "node2" "standby" (some (pos 1))
      ∷ node_of 3 "node3" "standby" (some (pos 1))
      ∷ [];
}

abbrev no_settings : ClusterSyncs
no_settings = record { status = Status.not_applicable; reason = "remote"; rows = [] }

abbrev mount_of : String → String → String → ℕ → Mount
mount_of kind path fsid avail = record {
  kind = kind;
  path = path;
  disk = record { total_bytes = 1000000000; used_bytes = 0; avail_bytes = avail; fsid = fsid };
}

abbrev full_disk : SpaceDisk
full_disk = record {
  status = Status.ok;
  reason = "";
  rows =
      mount_of "data_directory" "/data" "fd01" 5000
      ∷ mount_of "wal" "/data/sys_wal" "fd01" 5000
      ∷ mount_of "tablespace" "/ts" "fd02" 0
      ∷ [];
}

abbrev one_wal : SpaceWal
one_wal = record {
  status = Status.ok;
  reason = "";
  rows =
      (record {
        files = pos 3;
        bytes = pos 50331648;
        max_wal_size_bytes = none;
        wal_keep_bytes = none;
        wal_segment_bytes = some (pos 16777216);
      })
      ∷ [];
}

abbrev no_tablespaces : SpaceTablespaces
no_tablespaces = record { status = Status.ok; reason = ""; rows = [] }

space-verdict_example :
    (space {F = ℕ} no_databases no_tablespaces one_wal full_disk).verdict ≡ Verdict.fail
unfolding segment group_mounts
space-verdict_example = space-verdict ℕ no_databases no_tablespaces one_wal full_disk

group_mounts-filesystems_example :
    (ids_distinct (group_mounts full_disk.rows []) ≡ true)
    × ((id path : String)
        → holds id path (group_mounts full_disk.rows [])
          ≡ any (is_mounted_on id path) full_disk.rows)
group_mounts-filesystems_example = group_mounts-filesystems full_disk.rows
