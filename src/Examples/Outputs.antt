-- ===== src/Examples/Outputs.antt =====
-- The command line, the host's files and the text output, at concrete inputs.
use kbdiag.Prelude.{
  ℕ, ℤ, pos, ◌==◌, ◌≤◌, String, true, false, none, some, List, [], ◌∷◌, ◌≡◌, refl, map, concat,
  show_ℕ, arith,
}
use kbdiag.Facts.Base.{Status, Value, str, Redaction}
use kbdiag.Facts.Top.{Statement, SqlTop, sql_top_id}
use kbdiag.Report.{Probe, get_probe}
use kbdiag.Facts.Cluster.{ClusterNode, ClusterNodes}
use kbdiag.Facts.Inst.{InstInfo}
use kbdiag.Facts.Space.{SpaceTablespaces}
use kbdiag.Prelude.Decimal.{read_digits}
use kbdiag.Cli.Arguments.{parse_pid}
use kbdiag.Conn.Failures.{server_error, missing_database, Attempt, done, failed, Failure}
use kbdiag.Rule.Names.{any_char, is_hostile}
use kbdiag.Rule.Names.Booleans.{text_length}
use kbdiag.Scenario.Ordered.{top}
use kbdiag.Scenario.Ordered.Laws.{IsOrdered, IsTop, Criterion, top-IsTop}
use kbdiag.Report.Render.{Prints, cell}
use kbdiag.Report.Render.Cells.{cell-bounds}
use kbdiag.Report.Layout.{Terminal, widths_from, display_width, write_table}
use kbdiag.Report.Layout.Columns.{write_table-aligned, PrintedAt}
use kbdiag.Report.Redacted.{write_redacted}
use kbdiag.Report.Redacted.Lines.{write_redacted-IsReported, IsReported}
use kbdiag.Probe.ClusterFile.{Files, SyncAnswer, cluster_sync}
use kbdiag.Probe.Disks.{Filesystems, space_disk}
use kbdiag.Probe.Disks.Laws.{space_disk_complete, place}
use kbdiag.Cli.{check_timeout, GlobalFlags, run_code}
use kbdiag.Cli.Outside.{Host}
use kbdiag.Cli.Clean.{txn-exits_zero}
use kbdiag.Cli.Commands.{txn, session, status, parsed, execute, run_cluster}
use kbdiag.Cli.Unreadable.{run_cluster-refused}
use kbdiag.Examples.Samples.{whole_floats, epoch_times, ascii, context, limits}
use kbdiag.Examples.Commands.{whole_singles}

abbrev refused_by_server : Failure
refused_by_server = record {
  text = "no pg_hba.conf entry";
  answer = some (record { code = "28000"; message = "no" });
}

abbrev host : Host Unit ℕ ℕ
host = record {
  connect = λ c. done tt;
  probe_open = λ c. failed refused_by_server;
  identify = λ x c. done context;
  print = λ json r. none;
  duration_text = λ d. "0s";
  quoted = λ s. s;
  base = λ s. s;
  session_activity = λ _. record { status = Status.ok; reason = ""; rows = [] };
  lock_list = λ _. record { status = Status.ok; reason = ""; rows = [] };
  txn_prepared = λ _ _. record { status = Status.ok; reason = ""; rows = [] };
  wait_summary = λ _. record { status = Status.ok; reason = ""; rows = [] };
  inst_info = λ _. record { status = Status.ok; reason = ""; rows = [] };
  inst_databases = λ _. record { status = Status.ok; reason = ""; rows = [] };
  inst_downstreams = λ _. record { status = Status.ok; reason = ""; rows = [] };
  inst_upstream = λ _ _. record { status = Status.ok; reason = ""; rows = [] };
  inst_disk = λ _ _ _. record { status = Status.ok; reason = ""; rows = [] };
  slot_list = λ _. record { status = Status.ok; reason = ""; rows = [] };
  space_tablespaces = λ _. record { status = Status.ok; reason = ""; rows = [] };
  space_wal = λ _. record { status = Status.ok; reason = ""; rows = [] };
  space_disk = λ _ _ _ _. record { status = Status.ok; reason = ""; rows = [] };
  freeze_databases = λ _. record { status = Status.ok; reason = ""; rows = [] };
  freeze_tables = λ _. record { status = Status.ok; reason = ""; rows = [] };
  freeze_limits = λ _. record { status = Status.ok; reason = ""; rows = [] };
  vacuum_tables = λ _ _. record { status = Status.ok; reason = ""; rows = [] };
  vacuum_progress = λ _ _. record { status = Status.ok; reason = ""; rows = [] };
  vacuum_settings = λ _. record { status = Status.ok; reason = ""; rows = [] };
  archive_status = λ _. record { status = Status.ok; reason = ""; rows = [] };
  archive_ready = λ _. record { status = Status.ok; reason = ""; rows = [] };
  params_changed = λ _. record { status = Status.ok; reason = ""; rows = [] };
  repl_downstreams = λ _. record { status = Status.ok; reason = ""; rows = [] };
  repl_sync = λ _ _. record { status = Status.ok; reason = ""; rows = [] };
  repl_replay = λ _ _. record { status = Status.ok; reason = ""; rows = [] };
  cluster_nodes = λ _ _. record { status = Status.ok; reason = ""; rows = [] };
  cluster_events = λ _ _. record { status = Status.ok; reason = ""; rows = [] };
  cluster_sync = λ _ _ _ _ _. record { status = Status.ok; reason = ""; rows = [] };
  object_tables = λ _. record { status = Status.ok; reason = ""; rows = [] };
  object_indexes = λ _. record { status = Status.ok; reason = ""; rows = [] };
  table_info = λ _ _. record { status = Status.ok; reason = ""; rows = [] };
  table_size = λ _ _. record { status = Status.ok; reason = ""; rows = [] };
  table_stats = λ _ _ _. record { status = Status.ok; reason = ""; rows = [] };
  table_indexes = λ _ _ _. record { status = Status.ok; reason = ""; rows = [] };
  sql_top = λ _ _. record { status = Status.ok; reason = ""; rows = []; track = "all" };
  progress_list = λ _. record { status = Status.ok; reason = ""; rows = [] };
  progress_checkpoint = λ _. record { status = Status.ok; reason = ""; rows = [] };
  checkpoint_stats = λ _. record { status = Status.ok; reason = ""; rows = [] };
  checkpoint_last = λ _. record { status = Status.ok; reason = ""; rows = [] };
  checkpoint_settings = λ _. record { status = Status.ok; reason = ""; rows = [] };
  wal_position = λ _. record { status = Status.ok; reason = ""; rows = [] };
  seq_list = λ _. record { status = Status.ok; reason = ""; rows = [] };
}

abbrev flags : GlobalFlags
flags = record {
  cfg = record {
    host = "";
    port = pos 54321;
    user = "system";
    db_name = "test";
    query_timeout = pos 10000000000;
  };
  json = false;
}

-- A server that is not reached: its diagnosis ends with 69.
abbrev unreached : Host Unit ℕ ℕ
unreached = record host { connect = λ c. failed refused_by_server }

-- The pid 0 is refused.
execute_test : run_code (execute host (parsed flags (session "0" limits))) ≡ 64
unfolding run_code parse_pid execute read_digits check_timeout
execute_test = refl

txn-exits_zero_example : (run_code (execute host (parsed flags (txn (pos 50) limits))) == 0) ≡ true
txn-exits_zero_example = txn-exits_zero host flags (pos 50) limits

run_cluster-refused_example : (run_code (run_cluster host flags false) == 0) ≡ false
unfolding server_error missing_database
run_cluster-refused_example = run_cluster-refused host flags refused_by_server refl refl refl

abbrev node_1 : ClusterNode
node_1 = record {
  node_id = pos 1;
  node_name = "node1";
  type = "primary";
  upstream_node_id = none;
  active = true;
  priority = some (pos 100);
  location = some "default";
  slot_name = none;
  is_local = true;
}

abbrev nodes_1 : ClusterNodes
nodes_1 = record { status = Status.ok; reason = ""; rows = node_1 ∷ [] }

abbrev conf_files : Files
conf_files = record {
  read = λ path. done "node_id=1\nsynchronous='quorum' # mode\n";
  clean = λ path. path;
}

abbrev sync_answer : ℤ → Attempt SyncAnswer
sync_answer id =
    done (record { bindir = some "/opt/kb/bin"; datadir = some "/data"; names = some "*" })

abbrev statement_of : String → ℕ → Statement ℕ
statement_of query seconds = record {
  query_id = none;
  username = none;
  datname = none;
  calls = pos 1;
  total_exec_s = seconds;
  mean_exec_s = seconds;
  max_exec_s = seconds;
  rows = pos 1;
  shared_blks_hit = pos 0;
  shared_blks_read = pos 0;
  temp_blks_written = pos 0;
  query = some query;
}

abbrev two_statements : List (Statement ℕ)
two_statements = statement_of "select 1" 3 ∷ statement_of "select 2" 7 ∷ []

-- Whole numbers are all ordered.
whole-IsOrdered : IsOrdered whole_floats (λ x. true)
whole-IsOrdered = record {
  lt_order = record {
    asym = λ a b x y h. ground (arith, h);
    not_trans = λ a b c x y z h k. ground (arith, h, k);
  };
  le_lem = λ a b x y. ground arith;
}

abbrev statements : SqlTop ℕ
statements = record { status = Status.ok; reason = ""; rows = two_statements; track = "all" }

top-IsTop_example :
    (shown : Probe ℕ) × (get_probe sql_top_id (top context statements (pos 1) "time").probes
      ≡ some shown)
    × IsTop Criterion.time two_statements (pos 1) shown
top-IsTop_example =
    top-IsTop (λ x. true) whole-IsOrdered context statements (pos 1) Criterion.time refl
      (λ s m. refl)

instance abbrev whole_prints : Prints ℕ
whole_prints = record { sprint = show_ℕ }

abbrev shown_value : Value ℕ
shown_value = str "select\n 1"

cell-bounds_example :
    (text_length (cell shown_value) ≤ 60) × (any_char is_hostile (cell shown_value) ≡ false)
cell-bounds_example = cell-bounds shown_value

instance abbrev narrow : Terminal
narrow = record { is_wide = λ r. false }

abbrev two_rows : List (List String)
two_rows = ("1" ∷ "orders" ∷ []) ∷ ("200" ∷ "t" ∷ []) ∷ []

write_table-aligned_example :
    PrintedAt "  "
      (write_table "  " (some ("pid" ∷ "name" ∷ [])) two_rows)
      (("pid" ∷ "name" ∷ []) ∷ [])
      ("1" ∷ "orders" ∷ [])
      1
      5
unfolding widths_from display_width
write_table-aligned_example =
    write_table-aligned (record { narrow_space = refl; narrow_dot = refl }) "  "
      (some ("pid" ∷ "name" ∷ [])) two_rows (("pid" ∷ "name" ∷ []) ∷ []) (("200" ∷ "t" ∷ []) ∷ [])
      ("1" ∷ "orders" ∷ []) refl 1 (omega arith)

abbrev wait_entry : Redaction
wait_entry = record {
  probe_id = "lock.list";
  field = "wait_s";
  reason = "masked";
  rows_affected = pos 2;
}

abbrev value_entry : Redaction
value_entry = record {
  probe_id = "seq.list";
  field = "last_value";
  reason = "masked";
  rows_affected = pos 1;
}

write_redacted-IsReported_example :
    IsReported value_entry (write_redacted (wait_entry ∷ value_entry ∷ []))
write_redacted-IsReported_example = write_redacted-IsReported (wait_entry ∷ []) [] value_entry

abbrev disks : Filesystems
disks = record {
  statfs =
      λ path. done (record { total_bytes = 100; used_bytes = 50; avail_bytes = 50; fsid = "" });
  device_of = λ path. done "8:1";
  join_path = λ dir name. concat (dir ∷ "/" ∷ name ∷ []);
}

abbrev instance_rows : InstInfo ℕ ℕ
instance_rows = record {
  status = Status.ok;
  reason = "";
  rows =
      (record {
        version = "V8R6";
        start_time = 0;
        uptime_s = 100;
        connections = pos 1;
        max_connections = pos 100;
        superuser_reserved = pos 3;
        data_directory = some "/data";
        port = pos 54321;
      })
      ∷ [];
}

-- One tablespace on a disk of its own, one in the data directory.
abbrev two_tablespaces : SpaceTablespaces
two_tablespaces = record {
  status = Status.ok;
  reason = "";
  rows =
      (record { name = "fast"; location = some "/fast"; size_bytes = none })
      ∷ (record { name = "sys_default"; location = some ""; size_bytes = none })
      ∷ [];
}

space_disk_complete_example :
    map place (space_disk disks instance_rows two_tablespaces true false).rows
    ≡ ("data_directory", "/data") ∷ ("wal", "/data/sys_wal") ∷ ("tablespace", "/fast") ∷ []
unfolding space_disk concat
space_disk_complete_example =
    space_disk_complete disks instance_rows two_tablespaces true false refl
