-- ===== src/Cli/Commands.antt =====
-- cmd/kbdiag/main.go: the commands, each with the probes it reads and its scenario.
use kbdiag.Prelude.{
  ℕ, ℤ, pos, String, Bool, true, false, Option, none, some, List, [], ◌∷◌, not, concat, show,
  str_eq, if◌then◌else◌,
}
use kbdiag.Unicode.{Unicode}
use kbdiag.Facts.Base as Facts
use kbdiag.Facts.Base.{Status, Floats, Times}
use kbdiag.Facts.Table.{TableInfo, TableInfos, TableSizes, TableStats, TableIndexes}
use kbdiag.Facts.Cluster.{ClusterNodes}
use kbdiag.Conn.{is_local, is_loopback}
use kbdiag.Rule.Base.{Thresholds}
use kbdiag.Rule.Names.{is_empty}
use kbdiag.Rule.Vacuum.{Singles}
use kbdiag.Report.{Report, is_collected}
use kbdiag.Scenario.Session as Session
use kbdiag.Scenario.Locks as Locks
use kbdiag.Scenario.Commands as Scenario
use kbdiag.Scenario.Ordered as Ordered
use kbdiag.Scenario.Displays as Displays
use kbdiag.Scenario.Displays.{table_after, is_one_table, is_table_kind}
use kbdiag.Conn.Failures.{Failure, Attempt, done, failed, missing_database, server_error}
use kbdiag.Cli.Outside.{Host}
use kbdiag.Cli.Arguments.{parse_pid}
use kbdiag.Cli.{CommandError, usage, Ran, GlobalFlags, check_timeout, diagnose}

-- A command with its arguments and flags, as cobra hands them over. --all of sessions is for the text only.
pub data Command (F : Type 0) : Type 0 where
  sessions locks txn : ℤ → Thresholds F → Command F
  session : String → Thresholds F → Command F
  waits status slots space archive params repl progress checkpoint wal : Command F
  freeze vacuum top_objects seq : ℤ → Command F
  cluster : Bool → Command F  -- whether -d was given
  table : String → Command F
  top : ℤ → String → Command F

-- What cobra makes of the arguments: an error of its own, or flags and a command.
pub data Parsed (F : Type 0) : Type 0 where
  refused : String → Parsed F
  parsed : GlobalFlags → Command F → Parsed F

abbrev pub usage_error : String → Ran
usage_error why = record { error = some (usage why); notes = [] }

-- The value of limitFlag, and of limitFlagN where a command lists by size or age.
abbrev pub default_limit : ℤ
default_limit = pos 50

abbrev pub repmgr_db : String
repmgr_db = "esrep"

abbrev pub known_order : String → Bool
known_order by = not (str_eq (Ordered.top_orders by) "")

-- The probes that a table gets only where it was found: sizes, statistics and indexes.
pub record TableProbes (F : Type 0) : Type 0 where
  pub sizes : TableSizes
  pub stats : TableStats F
  pub indexes : TableIndexes

-- cg of newCluster
abbrev pub in_repmgr_db : GlobalFlags → GlobalFlags
in_repmgr_db g = record g { cfg = record g.cfg { db_name = repmgr_db } }

-- skip, of a server that refused the database esrep
abbrev pub refused_text : Failure → String
refused_text e = concat ("cannot connect to database " ∷ repmgr_db ∷ ": " ∷ e.text ∷ [])

-- PersistentPreRunE before RunE
abbrev pub after_check : Option CommandError → Ran → Ran
after_check none r = r
after_check (some e) r = record { error = some e; notes = [] }

-- skip of build: what replaces the metadata probes, "" when they were read
unfoldable pub cluster_skip : {T : Type 0} → String → Bool → Facts.Context T → ClusterNodes → String
cluster_skip skip explicit c n = elim n.status [
  | Status.not_applicable ↦
      if explicit
      then concat (
          "no repmgr schema in database " ∷ c.database
          ∷ " named by -d; repmgr keeps it in database " ∷ repmgr_db ∷ " by default" ∷ [])
      else skip
  | _ ↦ skip
]

module _ {X F T : Type 0} (h : Host X F T) ⦃fl : Floats F⦄ ⦃tm : Times T⦄ ⦃u : Unicode⦄
    ⦃sg : Singles F⦄ where
  -- A build function that writes nothing to stderr.
  abbrev pub silent : Report F → Report F × List String
  silent r = (r, [])

  -- The command session, of what its argument was parsed to.
  unfoldable pub session_parsed : GlobalFlags → String → Thresholds F → Option ℕ → Ran
  session_parsed g arg th none =
      usage_error (concat ("pid must be a positive integer, got " ∷ h.quoted arg ∷ []))
  session_parsed g arg th (some pid) = diagnose h g λ x c.
      let (r, found) = Session.session c (h.session_activity x) (h.lock_list x) (pos pid) th in
      (
        r,
        if found
            then []
            else concat
                ("kbdiag: no session with pid " ∷ show (pos pid) ∷ " (it may have ended)" ∷ [])
              ∷ [],
      )

  unfoldable pub run_session : GlobalFlags → String → Thresholds F → Ran
  unfolding session_parsed
  run_session g arg th = session_parsed g arg th (parse_pid arg)

  -- The oid, where the name is that of one table.
  abbrev pub table_oid : Status → List (TableInfo F) → Option ℤ
  table_oid Status.ok (t ∷ []) = if is_table_kind t.relkind then some t.oid else none
  table_oid _ _ = none

  unfoldable pub table_probes : X → Facts.Context T → TableInfos F → TableProbes F
  table_probes x c i =
      let (st, why) = table_after i in
      elim (table_oid i.status i.rows) [
        | none ↦ record {
          sizes = record { status = st; reason = why; rows = [] };
          stats = record { status = st; reason = why; rows = [] };
          indexes = record { status = st; reason = why; rows = [] };
        }
        | some oid ↦
            let z = h.table_size x oid in
            record {
              sizes = z;
              stats = h.table_stats x c oid;
              indexes = h.table_indexes x oid (is_collected z.status);
            }
      ]

  abbrev pub table_note : Bool → String → String → List (TableInfo F) → List String
  table_note true name db rows = []
  table_note false name db [] =
      concat (
        "kbdiag: no table "
        ∷ h.quoted name
        ∷ " in database "
        ∷ h.quoted db
        ∷ " (unquoted names fold to lower case; quote them as in SQL: '\"Name\"'; use -d for another database)"
        ∷ [])
      ∷ []
  table_note false name db (t ∷ rest) =
      concat ("kbdiag: " ∷ h.quoted name ∷ " is not a table (relkind " ∷ t.relkind ∷ ")" ∷ []) ∷ []

  unfoldable pub run_table : GlobalFlags → String → Ran
  unfolding table_probes
  run_table g name =
      if is_empty (u.trim_space name)
      then usage_error "table name must not be empty"
      else diagnose h g λ x c.
        let i = h.table_info x name in
        let p = table_probes x c i in
        let (r, found) =
          Displays.table c i p.sizes p.stats p.indexes (h.freeze_limits x) (h.vacuum_settings x) in
        (r, table_note found name c.database i.rows)

  -- build of newCluster
  unfoldable pub cluster_build : GlobalFlags → String → Bool → X → Facts.Context T → Report F
  unfolding cluster_skip
  cluster_build g skip explicit x c =
      let why = cluster_skip skip explicit c (h.cluster_nodes x c) in
      let n =
        if is_empty why
        then h.cluster_nodes x c
        else record { status = Status.skipped; reason = why; rows = [] } in
      let e =
        if is_empty why
        then h.cluster_events x c
        else record { status = Status.skipped; reason = why; rows = [] } in
      let s = h.cluster_sync x c n (is_local g.cfg) (is_loopback g.cfg) in
      Scenario.cluster c n e (h.inst_downstreams x) s

  -- Without -d: what trying the database esrep came to.
  unfoldable pub cluster_tried : GlobalFlags → Attempt X → Ran
  unfolding cluster_build
  cluster_tried g (done x) =
      diagnose h (in_repmgr_db g) (λ x c. silent (cluster_build g "" false x c))
  cluster_tried g (failed e) =
      if missing_database e
      then diagnose h g (λ x c. silent (cluster_build g "" false x c))
      else if server_error e
      then diagnose h g (λ x c. silent (cluster_build g (refused_text e) false x c))
      else diagnose h (in_repmgr_db g) (λ x c. silent (cluster_build g "" false x c))

  unfoldable pub run_cluster : GlobalFlags → Bool → Ran
  unfolding cluster_tried
  run_cluster g explicit =
      if explicit
      then diagnose h g (λ x c. silent (cluster_build g "" true x c))
      else cluster_tried g (h.probe_open (in_repmgr_db g).cfg)

  -- RunE of the commands
  unfoldable pub run_command : GlobalFlags → Command F → Ran
  unfolding run_session run_table run_cluster
  run_command g (sessions limit th) =
      diagnose h g λ x c. silent (Session.sessions c (h.session_activity x) limit th)
  run_command g (session arg th) = run_session g arg th
  run_command g (locks limit th) =
      diagnose h g λ x c. silent (Locks.locks c (h.lock_list x) limit th)
  run_command g (txn limit th) =
      diagnose h g
        λ x c. silent (Scenario.txn c (h.session_activity x) (h.txn_prepared x c) limit th)
  run_command g waits = diagnose h g λ x c. silent (Scenario.waits c (h.wait_summary x))
  run_command g status = diagnose h g λ x c.
      let i = h.inst_info x in
      silent (
        Scenario.status c i (h.inst_databases x) (h.inst_downstreams x) (h.inst_upstream x c)
          (h.inst_disk i (is_local g.cfg) (is_loopback g.cfg)))
  run_command g slots = diagnose h g λ x c. silent (Scenario.slots c (h.slot_list x))
  run_command g space = diagnose h g λ x c.
      let t = h.space_tablespaces x in
      let disk = h.space_disk (h.inst_info x) t (is_local g.cfg) (is_loopback g.cfg) in
      silent (Scenario.space c (h.inst_databases x) t (h.space_wal x) disk)
  run_command g (freeze limit) = diagnose h g λ x c.
      silent
        (Scenario.freeze c (h.freeze_databases x) (h.freeze_tables x) (h.freeze_limits x) limit)
  run_command g (vacuum limit) = diagnose h g λ x c.
      silent (
        Displays.vacuum c (h.vacuum_tables x c) (h.vacuum_progress x c) (h.vacuum_settings x) limit)
  run_command g archive =
      diagnose h g λ x c. silent (Scenario.archive c (h.archive_status x) (h.archive_ready x))
  run_command g params = diagnose h g λ x c. silent (Scenario.params h.base c (h.params_changed x))
  run_command g repl = diagnose h g λ x c. silent (
      Scenario.repl c (h.repl_downstreams x) (h.repl_sync x c) (h.inst_upstream x c)
        (h.repl_replay x c))
  run_command g (cluster explicit) = run_cluster g explicit
  run_command g (top_objects limit) =
      diagnose h g
        λ x c. silent (Displays.top_objects c (h.object_tables x) (h.object_indexes x) limit)
  run_command g (table name) = run_table g name
  run_command g (top limit by) =
      if not (known_order by)
      then usage_error
          (concat ("--by must be time, mean, calls, io or temp, got " ∷ h.quoted by ∷ []))
      else diagnose h g λ x c. silent (Ordered.top c (h.sql_top x c) limit by)
  run_command g progress =
      diagnose h g λ x c. silent (Displays.progress c (h.progress_list x) (h.progress_checkpoint x))
  run_command g checkpoint = diagnose h g λ x c.
      silent (
        Displays.checkpoint c (h.checkpoint_stats x) (h.checkpoint_last x)
          (h.checkpoint_settings x))
  run_command g wal = diagnose h g λ x c.
      silent (Displays.wal c (h.wal_position x) (h.space_wal x) (h.slot_list x) (h.archive_ready x))
  run_command g (seq limit) = diagnose h g λ x c. silent (Ordered.seq c (h.seq_list x) limit)

  -- root.Execute of newRoot
  unfoldable pub execute : Parsed F → Ran
  unfolding run_command
  execute (refused why) = usage_error why
  execute (parsed g cmd) = after_check (check_timeout h g) (run_command g cmd)
