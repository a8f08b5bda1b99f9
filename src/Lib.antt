-- ===== src/Lib.antt =====
-- kbdiag, a read-only diagnostic tool for KingbaseES (PostgreSQL) servers: the part that judges
-- what was collected and reports it.
--
-- A command of kbdiag runs in four steps. The probes (internal/probe, through internal/conn) read
-- the server's catalogs and the local disks into facts (internal/facts): one record per probe,
-- with a status, a reason and typed rows. The rules (internal/rule) are pure functions from facts
-- to a result, a verdict (OK, WARN, FAIL, UNKNOWN) with its findings. The scenarios
-- (internal/scenario) say for each command which facts it reads, which rules it runs and which
-- rows it shows, and assemble the report (internal/report), whose verdict becomes the exit code.
-- The command line (cmd/kbdiag/main.go) validates the arguments, connects, runs the probes and the
-- scenario and exits. The development models the command line around its parser, facts, rules,
-- scenarios and the report, the parts of the text output that every layout uses with the layouts
-- of locks and waits, and of the probes what they do besides SQL.
--
-- Facts (internal/facts): Facts/Base is facts.go and the `any` values; each other file of Facts/
-- is the Go file of its name (Session, Lock, Wait, Txn, Slot, Inst, Seq, Params, Archive, Freeze,
-- Space, Vacuum, Cluster, Repl, Table, Top, Object, Progress, Checkpoint, Wal). A struct is a
-- record with the same fields, Row is `row` or `..._row`, Redacted is `redacted` or
-- `..._redacted`. Facts/Lock/Blockers is about what Blockers keeps.
--
-- Rules (internal/rule): Rule/Base is rule.go's results, collected, verdictOf and Merge;
-- Rule/Verdicts and Rule/Loops hold the lemmas on verdicts and on the rules' loops, which are one
-- function from a row to what one round does with it (`Seen`: hidden, quiet, flagged).
-- Rule/Sessions is Sessions of rule.go; Rule/Locks is lock.go; Rule/Txn is txn.go; Rule/Inst is
-- Waits and Status of inst.go, Rule/Slots its Slots; Rule/Repl is repl.go, Rule/SyncNames its
-- parser of synchronous_standby_names; Rule/Cluster is cluster.go; Rule/Seq is seq.go; Rule/Freeze
-- is freeze.go; Rule/Space is space.go; Rule/Archive is archive.go; Rule/Params is params.go;
-- Rule/Vacuum is vacuum.go, Rule/Table is table.go, and Rule/Table/Agreement compares the two;
-- Rule/Names is names.go, Rule/Names/Words its keywords and Rule/Names/Booleans its parseBool. The
-- folder of a rule holds its theorems.
--
-- Report (internal/report/report.go): Report has New, AddProbe, AddRedacted and ExitCode. Scenario
-- (internal/scenario): Scenario/Session is Session of lock.go and sessions.go, Scenario/Locks is
-- Locks of lock.go, Scenario/Commands is txn.go, inst.go, archive.go, params.go, repl.go,
-- cluster.go and freeze.go, Scenario/Ordered is top.go and seq.go, on Scenario/Sorting, and
-- Scenario/Displays is table.go, vacuum.go, progress.go, checkpoint.go, wal.go and topobjects.go.
-- Of the text output, Report/Render is escapeControl and cell of render.go, Report/Layout is
-- table.go, Report/Redacted is redacted.go with plural of sessions.go, Report/Oldest is
-- writeOldest of txn.go, Report/Waits the layout of waits.go and Report/Blocking that of locks.go.
-- Units (internal/units/units.go): Bytes and Duration. Conn (internal/conn/conn.go): the
-- connection's settings, its connection string and its timeout; Conn/Failures is MissingDatabase
-- and ServerError, and the folder's other files hold a reader of connection strings and the
-- rounding.
--
-- Probe (internal/probe): Probe/Outcome is classify, collectArgs and trackActivities of probe.go,
-- withGrantHint of cluster.go, versionNumber of inst.go and shortVersion of conn.go;
-- Probe/RepmgrConf is the reader of repmgr.conf in cluster.go, Probe/ClusterFile its ClusterSync;
-- Probe/Disks is InstDisk of inst.go and SpaceDisk of space.go. Cli (cmd/kbdiag/main.go): Cli is
-- run, diagnose and write, Cli/Arguments parses a pid, Cli/Commands has the RunE of every command;
-- Cli/Clean follows txn from its flags to its rows. Cli joins the others: it hands the answers of
-- the probes to the scenarios and their report to the exit code.
--
-- Prelude holds the shared tests, lists, integers and decimals; Examples applies the theorems at
-- concrete rows.
--
-- Parameters and bounds. float64 is a type with the operations that the code uses (`Floats`), so
-- are float32 (`Singles`), the printing of floats (`Prints`) and time.Time (`Times`); the case and
-- letter tables of Go's strings and unicode packages are a record (`Unicode`), so are the columns
-- that a rune takes on a terminal (`Terminal`), os.ReadFile and filepath.Clean (`Files`), stat and
-- statfs (`Filesystems`), and pgx, the clock, the output and the queries of the probes (`Host`).
-- Four theorems assume laws, each as a binder: that a space takes one column (IsTerminal), that
-- the floats compared are ordered, as floats that are no NaN are (the two IsOrdered), and which
-- ASCII characters are letters and digits (Rule/Freeze/Shell). sort.SliceStable is insertion into
-- a sorted list, which gives the one stable order wherever the test is an order. A Go string is a
-- text, so it is valid UTF-8. Integers are unbounded; where an operation on fixed-width ones could
-- leave their range its wrap-around is written out (Info.Usable in int32, timeoutMillis in int64,
-- olderXID in uint32), the others only compare, count rows or subtract within their range, SeqLeft
-- uses big.Int in the code too, and Atoi has the range of int. Every loop is structural recursion
-- over rows, runes or tokens; the decimals use one unit of fuel for each digit, and a number has
-- fewer digits than its value plus one. A map of evidence fields is the list of its literal's
-- pairs; a map keyed by id is an association list or a list in order of insertion.
--
-- Not modelled: the SQL of the probes and opening the connection, which are database access; the
-- flags as cobra parses them; the JSON and the text layout of the other commands, and the typed
-- rows that the scenarios hand to it.
pub mod Prelude
pub mod Facts
pub mod Rule
pub mod Units
pub mod Unicode
pub mod Report
pub mod Conn
pub mod Scenario
pub mod Cli
pub mod Probe
mod Examples
