-- ===== src/Rule.antt =====
-- internal/rule: the rules that turn facts into findings.
pub mod Base
pub mod Verdicts
pub mod Loops
pub mod Cluster
pub mod Repl
pub mod Space
pub mod SyncNames
pub mod Slots
pub mod Archive
pub mod Params
pub mod Freeze
pub mod Seq
pub mod Txn
pub mod Inst
pub mod Names
pub mod Sessions
pub mod Locks
pub mod Vacuum
pub mod Table
