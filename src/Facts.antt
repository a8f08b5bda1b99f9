-- ===== src/Facts.antt =====
-- internal/facts/facts.go: what every probe's result carries, and the values of its rows.
-- A float64 is a parameter type `F` and a time.Time a parameter type `T`: the operations that the
-- code uses on them are the records `Floats` and `Times`.
pub mod Session
pub mod Lock
pub mod Wait
pub mod Txn
pub mod Slot
pub mod Inst
pub mod Seq
pub mod Params
pub mod Archive
pub mod Freeze
pub mod Space
pub mod Vacuum
pub mod Cluster
pub mod Repl
pub mod Base
pub mod Table
pub mod Top
pub mod Object
pub mod Progress
pub mod Checkpoint
pub mod Wal
