-- ===== src/Scenario.antt =====
-- internal/scenario: which facts each command reads, which rules it runs, and its report.
pub mod Session
pub mod Locks
pub mod Commands
pub mod Sorting
pub mod Ordered
pub mod Displays
