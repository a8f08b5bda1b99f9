-- ===== src/Examples.antt =====
-- The theorems at concrete inputs: a fixed instance of the numbers, times and character classes,
-- and rows as a server would give them.
mod Samples
mod Rules
mod Nodes
mod Texts
mod Reports
mod Commands
mod Outputs
mod Layouts
