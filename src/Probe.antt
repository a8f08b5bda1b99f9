-- ===== src/Probe.antt =====
-- internal/probe: what the probes do around their SQL. The queries themselves are not modelled.
pub mod Outcome
pub mod RepmgrConf
pub mod ClusterFile
pub mod Disks
