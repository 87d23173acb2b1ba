-- ===== src/Liveness.antt =====
-- liveness: the metrics that the liveness agent reports, and its protocol's states.
pub mod Text
pub mod CpuStat
pub mod MemInfo
pub mod Mounts
pub mod Systemd
pub mod Transport
pub mod Report
