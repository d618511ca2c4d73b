-- ===== src/Mds.antt =====
-- dnscrypt-proxy/scheduler_mds.go: the multi-dimensional resolver scheduler.
pub mod Circuit
pub mod Config
pub mod Breaker
pub mod Scheduler
pub mod Score
pub mod Select
pub mod Loops
pub mod Selection
pub mod Paths
pub mod Primary
pub mod Probes
mod Tests
