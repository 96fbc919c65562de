-- ===== src/Xray.antt =====
-- internal/xray: the traffic counters.
pub mod Transport
pub mod Settings
pub mod Config
pub mod Generate
pub mod Stats
