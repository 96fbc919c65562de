-- ===== src/Ovpnguard.antt =====
-- internal/ovpnguard: the guard that enforces per-user OpenVPN session limits.
pub mod Decide
pub mod Activity
pub mod Accounts
pub mod Status
pub mod Conf
pub mod Management
