-- ===== src/Panel.antt =====
-- internal/panel: the web panel.
pub mod Rows
pub mod Security
pub mod Enforcer
pub mod Auth
pub mod Clients
