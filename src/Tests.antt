-- ===== src/Tests.antt =====
-- Small inputs: the theorems at concrete data, and runs of the definitions.
mod Guard
mod Management
mod Mux
mod Panel
mod Login
mod Ports
mod Rules
mod Limits
mod Payload
mod Users
mod Config
mod Traffic
mod Chains
