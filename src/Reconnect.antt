-- ===== src/Reconnect.antt =====
-- internal/signal/reconnect.go: the supervisor of the receive loops.
pub mod Policy
pub mod Supervisor
pub mod Backoff
pub mod Progress
pub mod Reports
