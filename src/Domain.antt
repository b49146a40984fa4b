-- ===== src/Domain.antt =====
-- domain/: the entities of the tracker and their rules.
pub mod Alert
pub mod HealthCheck
pub mod Monitor
pub mod User
