-- ===== src/Resilience.antt =====
-- infrastructure/resilience/: repositories, Redis and alert channels that survive the failure of
-- what they wrap.
pub mod Repository
pub mod HealthChecks
pub mod RedisClient
pub mod AlertChannel
