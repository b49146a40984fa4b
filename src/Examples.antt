-- ===== src/Examples.antt =====
-- The theorems at concrete inputs, and test runs of the definitions.
mod Data
mod Circuits
mod Limits
mod Latencies
mod Cleanups
mod Caches
mod Logins
mod Signups
mod Requests
mod Sockets
mod Settings
mod Jobs
mod Modes
mod Monitors
mod Alerts
mod Repositories
mod Retries
mod Aggregates
mod Checks
mod Deliveries
