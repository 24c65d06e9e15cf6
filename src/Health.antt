-- ===== src/Health.antt =====
-- internal/health/probe.go: the state of an uplink and one probe of it (doPing).
-- A Prober holds a map from uplink names to states; each ping is one transition under its lock,
-- and the callback runs after the lock is released, so it is a result of the transition.
pub mod Status
pub mod Prober
pub mod History
pub mod Counters
pub mod Callbacks
pub mod StatusFile
