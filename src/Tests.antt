-- ===== src/Tests.antt =====
-- Tests of the models on small inputs, and the theorems at inputs that meet their hypotheses.
mod Fixtures
mod ConfigTests
mod HealthTests
mod FailoverTests
mod MonitorTests
mod ApplyTests
mod RevisionTests
mod CommandTests
mod VlanTests
mod NetlinkTests
mod StatusTests
mod ServicesTests
