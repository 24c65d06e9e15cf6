-- ===== src/Failover.antt =====
-- internal/failover: the routes that follow the health of the uplinks.
pub mod Routes
pub mod Vtysh
pub mod Controller
pub mod Netlink
