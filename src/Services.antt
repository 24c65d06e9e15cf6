-- ===== src/Services.antt =====
-- internal/services: the configuration files of the services.
pub mod Frr
pub mod Nftables
pub mod Kea
pub mod Unbound
pub mod SysctlConf
