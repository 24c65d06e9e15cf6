-- ===== src/Config.antt =====
-- internal/config/config.go: the site configuration. A pointer that may be nil is an Option, a Go
-- `int` is ℤ, and a map of strings is an association list.
pub mod Errors
pub mod Validate
pub mod Valid
pub mod Load
use warp_router.Prelude.{ℤ, String, Bool, Option, List}

-- WAN uplink health monitoring.
pub record HealthCheck : Type 0 where
  pub target : String
  pub interval : ℤ
  pub timeout : ℤ
  pub failures : ℤ

pub record Interface : Type 0 where
  pub name : String
  pub role : String
  pub device : String
  pub address : String
  pub gateway : String
  pub vlan : ℤ
  pub health_check : Option HealthCheck

-- A DHCP scope for a LAN segment.
pub record DhcpSubnet : Type 0 where
  pub subnet : String
  pub interface : String
  pub pool_start : String
  pub pool_end : String
  pub gateway : String
  pub dns_servers : List String
  pub lease_time : ℤ
  pub options : List (String × String)

pub record DhcpConfig : Type 0 where
  pub enabled : Bool
  pub subnets : List DhcpSubnet

pub record DnsConfig : Type 0 where
  pub enabled : Bool
  pub listen : List String
  pub forwarders : List String
  pub allow_from : List String

pub record FirewallZone : Type 0 where
  pub name : String
  pub interfaces : List String

-- An inter-zone forwarding rule.
pub record ForwardRule : Type 0 where
  pub from : String
  pub to : String
  pub action : String
  pub protocol : String
  pub port : String
  pub source : String
  pub dest : String

-- A rule for traffic to the router itself.
pub record InputRule : Type 0 where
  pub zone : String
  pub action : String
  pub protocol : String
  pub port : String
  pub source : String

pub record Firewall : Type 0 where
  pub zones : List FirewallZone
  pub forward_rules : List ForwardRule
  pub input_rules : List InputRule

pub record EcmpConfig : Type 0 where
  pub enabled : Bool

-- A policy-based routing rule.
pub record PbrRule : Type 0 where
  pub name : String
  pub priority : ℤ
  pub source : String
  pub interface : String

pub record Sysctl : Type 0 where
  pub conntrack_max : ℤ

pub record SiteConfig : Type 0 where
  pub hostname : String
  pub interfaces : List Interface
  pub dhcp : Option DhcpConfig
  pub dns : Option DnsConfig
  pub firewall : Option Firewall
  pub ecmp : Option EcmpConfig
  pub pbr : List PbrRule
  pub sysctl : Option Sysctl
