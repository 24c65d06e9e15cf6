-- ===== src/Failover/Routes.antt =====
-- internal/failover/controller.go: the nexthops, the rules and the RouteManager interface.
use warp_router.Prelude.{ℤ, String, Option, none, some, List, [], ◌∷◌, concat}
use warp_router.Net.{Ip, IpNet, Net}

-- An ECMP nexthop. A gateway that net.ParseIP refused is a nil IP.
pub record Nexthop : Type 0 where
  pub gateway : Option Ip
  pub device : String
  pub weight : ℤ

-- A policy-based routing rule.
pub record PbrRoute : Type 0 where
  pub name : String
  pub priority : ℤ
  pub source : IpNet
  pub gateway : Option Ip
  pub device : String

-- The interface RouteManager over a manager's state `M`; an error is what the manager reports.
pub record RouteManager (M E : Type 0) : Type 0 where
  pub replace_ecmp_route : List Nexthop → M → M × Option E
  pub add_pbr_rule : PbrRoute → M → M × Option E
  pub del_pbr_rule : PbrRoute → M → M × Option E

-- IP.String: a nil address is written "<nil>".
abbrev pub ip_text : Net → Option Ip → String
ip_text net none = "<nil>"
ip_text net (some ip) = net.ip_to_string ip

-- nhKey
unfoldable pub nh_key : Net → Nexthop → String
nh_key net nh = concat (ip_text net nh.gateway ∷ " " ∷ nh.device ∷ [])
