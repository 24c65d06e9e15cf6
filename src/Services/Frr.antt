-- ===== src/Services/Frr.antt =====
-- internal/services/frr/frr.go: what Render puts into frr.conf.
pub mod Template
pub mod Lines
mod Pieces
mod Blocks
pub mod Printable
pub mod Routes
use warp_router.Prelude.{
  ℕ, suc, ◌+◌, ◌*◌, ltb, length, String, string_eq, Bool, true, false, not, ◌&&◌, Option, none,
  some, List, [], ◌∷◌, ◌++◌, lookup, insert, if◌then◌else◌, ◌==◌,
}
use warp_router.Config.{Interface, PbrRule, EcmpConfig, SiteConfig}
use warp_router.Failover.Controller.{interfaces_by_name}

pub record StaticRoute : Type 0 where
  pub prefix : String
  pub next_hop : String
  pub device : String

pub record EcmpNextHop : Type 0 where
  pub next_hop : String
  pub device : String

pub record PbrMap : Type 0 where
  pub name : String
  pub seq : ℕ
  pub match_src : String
  pub next_hop : String
  pub device : String

pub record PbrInterface : Type 0 where
  pub device : String
  pub map_name : String

-- A BFD peer is its address.
pub record FrrData : Type 0 where
  pub hostname : String
  pub static_routes : List StaticRoute
  pub ecmp : Bool
  pub ecmp_next_hops : List EcmpNextHop
  pub pbr : Bool
  pub pbr_maps : List PbrMap
  pub pbr_interfaces : List PbrInterface
  pub bfd : Bool
  pub bfd_peers : List String

-- The WAN interfaces, and the loops over those that have a gateway.
unfoldable pub wan_interfaces : List Interface → List Interface
wan_interfaces [] = []
wan_interfaces (iface ∷ ifaces) =
    let rest = wan_interfaces ifaces in if iface.role == "wan" then iface ∷ rest else rest

unfoldable pub ecmp_hops : List Interface → List EcmpNextHop
ecmp_hops [] = []
ecmp_hops (wan ∷ wans) =
    let rest = ecmp_hops wans in
    if wan.gateway == ""
    then rest
    else record { next_hop = wan.gateway; device = wan.device } ∷ rest

unfoldable pub static_hops : List Interface → List StaticRoute
static_hops [] = []
static_hops (wan ∷ wans) =
    let rest = static_hops wans in
    if wan.gateway == ""
    then rest
    else record { prefix = "0.0.0.0/0"; next_hop = wan.gateway; device = wan.device } ∷ rest

unfoldable pub bfd_addresses : List Interface → List String
bfd_addresses [] = []
bfd_addresses (wan ∷ wans) =
    let rest = bfd_addresses wans in if wan.gateway == "" then rest else wan.gateway ∷ rest

abbrev pub pbr_map_name : String
pbr_map_name = "warp-pbr"

-- The loop over the PBR rules from the i-th on; a rule without its interface is skipped.
unfoldable pub pbr_maps_from : List (String × Interface) → ℕ → List PbrRule → List PbrMap
pbr_maps_from by_name i [] = []
pbr_maps_from by_name i (rule ∷ rules) =
    let rest = pbr_maps_from by_name (i + 1) rules in
    elim (lookup rule.interface by_name) [
      | none ↦ rest
      | some target ↦
          record {
            name = pbr_map_name;
            seq = (i + 1) * 10;
            match_src = rule.source;
            next_hop = target.gateway;
            device = target.device;
          }
          ∷ rest
    ]

abbrev pub is_empty {ℓ} : {A : Type ℓ} → List A → Bool
is_empty [] = true
is_empty (_ ∷ _) = false

unfoldable pub pbr_attachments : Bool → List Interface → List PbrInterface
pbr_attachments has_maps [] = []
pbr_attachments has_maps (iface ∷ ifaces) =
    let rest = pbr_attachments has_maps ifaces in
    if iface.role == "lan" && has_maps
    then record { device = iface.device; map_name = pbr_map_name } ∷ rest
    else rest

abbrev ecmp_enabled : Option EcmpConfig → Bool
ecmp_enabled none = false
ecmp_enabled (some ecmp) = ecmp.enabled

-- ECMP is used with more than one WAN interface.
abbrev pub uses_ecmp : SiteConfig → Bool
uses_ecmp cfg = ecmp_enabled cfg.ecmp && ltb 1 (length (wan_interfaces cfg.interfaces))

-- The part of Render before the template.
unfoldable pub frr_data : SiteConfig → FrrData
unfolding interfaces_by_name wan_interfaces ecmp_hops static_hops bfd_addresses pbr_maps_from
    pbr_attachments
frr_data cfg =
    let wans = wan_interfaces cfg.interfaces in
    let use_ecmp = uses_ecmp cfg in
    let maps = pbr_maps_from (interfaces_by_name cfg.interfaces []) 0 cfg.pbr in
    let peers = bfd_addresses wans in
    record {
      hostname = cfg.hostname;
      static_routes = if use_ecmp then [] else static_hops wans;
      ecmp = use_ecmp;
      ecmp_next_hops = if use_ecmp then ecmp_hops wans else [];
      pbr = not (is_empty cfg.pbr);
      pbr_maps = maps;
      pbr_interfaces =
          if is_empty cfg.pbr then [] else pbr_attachments (not (is_empty maps)) cfg.interfaces;
      bfd = not (is_empty peers);
      bfd_peers = peers;
    }
