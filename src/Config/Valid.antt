-- ===== src/Config/Valid.antt =====
-- internal/config/validate.go: the configurations that Validate accepts.
mod Checks
mod OneInterface
pub mod Interfaces
pub mod Services
pub mod Policies
pub mod Rules
pub mod Subnets
use warp_router.Prelude.{
  String, string_eq, List, [], ◌∷◌, map, ◌≡◌, ◌≢◌, ◌↔◌, refl, All, Distinct, arith, text_iff, ◌==◌,
}
use warp_router.Config.{Interface, SiteConfig}
use warp_router.Config.Errors.{ConfigError}
use warp_router.Config.Validate.{validate}
use warp_router.Config.Validate.Interfaces.{validate_required}
use warp_router.Net.{Net}
use Checks.{Passes, Passes-append}
use Interfaces.{AreValidInterfaces, validate_interfaces_iff}
use Services.{IsValidDhcp, IsValidDns, validate_dhcp_iff, validate_dns_iff}
use Policies.{IsValidFirewallOption, validate_firewall_iff}
use Rules.{IsValidRule, validate_pbr_iff}
use Subnets.{AreApart, validate_subnet_overlaps_iff}

-- A configuration that can be applied.
pub record IsValidConfig (net : Net) (cfg : SiteConfig) : Type 0 where
  pub named : cfg.hostname ≢ ""
  pub interfaces : AreValidInterfaces net cfg.interfaces
  pub subnets : AreApart net cfg.interfaces
  pub dhcp : IsValidDhcp net cfg.interfaces cfg.dhcp
  pub dns : IsValidDns net cfg.dns
  pub firewall : IsValidFirewallOption cfg.interfaces cfg.firewall
  pub rules : All (IsValidRule net cfg.interfaces) cfg.pbr
  pub priorities : Distinct (map (λ rule. rule.priority) cfg.pbr)

-- At least one interface is what validateInterfaces implies too.
abbrev IsInhabited : List Interface → Type 0
IsInhabited [] = ⊥
IsInhabited (iface ∷ ifaces) = Unit

required_iff :
    (name : String) (ifaces : List Interface) (cfg : SiteConfig)
    → cfg.hostname ≡ name
    → cfg.interfaces ≡ ifaces
    → Passes (validate_required cfg) ↔ ((name ≢ "") × IsInhabited ifaces)
unfolding validate_required
required_iff name [] cfg e f = ground (arith, text_iff cfg.hostname "")
required_iff name (iface ∷ ifaces) cfg e f =
    ground (arith, text_iff cfg.hostname "", text_iff name "")

inhabited :
    (net : Net) (ifaces : List Interface) → AreValidInterfaces net ifaces → IsInhabited ifaces
inhabited net [] v = absurd v.wan
inhabited net (iface ∷ ifaces) v = tt

-- Validate returns no error exactly for the valid configurations: a hostname; valid interfaces with
-- names and devices that stand once, a WAN and a LAN among them; no two interfaces of which one's
-- network holds the base address of the other's; valid DHCP settings, with pools inside their
-- subnets, and valid DNS settings, where these are switched on; a firewall that names its
-- interfaces, zones and actions right; and PBR rules that are valid, with priorities that stand
-- once.
pub validate_iff : (net : Net) (cfg : SiteConfig) → (validate net cfg ≡ []) ↔ IsValidConfig net cfg
unfolding validate
validate_iff net cfg =
    let ifaces = cfg.interfaces in
    let (to, from) = Passes-append (required_iff cfg.hostname ifaces cfg refl refl) (
      Passes-append (validate_interfaces_iff net ifaces) (
        Passes-append (validate_subnet_overlaps_iff net ifaces) (
          Passes-append (validate_dhcp_iff net ifaces cfg.dhcp) (
            Passes-append (validate_dns_iff net cfg.dns) (
              Passes-append (validate_firewall_iff ifaces cfg.firewall)
                (validate_pbr_iff net ifaces cfg.pbr)))))) in
    (
      λ h.
          let (
            (named, _),
            (interfaces, (subnets, (dhcp, (dns, (firewall, (rules, priorities)))))),
          ) =
            to h in
          record {
            named = named;
            interfaces = interfaces;
            subnets = subnets;
            dhcp = dhcp;
            dns = dns;
            firewall = firewall;
            rules = rules;
            priorities = priorities;
          },
      λ v. from (
        (v.named, inhabited net ifaces v.interfaces),
        (v.interfaces, (v.subnets, (v.dhcp, (v.dns, (v.firewall, (v.rules, v.priorities)))))),
      ),
    )
