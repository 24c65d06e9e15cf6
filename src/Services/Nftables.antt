-- ===== src/Services/Nftables.antt =====
-- internal/services/nftables/nftables.go: the rules that Render puts into nftables.conf.
pub mod Template
pub mod Zones
use warp_router.Prelude.{
  String, string_eq, Bool, true, false, not, ◌&&◌, Option, none, some, List, [], ◌∷◌, ◌++◌, map,
  lookup, insert, concat, join, if◌then◌else◌, ◌==◌,
}
use warp_router.Config.{Interface, FirewallZone, ForwardRule, InputRule, Firewall, SiteConfig}
use warp_router.Failover.Controller.{interfaces_by_name}

pub record NftRule : Type 0 where
  pub rule : String
  pub comment : String

-- A masquerade rule is its device.
pub record NftData : Type 0 where
  pub input_rules : List NftRule
  pub forward_rules : List NftRule
  pub masquerade_rules : List String

abbrev pub ZoneDevices : Type 0
ZoneDevices = List (String × List String)

-- zoneDevices[zone]: a missing zone has no devices.
abbrev pub devices_in : String → ZoneDevices → List String
devices_in zone m = elim (lookup zone m) [ none ↦ [] | some devices ↦ devices ]

-- The loops that build zoneDevices.
unfoldable pub add_zone :
    List (String × Interface) → String → List String → ZoneDevices → ZoneDevices
add_zone by_name zone [] m = m
add_zone by_name zone (name ∷ names) m = add_zone by_name zone names (elim (lookup name by_name) [
  | none ↦ m
  | some iface ↦ insert zone (devices_in zone m ++ iface.device ∷ []) m
])

unfoldable pub zone_devices :
    List (String × Interface) → List FirewallZone → ZoneDevices → ZoneDevices
unfolding add_zone
zone_devices by_name [] m = m
zone_devices by_name (zone ∷ zones) m =
    zone_devices by_name zones (add_zone by_name zone.name zone.interfaces m)

-- A part that is written only if its text is not empty.
abbrev optional : String → String → List String
optional s part = if s == "" then [] else part ∷ []

abbrev port_part : String → String → List String
port_part protocol port =
    if not (port == "") && not (protocol == "")
    then concat (protocol ∷ " dport " ∷ port ∷ []) ∷ []
    else []

abbrev quoted : String → String → String
quoted key device = concat (key ∷ " \"" ∷ device ∷ "\"" ∷ [])

-- The parts of a forward rule, in their order.
unfoldable pub forward_parts : String → String → ForwardRule → List String
forward_parts from_dev to_dev rule =
    quoted "iifname" from_dev
    ∷ quoted "oifname" to_dev
    ∷ (optional rule.protocol (concat ("ip protocol " ∷ rule.protocol ∷ []))
        ++ (port_part rule.protocol rule.port
            ++ (optional rule.source (concat ("ip saddr " ∷ rule.source ∷ []))
                ++ (optional rule.dest (concat ("ip daddr " ∷ rule.dest ∷ []))
                    ++ rule.action ∷ []))))

-- buildForwardRule
unfoldable pub build_forward_rule : String → String → ForwardRule → NftRule
unfolding forward_parts
build_forward_rule from_dev to_dev rule = record {
  rule = join " " (forward_parts from_dev to_dev rule);
  comment = concat (rule.from ∷ " → " ∷ rule.to ∷ ": " ∷ rule.action ∷ []);
}

unfoldable pub input_parts : String → InputRule → List String
input_parts dev rule =
    quoted "iifname" dev
    ∷ (optional rule.protocol (concat ("ip protocol " ∷ rule.protocol ∷ []))
        ++ (port_part rule.protocol rule.port
            ++ (optional rule.source (concat ("ip saddr " ∷ rule.source ∷ []))
                ++ rule.action ∷ [])))

-- buildInputRule
unfoldable pub build_input_rule : String → InputRule → NftRule
unfolding input_parts
build_input_rule dev rule = record {
  rule = join " " (input_parts dev rule);
  comment = concat ("input from " ∷ rule.zone ∷ " zone" ∷ []);
}

-- The inner loops over the devices of the two zones.
unfoldable pub rules_to : ForwardRule → String → List String → List NftRule
unfolding build_forward_rule
rules_to rule from_dev [] = []
rules_to rule from_dev (to_dev ∷ to_devs) =
    build_forward_rule from_dev to_dev rule ∷ rules_to rule from_dev to_devs

unfoldable pub rules_from : ForwardRule → List String → List String → List NftRule
unfolding rules_to
rules_from rule [] to_devs = []
rules_from rule (from_dev ∷ from_devs) to_devs =
    rules_to rule from_dev to_devs ++ rules_from rule from_devs to_devs

unfoldable pub forward_rules : ZoneDevices → List ForwardRule → List NftRule
unfolding rules_from
forward_rules zones [] = []
forward_rules zones (rule ∷ rules) =
    rules_from rule (devices_in rule.from zones) (devices_in rule.to zones)
    ++ forward_rules zones rules

unfoldable pub input_rules_on : InputRule → List String → List NftRule
unfolding build_input_rule
input_rules_on rule [] = []
input_rules_on rule (dev ∷ devs) = build_input_rule dev rule ∷ input_rules_on rule devs

unfoldable pub input_rules : ZoneDevices → List InputRule → List NftRule
unfolding input_rules_on
input_rules zones [] = []
input_rules zones (rule ∷ rules) =
    input_rules_on rule (devices_in rule.zone zones) ++ input_rules zones rules

-- With no firewall, all traffic from the LAN interfaces is forwarded.
unfoldable pub lan_rules : List Interface → List NftRule
lan_rules [] = []
lan_rules (iface ∷ ifaces) =
    let rest = lan_rules ifaces in
    if iface.role == "lan"
    then record {
      rule = concat (quoted "iifname" iface.device ∷ " accept" ∷ []);
      comment = concat ("Allow all from " ∷ iface.name ∷ " (LAN)" ∷ []);
    }
      ∷ rest
    else rest

unfoldable pub masquerade_devices : List Interface → List String
masquerade_devices [] = []
masquerade_devices (iface ∷ ifaces) =
    let rest = masquerade_devices ifaces in
    if iface.role == "wan" then iface.device ∷ rest else rest

unfoldable pub firewall_data : List Interface → Option Firewall → NftData
unfolding interfaces_by_name zone_devices forward_rules input_rules lan_rules masquerade_devices
firewall_data ifaces none = record {
  input_rules = [];
  forward_rules = lan_rules ifaces;
  masquerade_rules = masquerade_devices ifaces;
}
firewall_data ifaces (some fw) =
    let zones = zone_devices (interfaces_by_name ifaces []) fw.zones [] in
    record {
      input_rules = input_rules zones fw.input_rules;
      forward_rules = forward_rules zones fw.forward_rules;
      masquerade_rules = masquerade_devices ifaces;
    }

-- The part of Render before the template.
unfoldable pub nft_data : SiteConfig → NftData
unfolding firewall_data
nft_data cfg = firewall_data cfg.interfaces cfg.firewall
