-- ===== src/Config/Validate/Interfaces.antt =====
-- internal/config/validate.go: validateRequired, validateInterfaces and validateSubnetOverlaps.
use warp_router.Prelude.{
  ℕ, ◌+◌, pos, ltb_ℤ, String, string_eq, Bool, true, false, not, ◌&&◌, ◌||◌, Option, none, some,
  List, [], ◌∷◌, ◌++◌, insert, has, is_some, contains_code, if◌then◌else◌, ◌==◌,
}
use warp_router.Config.{Interface, SiteConfig}
use warp_router.Config.Errors.{
  ConfigError, hostname_required, interface_required, name_required, duplicate_name,
  device_required, duplicate_device, bad_role, address_required, invalid_address, invalid_gateway,
  vlan_out_of_range, vlan_device_not_dotted, wan_required, lan_required, overlapping_subnets,
}
use warp_router.Net.{IpNet, Net, contains}

-- The error of a check, if the check fails.
abbrev pub error_if : Bool → ConfigError → List ConfigError
error_if failed e = if failed then e ∷ [] else []

abbrev no_interfaces : List Interface → Bool
no_interfaces [] = true
no_interfaces (_ ∷ _) = false

-- validateRequired
unfoldable pub validate_required : SiteConfig → List ConfigError
validate_required cfg =
    error_if (cfg.hostname == "") hostname_required
    ++ error_if (no_interfaces cfg.interfaces) interface_required

-- What the loop of validateInterfaces remembers.
pub record Scan : Type 0 where
  pub names : List (String × Bool)
  pub devices : List (String × Bool)
  pub has_wan : Bool
  pub has_lan : Bool

abbrev pub parses_cidr : Net → String → Bool
parses_cidr net s = is_some (net.parse_cidr s)

abbrev pub parses_ip : Net → String → Bool
parses_ip net s = is_some (net.parse_ip s)

unfoldable pub name_errors : ℕ → Interface → Scan → List ConfigError
name_errors i iface scan =
    if iface.name == ""
    then name_required i ∷ []
    else error_if (has iface.name scan.names) (duplicate_name i iface.name)

unfoldable pub device_errors : ℕ → Interface → Scan → List ConfigError
device_errors i iface scan =
    if iface.device == ""
    then device_required i iface.name ∷ []
    else error_if (has iface.device scan.devices) (duplicate_device i iface.name iface.device)

unfoldable pub role_errors : ℕ → Interface → List ConfigError
role_errors i iface =
    error_if (not (iface.role == "wan" || iface.role == "lan")) (bad_role i iface.name iface.role)

unfoldable pub address_errors : Net → ℕ → Interface → List ConfigError
address_errors net i iface =
    if iface.address == ""
    then address_required i iface.name ∷ []
    else if not (iface.address == "dhcp")
    then error_if (not (parses_cidr net iface.address)) (invalid_address i iface.name iface.address)
    else []

unfoldable pub gateway_errors : Net → ℕ → Interface → List ConfigError
gateway_errors net i iface =
    if not (iface.gateway == "")
    then error_if (not (parses_ip net iface.gateway)) (invalid_gateway i iface.name iface.gateway)
    else []

unfoldable pub vlan_errors : ℕ → Interface → List ConfigError
vlan_errors i iface =
    error_if (ltb_ℤ iface.vlan (pos 0) || ltb_ℤ (pos 4094) iface.vlan)
      (vlan_out_of_range i iface.name iface.vlan)
    ++ error_if (ltb_ℤ (pos 0) iface.vlan && not (contains_code b'.' iface.device))
        (vlan_device_not_dotted i iface.name iface.vlan)

-- The body of the loop: its errors and what it remembers.
unfoldable pub interface_errors : Net → ℕ → Interface → Scan → List ConfigError
unfolding name_errors device_errors role_errors address_errors gateway_errors vlan_errors
interface_errors net i iface scan =
    name_errors i iface scan
    ++ (device_errors i iface scan
        ++ (role_errors i iface
            ++ (address_errors net i iface ++ (gateway_errors net i iface ++ vlan_errors i iface))))

abbrev pub remember : String → List (String × Bool) → List (String × Bool)
remember s m = if s == "" || has s m then m else insert s true m

unfoldable pub next_scan : Interface → Scan → Scan
next_scan iface scan = record {
  names = remember iface.name scan.names;
  devices = remember iface.device scan.devices;
  has_wan = iface.role == "wan" || scan.has_wan;
  has_lan = iface.role == "lan" || scan.has_lan;
}

-- The loop from the i-th interface on, and the two checks after it.
unfoldable pub validate_from : Net → ℕ → List Interface → Scan → List ConfigError
unfolding interface_errors next_scan
validate_from net i [] scan =
    error_if (not scan.has_wan) wan_required ++ error_if (not scan.has_lan) lan_required
validate_from net i (iface ∷ ifaces) scan =
    interface_errors net i iface scan ++ validate_from net (i + 1) ifaces (next_scan iface scan)

-- validateInterfaces
unfoldable pub validate_interfaces : Net → List Interface → List ConfigError
unfolding validate_from
validate_interfaces net ifaces =
    validate_from net 0 ifaces
      (record { names = []; devices = []; has_wan = false; has_lan = false })

pub record NamedNet : Type 0 where
  pub name : String
  pub net : IpNet

abbrev pub named_net : Net → Interface → Option NamedNet
named_net net iface =
    if not (iface.address == "") && not (iface.address == "dhcp")
    then elim (net.parse_cidr iface.address) [
      | none ↦ none
      | some (_, ipnet) ↦ some (record { name = iface.name; net = ipnet })
    ]
    else none

abbrev pub keep : Option NamedNet → List NamedNet → List NamedNet
keep none ns = ns
keep (some n) ns = n ∷ ns

-- The first loop of validateSubnetOverlaps.
unfoldable pub named_nets : Net → List Interface → List NamedNet
named_nets net [] = []
named_nets net (iface ∷ ifaces) = keep (named_net net iface) (named_nets net ifaces)

abbrev pub overlaps : NamedNet → NamedNet → Bool
overlaps a b = contains a.net b.net.ip || contains b.net a.net.ip

unfoldable pub overlaps_with : NamedNet → List NamedNet → List ConfigError
overlaps_with a [] = []
overlaps_with a (b ∷ ns) =
    error_if (overlaps a b) (overlapping_subnets a.name a.net b.name b.net) ++ overlaps_with a ns

unfoldable pub overlap_errors : List NamedNet → List ConfigError
unfolding overlaps_with
overlap_errors [] = []
overlap_errors (a ∷ ns) = overlaps_with a ns ++ overlap_errors ns

-- validateSubnetOverlaps
unfoldable pub validate_subnet_overlaps : Net → List Interface → List ConfigError
unfolding named_nets overlap_errors
validate_subnet_overlaps net ifaces = overlap_errors (named_nets net ifaces)
