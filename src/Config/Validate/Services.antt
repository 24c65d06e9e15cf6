-- ===== src/Config/Validate/Services.antt =====
-- internal/config/validate.go: validateDHCP, validateDNS, validateFirewall and validatePBR.
use warp_router.Prelude.{
  ℕ, ◌+◌, ℤ, int_eq, String, string_eq, Bool, true, not, ◌&&◌, ◌||◌, Option, none, some, List, [],
  ◌∷◌, ◌++◌, lookup, insert, has, is_some, lower_codes, codes, codes_beq, if◌then◌else◌, ◌==◌,
}
use warp_router.Config.{
  Interface, DhcpSubnet, DhcpConfig, DnsConfig, FirewallZone, ForwardRule, InputRule, Firewall,
  PbrRule,
}
use warp_router.Config.Errors.{
  ConfigError, invalid_subnet, subnet_interface_undefined, pool_start_required, pool_end_required,
  subnet_gateway_required, invalid_pool_start, invalid_pool_end, invalid_subnet_gateway,
  pool_start_outside, pool_end_outside, invalid_dns_server, invalid_forwarder, invalid_allow_from,
  zone_name_required, zone_interface_undefined, from_zone_undefined, to_zone_undefined,
  input_zone_undefined, bad_forward_action, bad_input_action, pbr_name_required,
  pbr_interface_undefined, pbr_source_invalid, duplicate_priority,
}
use warp_router.Config.Validate.Interfaces.{error_if, parses_cidr, parses_ip}
use warp_router.Net.{Ip, IpNet, Net, contains}

abbrev pub Names : Type 0
Names = List (String × Bool)

-- The loop of interfaceNames, from the names so far.
unfoldable pub interface_names : List Interface → Names → Names
interface_names [] names = names
interface_names (iface ∷ ifaces) names = interface_names ifaces (insert iface.name true names)

-- A loop over a slice with its index, whose body only adds errors.
abbrev pub each {ℓ} : {A : Type ℓ} → (ℕ → A → List ConfigError) → ℕ → List A → List ConfigError
each body i [] = []
each body i (x ∷ xs) = body i x ++ each body (i + 1) xs

-- An address of the pool: a network that did not parse is nil and checks nothing.
abbrev pub inside : Option (Ip × IpNet) → Ip → Bool
inside none ip = true
inside (some (_, subnet)) ip = contains subnet ip

-- The checks of pool_start and of pool_end, which differ in their errors.
unfoldable pub pool_errors :
    Net → Option (Ip × IpNet) → String → ConfigError → ConfigError → ConfigError → List ConfigError
pool_errors net subnet address required invalid outside =
    if address == "" then required ∷ [] else elim (net.parse_ip address) [
      | none ↦ invalid ∷ []
      | some ip ↦ error_if (not (inside subnet ip)) outside
    ]

unfoldable pub subnet_errors : Net → Names → ℕ → DhcpSubnet → List ConfigError
unfolding pool_errors
subnet_errors net names i sub =
    let parsed = net.parse_cidr sub.subnet in
    error_if (not (is_some parsed)) (invalid_subnet i sub.subnet)
    ++ (error_if (not (sub.interface == "") && not (has sub.interface names))
          (subnet_interface_undefined i sub.interface)
        ++ (pool_errors net parsed sub.pool_start (pool_start_required i)
              (invalid_pool_start i sub.pool_start) (pool_start_outside i sub.pool_start sub.subnet)
            ++ (pool_errors net parsed sub.pool_end (pool_end_required i)
                  (invalid_pool_end i sub.pool_end) (pool_end_outside i sub.pool_end sub.subnet)
                ++ ((if sub.gateway == ""
                      then subnet_gateway_required i ∷ []
                      else error_if (not (parses_ip net sub.gateway))
                          (invalid_subnet_gateway i sub.gateway))
                    ++ each
                        (λ j dns. error_if (not (parses_ip net dns)) (invalid_dns_server i j dns)) 0
                        sub.dns_servers))))

-- validateDHCP
unfoldable pub validate_dhcp : Net → List Interface → Option DhcpConfig → List ConfigError
unfolding interface_names subnet_errors
validate_dhcp net ifaces none = []
validate_dhcp net ifaces (some dhcp) =
    if not dhcp.enabled
    then []
    else each (subnet_errors net (interface_names ifaces [])) 0 dhcp.subnets

-- validateDNS
unfoldable pub validate_dns : Net → Option DnsConfig → List ConfigError
validate_dns net none = []
validate_dns net (some dns) =
    if not dns.enabled
    then []
    else each (λ i fwd. error_if (not (parses_ip net fwd)) (invalid_forwarder i fwd)) 0
        dns.forwarders
      ++ each (λ i cidr. error_if (not (parses_cidr net cidr)) (invalid_allow_from i cidr)) 0
          dns.allow_from

-- validateAction: whether it accepts the action, in any case of its letters.
unfoldable pub action_ok : String → Bool
action_ok action =
    codes_beq (lower_codes action) (codes "accept") || codes_beq (lower_codes action) (codes "drop")

unfoldable pub zone_errors : Names → ℕ → FirewallZone → List ConfigError
zone_errors names i zone =
    error_if (zone.name == "") (zone_name_required i)
    ++ each (λ j name. error_if (not (has name names)) (zone_interface_undefined i j name)) 0
        zone.interfaces

-- The zone names that the first loop of validateFirewall collects.
unfoldable pub zone_names : List FirewallZone → Names → Names
zone_names [] names = names
zone_names (zone ∷ zones) names =
    zone_names zones (if zone.name == "" then names else insert zone.name true names)

unfoldable pub forward_errors : Names → ℕ → ForwardRule → List ConfigError
unfolding action_ok
forward_errors zones i rule =
    error_if (not (has rule.from zones)) (from_zone_undefined i rule.from)
    ++ (error_if (not (has rule.to zones)) (to_zone_undefined i rule.to)
        ++ error_if (not (action_ok rule.action)) (bad_forward_action i rule.action))

unfoldable pub input_errors : Names → ℕ → InputRule → List ConfigError
unfolding action_ok
input_errors zones i rule =
    error_if (not (has rule.zone zones)) (input_zone_undefined i rule.zone)
    ++ error_if (not (action_ok rule.action)) (bad_input_action i rule.action)

-- validateFirewall
unfoldable pub validate_firewall : List Interface → Option Firewall → List ConfigError
unfolding interface_names zone_errors zone_names forward_errors input_errors
validate_firewall ifaces none = []
validate_firewall ifaces (some fw) =
    let zones = zone_names fw.zones [] in
    each (zone_errors (interface_names ifaces [])) 0 fw.zones
    ++ (each (forward_errors zones) 0 fw.forward_rules
        ++ each (input_errors zones) 0 fw.input_rules)

abbrev pub Priorities : Type 0
Priorities = List (ℤ × String)

abbrev pub priority_errors : ℕ → PbrRule → Option String → List ConfigError
priority_errors i rule none = []
priority_errors i rule (some existing) = duplicate_priority i rule.name rule.priority existing ∷ []

abbrev pub note_priority : PbrRule → Option String → Priorities → Priorities
note_priority rule none seen = insert rule.priority rule.name seen
note_priority rule (some _) seen = seen

unfoldable pub pbr_errors : Net → Names → Priorities → ℕ → PbrRule → List ConfigError
pbr_errors net names seen i rule =
    error_if (rule.name == "") (pbr_name_required i)
    ++ (error_if (not (rule.interface == "") && not (has rule.interface names))
          (pbr_interface_undefined i rule.name rule.interface)
        ++ (error_if (not (rule.source == "") && not (parses_cidr net rule.source))
              (pbr_source_invalid i rule.name rule.source)
            ++ priority_errors i rule (lookup rule.priority seen)))

unfoldable pub pbr_from : Net → Names → Priorities → ℕ → List PbrRule → List ConfigError
unfolding pbr_errors
pbr_from net names seen i [] = []
pbr_from net names seen i (rule ∷ rules) =
    pbr_errors net names seen i rule
    ++ pbr_from net names (note_priority rule (lookup rule.priority seen) seen) (i + 1) rules

-- validatePBR
unfoldable pub validate_pbr : Net → List Interface → List PbrRule → List ConfigError
unfolding interface_names pbr_from
validate_pbr net ifaces rules = pbr_from net (interface_names ifaces []) [] 0 rules
