-- ===== src/Config/Valid/Services.antt =====
-- internal/config/validate.go: which DHCP, DNS, firewall and PBR settings pass.
use mathlib.Core.Path.{subst}
use warp_router.Prelude.{
  ℕ, int_eq, String, string_eq, Bool, true, false, not, ◌&&◌, ◌||◌, Option, none, some, List, [],
  ◌∷◌, map, ◌≡◌, ◌≢◌, ◌↔◌, ◌⊎◌, inl, inr, refl, ap, lookup, insert, has, lookup-insert, member, All,
  Any, sym, arith, text_iff, if◌then◌else◌, ◌==◌,
}
use warp_router.Config.{Interface, DhcpSubnet, DhcpConfig, DnsConfig}
use warp_router.Config.Errors
use warp_router.Config.Errors.{ConfigError}
use warp_router.Config.Validate.Interfaces.{error_if, parses_cidr, parses_ip}
use warp_router.Config.Validate.Services.{
  Names, interface_names, each, inside, pool_errors, subnet_errors, validate_dhcp, validate_dns,
}
use warp_router.Config.Valid.Checks.{
  IsIp, IsCidr, parses_ip_iff, parses_cidr_iff, iff_trans, and_iff, Passes, Passes-append,
  Passes-each,
}
use warp_router.Net.{Ip, IpNet, Net, contains}

-- An interface of the configuration has the name.
abbrev pub IsDefined : List Interface → String → Type 0
IsDefined ifaces name = Any (λ iface. iface.name ≡ name) ifaces

pub member-map_iff :
    {A : Type 0} (name_of : A → String) (name : String) (xs : List A)
    → (member name (map name_of xs) ≡ true) ↔ Any (λ x. name_of x ≡ name) xs
member-map_iff name_of name [] = (λ h. cc, λ h. absurd h)
member-map_iff name_of name (x ∷ xs) =
    ground (arith, member-map_iff name_of name xs, text_iff (name_of x) name)

interface_names-member :
    (name : String) (ifaces : List Interface) (names : Names)
    → has name (interface_names ifaces names)
      ≡ (has name names || member name (map (λ iface. iface.name) ifaces))
unfolding interface_names
interface_names-member name [] names = ground arith
interface_names-member name (iface ∷ ifaces) names = ground (
  arith,
  interface_names-member name ifaces (insert iface.name true names),
  lookup-insert iface.name name true names,
)

pub IsDefined-iff :
    (ifaces : List Interface) (name : String)
    → (has name (interface_names ifaces []) ≡ true) ↔ IsDefined ifaces name
unfolding lookup
IsDefined-iff ifaces name =
    let listed : has name (interface_names ifaces [])
        ≡ member name (map (λ iface. iface.name) ifaces) =
      interface_names-member name ifaces [] in
    rw listed (member-map_iff (λ iface. iface.name) name ifaces)

-- A reference to an interface, which may be left out.
pub optional_iff :
    (ifaces : List Interface) (name : String) (e : ConfigError)
    → Passes (error_if (not (name == "") && not (has name (interface_names ifaces []))) e)
      ↔ ((name ≡ "") ⊎ IsDefined ifaces name)
optional_iff ifaces name e = ground (arith, text_iff name "", IsDefined-iff ifaces name)

-- An address of a pool: written, an IP, and inside the subnet.
abbrev pub InPool : Net → DhcpSubnet → String → Type 0
InPool net sub address =
    (address ≢ "")
    × ((ip : Ip) × (net.parse_ip address ≡ some ip)
        × ((base : Ip) × (network : IpNet) × (net.parse_cidr sub.subnet ≡ some (base, network))
            × (contains network ip ≡ true)))

pub record IsValidSubnet (net : Net) (ifaces : List Interface) (sub : DhcpSubnet) : Type 0 where
  pub valid_subnet : IsCidr net sub.subnet
  pub valid_interface : (sub.interface ≡ "") ⊎ IsDefined ifaces sub.interface
  pub start_inside : InPool net sub sub.pool_start
  pub end_inside : InPool net sub sub.pool_end
  pub valid_gateway : (sub.gateway ≢ "") × IsIp net sub.gateway
  pub valid_servers : All (IsIp net) sub.dns_servers

pool_cases :
    (blank : Bool) (o : Option Ip) (good : Ip → Bool) (required invalid outside : ConfigError)
    → Passes (
        if blank then required ∷ [] else elim o as (λ _. List ConfigError) [
          | none ↦ invalid ∷ []
          | some ip ↦ error_if (not (good ip)) outside
        ])
      ↔ ((blank ≡ false) × ((ip : Ip) × (o ≡ some ip) × (good ip ≡ true)))
pool_cases blank none good required invalid outside = (λ h. ground arith, λ (b, (ip, e, g)). cc)
pool_cases blank (some ip) good required invalid outside = (
  λ h. (ground arith, (ip, refl, ground arith)),
  λ (b, (j, e, g)). let same : ip ≡ j = cc in ground (arith, ap good same),
)

pub blank_iff : (s : String) → ((s == "") ≡ false) ↔ (s ≢ "")
blank_iff s = ground (arith, text_iff s "")

-- The code's test of an address of the pool.
abbrev IsPooled : Net → DhcpSubnet → String → Type 0
IsPooled net sub address =
    (address ≢ "")
    × ((ip : Ip) × (net.parse_ip address ≡ some ip)
        × (inside (net.parse_cidr sub.subnet) ip ≡ true))

InPool-of_IsPooled :
    (net : Net) (sub : DhcpSubnet) (address : String)
    → IsCidr net sub.subnet
    → IsPooled net sub address
    → InPool net sub address
InPool-of_IsPooled net sub address ((base, network), e) (ne, (ip, read, within)) =
    let holds : contains network ip ≡ true =
      subst (λ (o : Option (Ip × IpNet)). inside o ip ≡ true) e within in
    (ne, (ip, read, (base, network, e, holds)))

IsPooled-of_InPool :
    (net : Net) (sub : DhcpSubnet) (address : String)
    → InPool net sub address
    → IsPooled net sub address
IsPooled-of_InPool net sub address (ne, (ip, read, (base, network, e, holds))) =
    (ne, (ip, read, subst (λ (o : Option (Ip × IpNet)). inside o ip ≡ true) (sym e) holds))

pool_iff :
    (net : Net) (sub : DhcpSubnet) (address : String) (required invalid outside : ConfigError)
    → Passes (pool_errors net (net.parse_cidr sub.subnet) address required invalid outside)
      ↔ IsPooled net sub address
unfolding pool_errors
pool_iff net sub address required invalid outside =
    let (to, from) =
      pool_cases (address == "") (net.parse_ip address) (inside (net.parse_cidr sub.subnet))
        required invalid outside in
    let (ne, eq) = blank_iff address in
    (λ h. let (b, rest) = to h in (ne b, rest), λ (b, rest). from (eq b, rest))

required-IsIp_iff :
    (net : Net) (s : String) (e f : ConfigError)
    → Passes (if s == "" then e ∷ [] else error_if (not (parses_ip net s)) f)
      ↔ ((s ≢ "") × IsIp net s)
required-IsIp_iff net s e f =
    let checks : Passes (if s == "" then e ∷ [] else error_if (not (parses_ip net s)) f)
        ↔ ((s ≢ "") × (parses_ip net s ≡ true)) =
      ground (arith, text_iff s "") in
    iff_trans checks (and_iff (parses_ip_iff net s))

pub not_iff : (b : Bool) (e : ConfigError) → Passes (error_if (not b) e) ↔ (b ≡ true)
not_iff b e = ground arith

IsIp-iff :
    (net : Net) (s : String) (e : ConfigError)
    → Passes (error_if (not (parses_ip net s)) e) ↔ IsIp net s
IsIp-iff net s e = iff_trans (not_iff (parses_ip net s) e) (parses_ip_iff net s)

IsCidr-iff :
    (net : Net) (s : String) (e : ConfigError)
    → Passes (error_if (not (parses_cidr net s)) e) ↔ IsCidr net s
IsCidr-iff net s e = iff_trans (not_iff (parses_cidr net s) e) (parses_cidr_iff net s)

subnet_iff :
    (net : Net) (ifaces : List Interface) (i : ℕ) (sub : DhcpSubnet)
    → Passes (subnet_errors net (interface_names ifaces []) i sub) ↔ IsValidSubnet net ifaces sub
unfolding subnet_errors
subnet_iff net ifaces i sub =
    let (to, from) =
      Passes-append (IsCidr-iff net sub.subnet (Errors.invalid_subnet i sub.subnet)) (
        Passes-append
          (optional_iff ifaces sub.interface (Errors.subnet_interface_undefined i sub.interface))
          (Passes-append
            (pool_iff net sub sub.pool_start (Errors.pool_start_required i)
              (Errors.invalid_pool_start i sub.pool_start)
              (Errors.pool_start_outside i sub.pool_start sub.subnet))
            (Passes-append
              (pool_iff net sub sub.pool_end (Errors.pool_end_required i)
                (Errors.invalid_pool_end i sub.pool_end)
                (Errors.pool_end_outside i sub.pool_end sub.subnet))
              (Passes-append
                (required-IsIp_iff net sub.gateway (Errors.subnet_gateway_required i)
                  (Errors.invalid_subnet_gateway i sub.gateway))
                (Passes-each {P = IsIp net}
                  (λ j dns. error_if (not (parses_ip net dns)) (Errors.invalid_dns_server i j dns))
                  (λ j dns. IsIp-iff net dns (Errors.invalid_dns_server i j dns)) 0
                  sub.dns_servers))))) in
    (
      λ h.
          let (subnet, (interface, (start, (end, (gateway, servers))))) = to h in
          record {
            valid_subnet = subnet;
            valid_interface = interface;
            start_inside = InPool-of_IsPooled net sub sub.pool_start subnet start;
            end_inside = InPool-of_IsPooled net sub sub.pool_end subnet end;
            valid_gateway = gateway;
            valid_servers = servers;
          },
      λ v. from (
        v.valid_subnet,
        (
          v.valid_interface,
          (
            IsPooled-of_InPool net sub sub.pool_start v.start_inside,
            (
              IsPooled-of_InPool net sub sub.pool_end v.end_inside,
              (v.valid_gateway, v.valid_servers),
            ),
          ),
        ),
      ),
    )

-- A DHCP server that is switched on has valid subnets.
abbrev pub IsValidDhcp : Net → List Interface → Option DhcpConfig → Type 0
IsValidDhcp net ifaces none = Unit
IsValidDhcp net ifaces (some dhcp) =
    (dhcp.enabled ≡ false) ⊎ All (IsValidSubnet net ifaces) dhcp.subnets

switched_iff :
    {P : Type 0} (on : Bool) (errs : List ConfigError)
    → Passes errs ↔ P
    → Passes (if not on then [] else errs) ↔ ((on ≡ false) ⊎ P)
switched_iff true errs (to, from) = (λ h. inr (to h), elim [ inl e ↦ cc | inr p ↦ from p ])
switched_iff false errs (to, from) = (λ h. inl refl, λ h. refl)

pub validate_dhcp_iff :
    (net : Net) (ifaces : List Interface) (dhcp : Option DhcpConfig)
    → Passes (validate_dhcp net ifaces dhcp) ↔ IsValidDhcp net ifaces dhcp
unfolding validate_dhcp
validate_dhcp_iff net ifaces none = (λ h. tt, λ h. refl)
validate_dhcp_iff net ifaces (some dhcp) =
    switched_iff dhcp.enabled (each (subnet_errors net (interface_names ifaces [])) 0 dhcp.subnets)
      (Passes-each (subnet_errors net (interface_names ifaces [])) (subnet_iff net ifaces) 0
        dhcp.subnets)

-- A resolver that is switched on has valid forwarders and networks.
abbrev pub IsValidDns : Net → Option DnsConfig → Type 0
IsValidDns net none = Unit
IsValidDns net (some dns) =
    (dns.enabled ≡ false) ⊎ (All (IsIp net) dns.forwarders × All (IsCidr net) dns.allow_from)

pub validate_dns_iff :
    (net : Net) (dns : Option DnsConfig) → Passes (validate_dns net dns) ↔ IsValidDns net dns
unfolding validate_dns
validate_dns_iff net none = (λ h. tt, λ h. refl)
validate_dns_iff net (some dns) = switched_iff dns.enabled _ (
    Passes-append
      (Passes-each {P = IsIp net}
        (λ i fwd. error_if (not (parses_ip net fwd)) (Errors.invalid_forwarder i fwd))
        (λ i fwd. IsIp-iff net fwd (Errors.invalid_forwarder i fwd)) 0 dns.forwarders)
      (Passes-each {P = IsCidr net}
        (λ i cidr. error_if (not (parses_cidr net cidr)) (Errors.invalid_allow_from i cidr))
        (λ i cidr. IsCidr-iff net cidr (Errors.invalid_allow_from i cidr)) 0 dns.allow_from))
