-- ===== src/Services/Unbound.antt =====
-- internal/services/unbound/unbound.go: Render.
use warp_router.Prelude.{
  String, string_eq, Bool, false, not, ◌&&◌, Option, none, some, List, [], ◌∷◌, concat, concat_map,
  if◌then◌else◌, ◌==◌,
}
use warp_router.Config.{Interface, DnsConfig, SiteConfig}
use warp_router.Net.{Ip, IpNet, Net}

pub record UnboundData : Type 0 where
  pub listen_addresses : List String
  pub allow_from : List String
  pub forwarders : List String

-- The address of a LAN interface that is not left to DHCP, if it parses.
unfoldable pub lan_address : Net → Interface → Option (Ip × IpNet)
lan_address net iface =
    if iface.role == "lan" && not (iface.address == "") && not (iface.address == "dhcp")
    then net.parse_cidr iface.address
    else none

-- The loop over the interfaces: their addresses, and their networks.
unfoldable pub lan_addresses : Net → List Interface → List String
unfolding lan_address
lan_addresses net [] = []
lan_addresses net (iface ∷ ifaces) =
    let rest = lan_addresses net ifaces in
    elim (lan_address net iface) [ none ↦ rest | some (ip, _) ↦ net.ip_to_string ip ∷ rest ]

unfoldable pub lan_subnets : Net → List Interface → List String
unfolding lan_address
lan_subnets net [] = []
lan_subnets net (iface ∷ ifaces) =
    let rest = lan_subnets net ifaces in
    elim (lan_address net iface) [ none ↦ rest | some (_, ipnet) ↦ net.net_to_string ipnet ∷ rest ]

-- A setting of the configuration, if it has entries.
abbrev pub or_default : List String → List String → List String
or_default [] d = d
or_default (x ∷ xs) d = x ∷ xs

abbrev pub of_dns {ℓ} : {A : Type ℓ} → (DnsConfig → List A) → Option DnsConfig → List A
of_dns f none = []
of_dns f (some dns) = f dns

-- The part of Render before the template.
unfoldable pub unbound_data : Net → SiteConfig → UnboundData
unfolding lan_addresses lan_subnets
unbound_data net cfg = record {
  listen_addresses =
      or_default (of_dns (λ d. d.listen) cfg.dns)
        ("127.0.0.1" ∷ "::1" ∷ lan_addresses net cfg.interfaces);
  allow_from = or_default (of_dns (λ d. d.allow_from) cfg.dns) (lan_subnets net cfg.interfaces);
  forwarders = of_dns (λ d. d.forwarders) cfg.dns;
}

abbrev fixed_options : String
fixed_options = concat (
    "\n\n    # Performance\n" ∷ "    num-threads: 2\n" ∷ "    msg-cache-slabs: 4\n"
    ∷ "    rrset-cache-slabs: 4\n" ∷ "    infra-cache-slabs: 4\n" ∷ "    key-cache-slabs: 4\n"
    ∷ "    msg-cache-size: 64m\n" ∷ "    rrset-cache-size: 128m\n" ∷ "\n"
    ∷ "    # Privacy and security\n" ∷ "    hide-identity: yes\n" ∷ "    hide-version: yes\n"
    ∷ "    harden-glue: yes\n" ∷ "    harden-dnssec-stripped: yes\n"
    ∷ "    harden-referral-path: yes\n" ∷ "    use-caps-for-id: yes\n" ∷ "\n" ∷ "    # Prefetch\n"
    ∷ "    prefetch: yes\n" ∷ "    prefetch-key: yes\n" ∷ "\n" ∷ "    # Root hints\n"
    ∷ "    root-hints: \"/usr/share/dns/root.hints\"" ∷ [])

abbrev resolution : List String → String
resolution [] = concat (
    "\n\n    # Full recursion mode with DNSSEC validation\n"
    ∷ "    auto-trust-anchor-file: \"/var/lib/unbound/root.key\"" ∷ [])
resolution (f ∷ fs) = concat (
    "\n\n    # Forwarding mode — upstream handles DNSSEC validation\n"
    ∷ "    module-config: \"iterator\"\n"
    ∷ "\n"
    ∷ "forward-zone:\n"
    ∷ "    name: \".\""
    ∷ concat_map (λ a. concat ("\n    forward-addr: " ∷ a ∷ [])) (f ∷ fs)
    ∷ [])

-- unboundConfTemplate
unfoldable pub unbound_template : UnboundData → String
unbound_template d = concat (
    "# Warp Router — Unbound DNS resolver configuration\n"
    ∷ "# Generated by 'warp apply'. Do not edit manually.\n"
    ∷ "\n"
    ∷ "server:\n"
    ∷ "    verbosity: 1"
    ∷ concat_map (λ a. concat ("\n    interface: " ∷ a ∷ [])) d.listen_addresses
    ∷ "\n\n    # Access control\n"
    ∷ "    access-control: 127.0.0.0/8 allow\n"
    ∷ "    access-control: ::1/128 allow"
    ∷ concat_map (λ a. concat ("\n    access-control: " ∷ a ∷ " allow" ∷ [])) d.allow_from
    ∷ fixed_options
    ∷ resolution d.forwarders
    ∷ "\n"
    ∷ [])

abbrev switched_off : Option DnsConfig → Bool
switched_off none = false
switched_off (some dns) = not dns.enabled

-- Render
unfoldable pub render : Net → SiteConfig → String
unfolding unbound_data unbound_template
render net cfg =
    if switched_off cfg.dns
    then "# Warp Router — DNS disabled by configuration.\n"
    else unbound_template (unbound_data net cfg)
