-- ===== src/Services/Frr/Template.antt =====
-- internal/services/frr/frr.go: the template of frr.conf.
use warp_router.Prelude.{
  String, string_eq, [], ◌∷◌, concat, concat_map, show_nat, if◌then◌else◌, ◌==◌,
}
use warp_router.Config.{SiteConfig}
use warp_router.Services.Frr.{StaticRoute, EcmpNextHop, PbrMap, PbrInterface, FrrData, frr_data}

-- {{ if .Device }} {{ .Device }}{{ end }}
abbrev pub with_device : String → String
with_device device = if device == "" then "" else concat (" " ∷ device ∷ [])

abbrev pub header : String → String
header hostname = concat (
    "! Warp Router — FRR configuration\n" ∷ "! Generated by 'warp apply'. Do not edit manually.\n"
    ∷ "\n" ∷ "frr version 10\n" ∷ "frr defaults traditional\n" ∷ "\n" ∷ "hostname " ∷ hostname
    ∷ "\nlog syslog informational\n" ∷ "service integrated-vtysh-config\n" ∷ "!" ∷ [])

abbrev pub static_line : StaticRoute → String
static_line r = concat ("\nip route " ∷ r.prefix ∷ " " ∷ r.next_hop ∷ with_device r.device ∷ [])

abbrev pub ecmp_line : EcmpNextHop → String
ecmp_line hop = concat ("\nip route 0.0.0.0/0 " ∷ hop.next_hop ∷ " " ∷ hop.device ∷ [])

abbrev pub pbr_map_lines : PbrMap → String
pbr_map_lines m = concat (
    "\npbr-map "
    ∷ m.name
    ∷ " seq "
    ∷ show_nat m.seq
    ∷ "\n match src-ip "
    ∷ m.match_src
    ∷ "\n set nexthop "
    ∷ m.next_hop
    ∷ with_device m.device
    ∷ "\n!"
    ∷ [])

abbrev pub pbr_interface_lines : PbrInterface → String
pbr_interface_lines i =
    concat ("\ninterface " ∷ i.device ∷ "\n pbr-policy " ∷ i.map_name ∷ "\n!" ∷ [])

abbrev pub bfd_lines : String → String
bfd_lines address = concat (
    "\n peer " ∷ address ∷ "\n  detect-multiplier 3" ∷ "\n  receive-interval 300"
    ∷ "\n  transmit-interval 300" ∷ "\n !" ∷ [])

-- {{ if .ECMP }}
abbrev pub ecmp_part : FrrData → String
ecmp_part d =
    if d.ecmp
    then concat (
        "\n! ECMP default routes (FRR merges equal-cost routes automatically)"
        ∷ concat_map ecmp_line d.ecmp_next_hops
        ∷ [])
    else ""

-- {{ if .PBR }}
abbrev pub pbr_part : FrrData → String
pbr_part d =
    if d.pbr
    then concat (
        "\n! Policy-Based Routing"
        ∷ concat_map pbr_map_lines d.pbr_maps
        ∷ concat_map pbr_interface_lines d.pbr_interfaces
        ∷ [])
    else ""

-- {{ if .BFD }}
abbrev pub bfd_part : FrrData → String
bfd_part d =
    if d.bfd
    then concat
        ("\n!\n! BFD peers for WAN health\nbfd" ∷ concat_map bfd_lines d.bfd_peers ∷ "\n!" ∷ [])
    else ""

-- frrConfTemplate
unfoldable pub frr_template : FrrData → String
unfolding show_nat
frr_template d = concat (
    header d.hostname
    ∷ concat_map static_line d.static_routes
    ∷ "\n!"
    ∷ ecmp_part d
    ∷ "\n!"
    ∷ pbr_part d
    ∷ bfd_part d
    ∷ "\nline vty\n!\n"
    ∷ [])

-- Render, which never fails: the template is fixed and has a field for each of its names.
unfoldable pub render : SiteConfig → String
unfolding frr_data frr_template
render cfg = frr_template (frr_data cfg)
