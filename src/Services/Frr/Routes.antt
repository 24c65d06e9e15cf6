-- ===== src/Services/Frr/Routes.antt =====
-- internal/services/frr/frr.go and cmd/warp/main.go: the default routes of frr.conf are the ones
-- that cmdMonitor takes as installed.
use mathlib.Core.List.{append-nil}
use warp_router.Prelude.{
  String, string_eq, false, List, [], ◌∷◌, ◌≡◌, ◌≢◌, refl, ◌∙◌, map, All, codes, inl, inr,
  Bool-cases, arith, text_iff, ◌==◌,
}
use warp_router.Config.{Interface, SiteConfig}
use warp_router.Net.{Net}
use warp_router.Failover.Routes.{nh_key}
use warp_router.Cli.Monitor.{monitor_plan}
use warp_router.Services.Frr.{wan_interfaces, ecmp_hops, static_hops, uses_ecmp, frr_data}
use warp_router.Services.Frr.Template.{render}
use warp_router.Services.Frr.Lines.{default_routes, IsOneLine}
use warp_router.Services.Frr.Blocks.{frr_template-routes, routes_of_data}
use warp_router.Services.Frr.Pieces.{ecmp_key, static_key}
use warp_router.Services.Frr.Printable.{IsPrintable, ArePrintable, frr_data-IsWritable}

given-ne : (gateway : String) → (gateway == "") ≡ false → gateway ≢ ""
given-ne gateway h e = ground (arith, h, e, text_iff gateway "")

module _ (net : Net) where
  ecmp_hops-keys :
      (ifaces : List Interface)
      → ArePrintable net ifaces
      → map ecmp_key (ecmp_hops (wan_interfaces ifaces))
        ≡ map (λ nh. codes (nh_key net nh)) (monitor_plan net ifaces).1
  unfolding ecmp_hops wan_interfaces monitor_plan nh_key
  ecmp_hops-keys [] h = refl
  ecmp_hops-keys (iface ∷ ifaces) (p, h) =
      let ih = ecmp_hops-keys ifaces h in
      elim (Bool-cases (iface.role == "wan")) [
        | inl wan ↦ elim (Bool-cases (iface.gateway == "")) [
          | inl empty ↦ rw (wan, empty) ih
          | inr given ↦ rw (wan, given, p.canonical (given-ne iface.gateway given), ih) refl
        ]
        | inr other ↦ rw other ih
      ]

  static_hops-keys :
      (ifaces : List Interface)
      → ArePrintable net ifaces
      → map static_key (static_hops (wan_interfaces ifaces))
        ≡ map (λ nh. codes (nh_key net nh)) (monitor_plan net ifaces).1
  unfolding static_hops wan_interfaces monitor_plan nh_key
  static_hops-keys [] h = refl
  static_hops-keys (iface ∷ ifaces) (p, h) =
      let ih = static_hops-keys ifaces h in
      elim (Bool-cases (iface.role == "wan")) [
        | inl wan ↦ elim (Bool-cases (iface.gateway == "")) [
          | inl empty ↦ rw (wan, empty) ih
          | inr given ↦ rw (wan, given, p.canonical (given-ne iface.gateway given), ih) refl
        ]
        | inr other ↦ rw other ih
      ]

  data-keys :
      (cfg : SiteConfig)
      → ArePrintable net cfg.interfaces
      → routes_of_data (frr_data cfg)
        ≡ map (λ nh. codes (nh_key net nh)) (monitor_plan net cfg.interfaces).1
  unfolding frr_data
  data-keys cfg h = elim (Bool-cases (uses_ecmp cfg)) [
    | inl many ↦ rw many (ecmp_hops-keys cfg.interfaces h)
    | inr single ↦ rw single (
        append-nil (map static_key (static_hops (wan_interfaces cfg.interfaces)))
        ∙ static_hops-keys cfg.interfaces h)
  ]

  -- The default routes that stand in the text of frr.conf, one for each line that begins with
  -- "ip route 0.0.0.0/0 ", are in order the routes that cmdMonitor tracks as installed, with ECMP and
  -- without: if the hostname, the gateways, the devices and the sources of PBR rules hold no line
  -- feed, no device is empty, and each gateway that is given is written as package net prints it.
  pub render-monitor_plan :
      (cfg : SiteConfig)
      → IsOneLine cfg.hostname
      → All (IsPrintable net) cfg.interfaces
      → All (λ rule. IsOneLine rule.source) cfg.pbr
      → default_routes (render cfg)
        ≡ map (λ nh. codes (nh_key net nh)) (monitor_plan net cfg.interfaces).1
  unfolding render
  render-monitor_plan cfg n h s =
      frr_template-routes (frr_data cfg) (frr_data-IsWritable net cfg n h s) ∙ data-keys cfg h
