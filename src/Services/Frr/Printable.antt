-- ===== src/Services/Frr/Printable.antt =====
-- internal/services/frr/frr.go: configurations whose texts Render can write into frr.conf.
use Prim.Native.String
use warp_router.Prelude.{
  ℕ, ◌+◌, String, string_eq, Bool, true, false, not, ◌&&◌, some, List, [], ◌∷◌, ◌≡◌, ◌≢◌, refl, sym,
  ◌∙◌, lookup, insert, lookup-insert, All, inl, inr, Bool-cases, Option-cases, ◌==◌, if◌then◌else◌,
}
use warp_router.Config.{Interface, PbrRule, SiteConfig}
use warp_router.Net.{Net}
use warp_router.Failover.Controller.{interfaces_by_name}
use warp_router.Failover.Routes.{ip_text}
use warp_router.Services.Frr.{
  wan_interfaces, ecmp_hops, static_hops, bfd_addresses, pbr_maps_from, pbr_attachments, uses_ecmp,
  is_empty, frr_data,
}
use warp_router.Services.Frr.Template.{with_device}
use warp_router.Services.Frr.Lines.{IsOneLine, IsOneLine-append, IsOneLine-if}
use warp_router.Services.Frr.Blocks.{IsOneLineMap, IsWritable}
use warp_router.Services.Frr.Pieces.{IsDefault}

-- An interface that frr.conf can name: it has a device, its texts are of one line each, and its
-- gateway, if it has one, is written as package net prints it.
pub record IsPrintable (net : Net) (iface : Interface) : Type 0 where
  pub canonical : iface.gateway ≢ "" → ip_text net (net.parse_ip iface.gateway) ≡ iface.gateway
  pub on_device : iface.device ≢ ""
  pub gateway : IsOneLine iface.gateway
  pub device : IsOneLine iface.device

with_device-IsOneLine : (device : String) → IsOneLine device → IsOneLine (with_device device)
with_device-IsOneLine device d =
    IsOneLine-if (device == "") "" _ refl
      (IsOneLine-append " " (String.◌++◌ device "") refl (IsOneLine-append device "" d refl))

All-if :
    {A : Type 0} (P : A → Type 0) (b : Bool) (xs ys : List A)
    → All P xs
    → All P ys
    → All P (if b then xs else ys)
All-if P true xs ys h k = h
All-if P false xs ys h k = k

module _ (net : Net) where
  abbrev pub ArePrintable : List Interface → Type 0
  ArePrintable = All (IsPrintable net)

  wan_interfaces-ArePrintable :
      (ifaces : List Interface) → ArePrintable ifaces → ArePrintable (wan_interfaces ifaces)
  unfolding wan_interfaces
  wan_interfaces-ArePrintable [] h = tt
  wan_interfaces-ArePrintable (iface ∷ ifaces) (p, h) =
      let ih = wan_interfaces-ArePrintable ifaces h in
      elim (Bool-cases (iface.role == "wan")) [ inl wan ↦ rw wan (p, ih) | inr other ↦ rw other ih ]

  static_hops-IsDefault :
      (wans : List Interface) → ArePrintable wans → All IsDefault (static_hops wans)
  unfolding static_hops
  static_hops-IsDefault [] h = tt
  static_hops-IsDefault (wan ∷ wans) (p, h) =
      let ih = static_hops-IsDefault wans h in
      elim (Bool-cases (wan.gateway == "")) [
        | inl empty ↦ rw empty ih
        | inr given ↦ rw given (
          record {
            prefix = refl;
            next_hop = p.gateway;
            device = p.device;
            on_device = p.on_device;
          },
          ih,
        )
      ]

  ecmp_hops-IsOneLine :
      (wans : List Interface)
      → ArePrintable wans
      → All (λ hop. IsOneLine hop.next_hop × IsOneLine hop.device) (ecmp_hops wans)
  unfolding ecmp_hops
  ecmp_hops-IsOneLine [] h = tt
  ecmp_hops-IsOneLine (wan ∷ wans) (p, h) =
      let ih = ecmp_hops-IsOneLine wans h in
      elim (Bool-cases (wan.gateway == "")) [
        | inl empty ↦ rw empty ih
        | inr given ↦ rw given ((p.gateway, p.device), ih)
      ]

  bfd_addresses-IsOneLine :
      (wans : List Interface) → ArePrintable wans → All IsOneLine (bfd_addresses wans)
  unfolding bfd_addresses
  bfd_addresses-IsOneLine [] h = tt
  bfd_addresses-IsOneLine (wan ∷ wans) (p, h) =
      let ih = bfd_addresses-IsOneLine wans h in
      elim (Bool-cases (wan.gateway == "")) [
        | inl empty ↦ rw empty ih
        | inr given ↦ rw given (p.gateway, ih)
      ]

  pbr_attachments-IsOneLine :
      (has_maps : Bool) (ifaces : List Interface)
      → ArePrintable ifaces
      → All (λ i. IsOneLine i.device × IsOneLine i.map_name) (pbr_attachments has_maps ifaces)
  unfolding pbr_attachments
  pbr_attachments-IsOneLine has_maps [] h = tt
  pbr_attachments-IsOneLine has_maps (iface ∷ ifaces) (p, h) =
      let ih = pbr_attachments-IsOneLine has_maps ifaces h in
      elim (Bool-cases (iface.role == "lan" && has_maps)) [
        | inl attached ↦ rw attached ((p.device, refl), ih)
        | inr other ↦ rw other ih
      ]

  -- Every interface that is found by its name is one of the configuration.
  found-IsPrintable :
      (ifaces : List Interface) (m : List (String × Interface))
      → ArePrintable ifaces
      → ((k : String) (t : Interface) → lookup k m ≡ some t → IsPrintable net t)
      → (k : String) (t : Interface) → lookup k (interfaces_by_name ifaces m) ≡ some t
      → IsPrintable net t
  unfolding interfaces_by_name
  found-IsPrintable [] m h f = f
  found-IsPrintable (iface ∷ ifaces) m (p, h) f =
      found-IsPrintable ifaces (insert iface.name iface m) h (λ k t e.
        elim (Bool-cases (iface.name == k)) [
          | inl same ↦
              let one : some iface ≡ some t =
                sym (rw (lookup-insert iface.name k iface m, same) refl) ∙ e in
              let eq : iface ≡ t = cc in rw (← eq) p
          | inr other ↦ f k t (sym (rw (lookup-insert iface.name k iface m, other) refl) ∙ e)
        ])

  pbr_maps_from-IsOneLine :
      (by_name : List (String × Interface)) (i : ℕ) (rules : List PbrRule)
      → ((k : String) (t : Interface) → lookup k by_name ≡ some t → IsPrintable net t)
      → All (λ rule. IsOneLine rule.source) rules
      → All IsOneLineMap (pbr_maps_from by_name i rules)
  unfolding pbr_maps_from
  pbr_maps_from-IsOneLine by_name i [] f h = tt
  pbr_maps_from-IsOneLine by_name i (rule ∷ rules) f (source, h) =
      let ih = pbr_maps_from-IsOneLine by_name (i + 1) rules f h in
      elim (Option-cases (lookup rule.interface by_name)) [
        | inl missing ↦ rw (missing, pbr_maps_from) ih
        | inr (target, found) ↦
            let p = f rule.interface target found in
            rw (found, pbr_maps_from)
              ((refl, (source, (p.gateway, with_device-IsOneLine target.device p.device))), ih)
      ]

  pub frr_data-IsWritable :
      (cfg : SiteConfig)
      → IsOneLine cfg.hostname
      → ArePrintable cfg.interfaces
      → All (λ rule. IsOneLine rule.source) cfg.pbr
      → IsWritable (frr_data cfg)
  unfolding frr_data lookup
  frr_data-IsWritable cfg n h s =
      let wans = wan_interfaces-ArePrintable cfg.interfaces h in
      let has_maps =
        not (is_empty (pbr_maps_from (interfaces_by_name cfg.interfaces []) 0 cfg.pbr)) in
      record {
        hostname = n;
        static_routes =
            All-if _ (uses_ecmp cfg) [] (static_hops (wan_interfaces cfg.interfaces)) tt
              (static_hops-IsDefault (wan_interfaces cfg.interfaces) wans);
        ecmp_next_hops =
            All-if _ (uses_ecmp cfg) (ecmp_hops (wan_interfaces cfg.interfaces)) []
              (ecmp_hops-IsOneLine (wan_interfaces cfg.interfaces) wans) tt;
        pbr_maps =
            pbr_maps_from-IsOneLine (interfaces_by_name cfg.interfaces []) 0 cfg.pbr
              (found-IsPrintable cfg.interfaces [] h (λ k t e. cc)) s;
        pbr_interfaces =
            All-if _ (is_empty cfg.pbr) [] (pbr_attachments has_maps cfg.interfaces) tt
              (pbr_attachments-IsOneLine has_maps cfg.interfaces h);
        bfd_peers = bfd_addresses-IsOneLine (wan_interfaces cfg.interfaces) wans;
      }
