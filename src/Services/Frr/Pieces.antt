-- ===== src/Services/Frr/Pieces.antt =====
-- internal/services/frr/frr.go: the default routes in each line of the template of frr.conf.
use mathlib.Core.List.{append-nil, append_assoc}
use warp_router.Prelude.{
  ℕ, String, string_eq, true, false, List, [], ◌∷◌, ◌++◌, ◌≡◌, ◌≢◌, refl, ◌∙◌, ap, concat, codes,
  show_nat, arith, text_iff, ◌==◌,
}
use warp_router.Services.Frr.{StaticRoute, EcmpNextHop, PbrMap, PbrInterface}
use warp_router.Services.Frr.Template.{
  with_device, static_line, ecmp_line, pbr_map_lines, pbr_interface_lines, bfd_lines, header,
}
use warp_router.Services.Frr.Lines.{
  IsOneLine, show_nat-IsOneLine, codes-append, routes_from, routes_from-one_line, begins_line,
  routes_below, routes_from-begins_line, routes_from-other, IsBlock,
}

abbrev pub ecmp_key : EcmpNextHop → List ℕ
ecmp_key hop = codes (concat (hop.next_hop ∷ " " ∷ hop.device ∷ []))

pub ecmp_line-IsBlock :
    (hop : EcmpNextHop)
    → IsOneLine hop.next_hop
    → IsOneLine hop.device
    → IsBlock (ecmp_line hop) (ecmp_key hop ∷ [])
ecmp_line-IsBlock hop n d = record {
  begins = λ cs h. rw codes-append refl;
  writes = λ cs h.
      simp (codes-append, append_assoc)
        (routes_from-one_line _ (codes hop.next_hop) _ n
          ∙ routes_from-one_line _ (codes hop.device) _ d
          ∙ routes_from-begins_line _ cs h
          ∙ simp (append_assoc, append-nil) refl);
}

pub pbr_map_lines-IsBlock :
    (m : PbrMap)
    → IsOneLine m.name
    → IsOneLine m.match_src
    → IsOneLine m.next_hop
    → IsOneLine (with_device m.device)
    → IsBlock (pbr_map_lines m) []
pbr_map_lines-IsBlock m name src n d = record {
  begins = λ cs h. rw codes-append refl;
  writes = λ cs h.
      simp (codes-append, append_assoc)
        (routes_from-one_line _ (codes m.name) _ name
          ∙ routes_from-one_line _ (codes (show_nat m.seq)) _ (show_nat-IsOneLine m.seq)
          ∙ routes_from-one_line _ (codes m.match_src) _ src
          ∙ routes_from-one_line _ (codes m.next_hop) _ n
          ∙ routes_from-one_line _ (codes (with_device m.device)) _ d
          ∙ routes_from-begins_line _ cs h);
}

pub pbr_interface_lines-IsBlock :
    (i : PbrInterface)
    → IsOneLine i.device
    → IsOneLine i.map_name
    → IsBlock (pbr_interface_lines i) []
pbr_interface_lines-IsBlock i d m = record {
  begins = λ cs h. rw codes-append refl;
  writes = λ cs h.
      simp (codes-append, append_assoc)
        (routes_from-one_line _ (codes i.device) _ d
          ∙ routes_from-one_line _ (codes i.map_name) _ m
          ∙ routes_from-begins_line _ cs h);
}

pub bfd_lines-IsBlock : (peer : String) → IsOneLine peer → IsBlock (bfd_lines peer) []
bfd_lines-IsBlock peer p = record {
  begins = λ cs h. rw codes-append refl;
  writes = λ cs h.
      simp (codes-append, append_assoc)
        (routes_from-one_line _ (codes peer) _ p ∙ routes_from-begins_line _ cs h);
}

abbrev pub static_key : StaticRoute → List ℕ
static_key r = codes (concat (r.next_hop ∷ " " ∷ r.device ∷ []))

-- A default route through a device.
pub record IsDefault (r : StaticRoute) : Type 0 where
  pub prefix : r.prefix ≡ "0.0.0.0/0"
  pub next_hop : IsOneLine r.next_hop
  pub device : IsOneLine r.device
  pub on_device : r.device ≢ ""

pub static_line-IsBlock :
    (r : StaticRoute) → IsDefault r → IsBlock (static_line r) (static_key r ∷ [])
static_line-IsBlock r f =
    let given : (r.device == "") ≡ false = ground (arith, f.on_device, text_iff r.device "") in
    rw (f.prefix, given)
      (record {
        begins = λ cs h. rw codes-append refl;
        writes = λ cs h.
            simp (codes-append, append_assoc)
              (routes_from-one_line _ (codes r.next_hop) _ f.next_hop
                ∙ routes_from-one_line _ (codes r.device) _ f.device
                ∙ routes_from-begins_line _ cs h
                ∙ simp (append_assoc, append-nil) refl);
      })

abbrev below_hostname : String
below_hostname = "\nlog syslog informational\nservice integrated-vtysh-config\n!"

abbrev above_hostname : String
above_hostname = concat (
    "! Warp Router — FRR configuration\n" ∷ "! Generated by 'warp apply'. Do not edit manually.\n"
    ∷ "\n" ∷ "frr version 10\n" ∷ "frr defaults traditional\n" ∷ "\n" ∷ "hostname " ∷ [])

above_hostname-routes :
    (cs : List ℕ) → routes_from [] (codes above_hostname ++ cs) ≡ routes_from (codes "hostname ") cs
above_hostname-routes cs = refl

below_hostname-routes :
    (cs : List ℕ)
    → begins_line cs ≡ true
    → routes_below (codes below_hostname ++ cs) ≡ routes_below cs
below_hostname-routes cs h = routes_from-begins_line (codes "!") cs h

header-codes :
    (hostname : String)
    → codes (header hostname) ≡ codes above_hostname ++ (codes hostname ++ codes below_hostname)
header-codes hostname = simp codes-append refl

-- What precedes the routes.
pub header-routes :
    (hostname : String) (cs : List ℕ)
    → IsOneLine hostname
    → begins_line cs ≡ true
    → routes_from [] (codes (header hostname) ++ cs) ≡ routes_below cs
header-routes hostname cs n h =
    let below = codes below_hostname in
    let regrouped : codes (header hostname) ++ cs
        ≡ codes above_hostname ++ (codes hostname ++ (below ++ cs)) =
      ap (λ (c : List ℕ). c ++ cs) (header-codes hostname)
      ∙ (append_assoc (codes above_hostname) (codes hostname ++ below) cs
          ∙ ap (λ (c : List ℕ). codes above_hostname ++ c)
              (append_assoc (codes hostname) below cs)) in
    ap (routes_from []) regrouped
    ∙ (above_hostname-routes (codes hostname ++ (below ++ cs))
        ∙ (routes_from-one_line (codes "hostname ") (codes hostname) (below ++ cs) n
            ∙ (routes_from-other (codes "hostname " ++ codes hostname) (below ++ cs) refl refl
                ∙ below_hostname-routes cs h)))

pub ecmp_title-IsBlock :
    IsBlock "\n! ECMP default routes (FRR merges equal-cost routes automatically)" []
ecmp_title-IsBlock = record {
  begins = λ cs h. refl;
  writes = λ cs h. routes_from-begins_line _ cs h;
}

pub pbr_title-IsBlock : IsBlock "\n! Policy-Based Routing" []
pbr_title-IsBlock = record {
  begins = λ cs h. refl;
  writes = λ cs h. routes_from-begins_line _ cs h;
}

pub bfd_title-IsBlock : IsBlock "\n!\n! BFD peers for WAN health\nbfd" []
bfd_title-IsBlock = record {
  begins = λ cs h. refl;
  writes = λ cs h. routes_from-begins_line _ cs h;
}

pub bang-IsBlock : IsBlock "\n!" []
bang-IsBlock = record { begins = λ cs h. refl; writes = λ cs h. routes_from-begins_line _ cs h }

pub end-IsBlock : IsBlock "\nline vty\n!\n" []
end-IsBlock = record { begins = λ cs h. refl; writes = λ cs h. routes_from-begins_line _ cs h }
