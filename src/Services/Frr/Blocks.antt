-- ===== src/Services/Frr/Blocks.antt =====
-- internal/services/frr/frr.go: the default routes in each part of the template of frr.conf.
use Prim.Native.String
use mathlib.Core.List.{append-nil, append_assoc}
use text.Mathlib.TextLemmas.{append-nil as string_append-nil}
use warp_router.Prelude.{
  ℕ, String, string_eq, Bool, true, false, List, [], ◌∷◌, ◌++◌, ◌≡◌, refl, sym, ◌∙◌, ap, concat,
  map, All, codes, concat_map, if◌then◌else◌,
}
use warp_router.Services.Frr.{PbrMap, FrrData}
use warp_router.Services.Frr.Template.{
  with_device, static_line, ecmp_line, pbr_map_lines, pbr_interface_lines, bfd_lines, header,
  ecmp_part, pbr_part, bfd_part, frr_template,
}
use warp_router.Services.Frr.Lines.{
  default_routes, IsOneLine, codes-append, routes_from, begins_line, routes_below, IsBlock,
  IsBlock-append, IsBlock-nil, IsBlock-concat_map, IsBlock-concat_map_silent,
}
use warp_router.Services.Frr.Pieces.{
  ecmp_key, static_key, IsDefault, ecmp_line-IsBlock, pbr_map_lines-IsBlock,
  pbr_interface_lines-IsBlock, bfd_lines-IsBlock, static_line-IsBlock, header-routes,
  ecmp_title-IsBlock, pbr_title-IsBlock, bfd_title-IsBlock, bang-IsBlock, end-IsBlock,
}

abbrev pub IsOneLineMap : PbrMap → Type 0
IsOneLineMap m =
    IsOneLine m.name
    × (IsOneLine m.match_src × (IsOneLine m.next_hop × IsOneLine (with_device m.device)))

-- The texts that the template takes are of one line each, and the static routes are default routes.
pub record IsWritable (d : FrrData) : Type 0 where
  pub hostname : IsOneLine d.hostname
  pub static_routes : All IsDefault d.static_routes
  pub ecmp_next_hops : All (λ hop. IsOneLine hop.next_hop × IsOneLine hop.device) d.ecmp_next_hops
  pub pbr_maps : All IsOneLineMap d.pbr_maps
  pub pbr_interfaces : All (λ i. IsOneLine i.device × IsOneLine i.map_name) d.pbr_interfaces
  pub bfd_peers : All IsOneLine d.bfd_peers

if-IsBlock :
    (b : Bool) (s : String) (rs : List (List ℕ))
    → IsBlock s rs
    → IsBlock (if b then s else "") (if b then rs else [])
if-IsBlock true s rs h = h
if-IsBlock false s rs h = IsBlock-nil

silent_if-IsBlock : (b : Bool) (s : String) → IsBlock s [] → IsBlock (if b then s else "") []
silent_if-IsBlock true s h = h
silent_if-IsBlock false s h = IsBlock-nil

IsBlock-append_nil :
    (s : String) (rs : List (List ℕ)) → IsBlock s rs → IsBlock (String.◌++◌ s "") rs
IsBlock-append_nil s rs b = rw (string_append-nil s) b

abbrev pub routes_of_data : FrrData → List (List ℕ)
routes_of_data d =
    map static_key d.static_routes ++ (if d.ecmp then map ecmp_key d.ecmp_next_hops else [])

module _ (d : FrrData) (good : IsWritable d) where
  statics-IsBlock :
      IsBlock (concat_map static_line d.static_routes) (map static_key d.static_routes)
  statics-IsBlock =
      IsBlock-concat_map IsDefault static_line static_key static_line-IsBlock d.static_routes
        good.static_routes

  ecmp-IsBlock : IsBlock (ecmp_part d) (if d.ecmp then map ecmp_key d.ecmp_next_hops else [])
  ecmp-IsBlock = if-IsBlock d.ecmp _ _ (
      IsBlock-append "\n! ECMP default routes (FRR merges equal-cost routes automatically)" _ [] _
        ecmp_title-IsBlock
        (IsBlock-append_nil _ _ (
          IsBlock-concat_map (λ hop. IsOneLine hop.next_hop × IsOneLine hop.device) ecmp_line
            ecmp_key (λ hop o. ecmp_line-IsBlock hop o.0 o.1) d.ecmp_next_hops
            good.ecmp_next_hops)))

  pbr-IsBlock : IsBlock (pbr_part d) []
  pbr-IsBlock = silent_if-IsBlock d.pbr _ (
      IsBlock-append "\n! Policy-Based Routing" _ [] [] pbr_title-IsBlock (
        IsBlock-append (concat_map pbr_map_lines d.pbr_maps) _ [] []
          (IsBlock-concat_map_silent _ pbr_map_lines
            (λ m o. pbr_map_lines-IsBlock m o.0 o.1.0 o.1.1.0 o.1.1.1) d.pbr_maps good.pbr_maps)
          (IsBlock-append_nil _ [] (
            IsBlock-concat_map_silent _ pbr_interface_lines
              (λ i o. pbr_interface_lines-IsBlock i o.0 o.1) d.pbr_interfaces
              good.pbr_interfaces))))

  bfd-IsBlock : IsBlock (bfd_part d) []
  bfd-IsBlock = silent_if-IsBlock d.bfd _ (
      IsBlock-append "\n!\n! BFD peers for WAN health\nbfd" _ [] [] bfd_title-IsBlock (
        IsBlock-append (concat_map bfd_lines d.bfd_peers) "\n!" [] []
          (IsBlock-concat_map_silent IsOneLine bfd_lines bfd_lines-IsBlock d.bfd_peers
            good.bfd_peers)
          bang-IsBlock))

  abbrev below_header : String
  below_header = concat (
      concat_map static_line d.static_routes
      ∷ "\n!"
      ∷ ecmp_part d
      ∷ "\n!"
      ∷ pbr_part d
      ∷ bfd_part d
      ∷ "\nline vty\n!\n"
      ∷ [])

  -- Everything below the header.
  below_header-IsBlock : IsBlock below_header ((routes_of_data d) ++ [])
  below_header-IsBlock = rw (append_assoc (map static_key d.static_routes) _ []) (
      IsBlock-append _ _ _ _ statics-IsBlock (
        IsBlock-append "\n!" _ [] _ bang-IsBlock (
          IsBlock-append _ _ _ [] ecmp-IsBlock (
            IsBlock-append "\n!" _ [] [] bang-IsBlock (
              IsBlock-append _ _ [] [] pbr-IsBlock
                (IsBlock-append _ _ [] [] bfd-IsBlock (IsBlock-append_nil _ [] end-IsBlock)))))))

  -- The default routes of the rendered text: the static ones, and the ECMP ones if they are used.
  pub frr_template-routes : default_routes (frr_template d) ≡ routes_of_data d
  unfolding frr_template
  frr_template-routes =
      let below = codes below_header in
      let begins : begins_line below ≡ true =
        ap begins_line (sym (append-nil below)) ∙ below_header-IsBlock.begins [] refl in
      ap (routes_from []) (codes-append (header d.hostname) below_header)
      ∙ (header-routes d.hostname below good.hostname begins
          ∙ (ap routes_below (sym (append-nil below))
              ∙ (below_header-IsBlock.writes [] refl
                  ∙ (append-nil ((routes_of_data d) ++ []) ∙ append-nil (routes_of_data d)))))
