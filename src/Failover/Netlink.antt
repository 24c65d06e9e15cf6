-- ===== src/Failover/Netlink.antt =====
-- internal/failover/netlink.go: NetlinkRouteManager, over the library netlink and the kernel's state.
use mathlib.Core.Path.{subst}
use warp_router.Prelude.{
  zero, suc, ℤ, pos, negsuc, inc64, wrap64, nat_eq, ◌+◌, ◌-◌, ◌^◌, ◌<◌, ltb, String, string_eq,
  Option, none, some, List, [], ◌∷◌, ◌≡◌, refl, sym, ◌∙◌, ◌⊎◌, inl, inr, Bool-cases, Option-cases,
  map, All, arith, if◌then◌else◌, ◌==◌,
}
use warp_router.Net.{Ip, IpNet}
use warp_router.Failover.Routes.{Nexthop, PbrRoute, RouteManager}

-- x-- on a 64-bit integer.
abbrev pub dec64 : ℤ → ℤ
dec64 (pos zero) = negsuc 0
dec64 (pos (suc n)) = pos n
dec64 (negsuc n) = if n == 2 ^ 63 - 1 then pos (2 ^ 63 - 1) else negsuc (suc n)

-- 100 + x on a 64-bit integer.
abbrev pub add_100 : ℤ → ℤ
add_100 (pos n) = wrap64 (100 + n)
add_100 (negsuc n) = if ltb n 100 then pos (99 - n) else negsuc (n - 100)

pub record NexthopInfo : Type 0 where
  pub link_index : ℤ
  pub hops : ℤ
  pub gw : Option Ip

-- netlink.Rule, with the fields that the program sets.
pub record Rule : Type 0 where
  pub priority : ℤ
  pub src : IpNet
  pub table : ℤ

-- The library, over the kernel's state `L`, with its errors. The routes are those to 0.0.0.0/0.
pub record Netlink (L E : Type 0) : Type 0 where
  pub link_by_name : String → L → Option ℤ
  pub no_link : String → E
  pub route_del : L → L × Option E
  pub route_replace : List NexthopInfo → L → L × Option E
  pub rule_add : Rule → L → L × Option E
  pub rule_del : Rule → L → L × Option E

module _ {L E : Type 0} (nl : Netlink L E) where
  -- The index of a nexthop's link: zero for no device, and none for an error.
  unfoldable pub link_index : String → L → Option ℤ
  link_index device l = if device == "" then some (pos 0) else nl.link_by_name device l

  -- The loop over the nexthops: the device whose link is not found, or all infos.
  pub data Infos : Type 0 where
    infos : List NexthopInfo → Infos
    lost : (device : String) → Infos

  abbrev pub add_info : NexthopInfo → Infos → Infos
  add_info info (infos rest) = infos (info ∷ rest)
  add_info info (lost device) = lost device

  unfoldable pub nexthop_infos : List Nexthop → L → Infos
  unfolding link_index
  nexthop_infos [] l = infos []
  nexthop_infos (nh ∷ nhs) l =
      let rest = nexthop_infos nhs l in
      elim (link_index nh.device l) [
        | none ↦ lost nh.device
        | some index ↦
            add_info (record { link_index = index; hops = dec64 nh.weight; gw = nh.gateway }) rest
      ]

  unfoldable pub replace_with : Infos → L → L × Option E
  replace_with (lost device) l = (l, some (nl.no_link device))
  replace_with (infos is) l = nl.route_replace is l

  -- NetlinkRouteManager.ReplaceECMPRoute
  unfoldable pub replace_ecmp_route : List Nexthop → L → L × Option E
  unfolding nexthop_infos replace_with
  replace_ecmp_route [] l = nl.route_del l
  replace_ecmp_route (nh ∷ nhs) l = replace_with (nexthop_infos (nh ∷ nhs) l) l

  abbrev pub rule_of : PbrRoute → Rule
  rule_of rule = record {
    priority = rule.priority;
    src = rule.source;
    table = add_100 rule.priority;
  }

  -- AddPBRRule and DelPBRRule.
  unfoldable pub add_pbr_rule : PbrRoute → L → L × Option E
  add_pbr_rule rule l = nl.rule_add (rule_of rule) l

  unfoldable pub del_pbr_rule : PbrRoute → L → L × Option E
  del_pbr_rule rule l = nl.rule_del (rule_of rule) l

  unfoldable pub netlink_manager : RouteManager L E
  unfolding replace_ecmp_route add_pbr_rule del_pbr_rule
  netlink_manager = record {
    replace_ecmp_route = replace_ecmp_route;
    add_pbr_rule = add_pbr_rule;
    del_pbr_rule = del_pbr_rule;
  }

abbrev pub Is64 : ℤ → Type 0
Is64 (pos n) = n < 2 ^ 63
Is64 (negsuc n) = n < 2 ^ 63

inc64-dec64 : (x : ℤ) → Is64 x → inc64 (dec64 x) ≡ x
inc64-dec64 (pos zero) h = refl
inc64-dec64 (pos (suc n)) h = ground (arith, h)
inc64-dec64 (negsuc n) h = elim (Bool-cases (n == 2 ^ 63 - 1)) [
  | inl least ↦ rw least (let equal : n ≡ 2 ^ 63 - 1 = ground arith in rw equal refl)
  | inr other ↦ rw other refl
]

module _ {L E : Type 0} (nl : Netlink L E) (l : L) where
  -- The gateways and weights of nexthops, and of the infos that the kernel gets.
  abbrev pub wanted : List Nexthop → List (Option Ip × ℤ)
  wanted nhs = map (λ nh. (nh.gateway, nh.weight)) nhs

  abbrev pub given : List NexthopInfo → List (Option Ip × ℤ)
  given is = map (λ info. (info.gw, inc64 info.hops)) is

  -- What becomes of the nexthops.
  abbrev pub Collected : List Nexthop → Infos nl → Type 0
  Collected nhs (infos is) = given is ≡ wanted nhs
  Collected nhs (lost device) = nl.link_by_name device l ≡ none

  link_index-none :
      (device : String) → link_index nl device l ≡ none → nl.link_by_name device l ≡ none
  unfolding link_index
  link_index-none device h = elim (Bool-cases (device == "")) [
    | inl empty ↦
        let clash : ◌≡◌ {A = Option ℤ} (some (pos 0)) none =
          sym (rw (link_index, empty) refl) ∙ h in
        cc
    | inr named ↦ sym (rw (link_index, named) refl) ∙ h
  ]

  Collected-add_info :
      (nh : Nexthop) (nhs : List Nexthop) (index : ℤ) (rest : Infos nl)
      → Is64 nh.weight
      → Collected nhs rest
      → Collected (nh ∷ nhs) (
          add_info nl (record { link_index = index; hops = dec64 nh.weight; gw = nh.gateway }) rest)
  Collected-add_info nh nhs index (infos is) h c = rw (inc64-dec64 nh.weight h, c) refl
  Collected-add_info nh nhs index (lost device) h c = c

  nexthop_infos-Collected :
      (nhs : List Nexthop) → All (λ nh. Is64 nh.weight) nhs → Collected nhs (nexthop_infos nl nhs l)
  unfolding nexthop_infos
  nexthop_infos-Collected [] h = refl
  nexthop_infos-Collected (nh ∷ nhs) (h, hs) = elim (Option-cases (link_index nl nh.device l)) [
    | inl e ↦ rw (nexthop_infos, e) (link_index-none nh.device e)
    | inr (index, e) ↦
        rw (nexthop_infos, e)
          (Collected-add_info nh nhs index (nexthop_infos nl nhs l) h
            (nexthop_infos-Collected nhs hs))
  ]

  Infos-cases :
      (r : Infos nl)
      → ((is : List NexthopInfo) × (r ≡ infos is)) ⊎ ((device : String) × (r ≡ lost device))
  Infos-cases (infos is) = inl (is, refl)
  Infos-cases (lost device) = inr (device, refl)

  -- ReplaceECMPRoute of some nexthops makes one call that changes the kernel's route, with the
  -- gateways and the weights of all nexthops in their order, or none at all, when a device has no
  -- link.
  pub replace_ecmp_route-calls :
      (nh : Nexthop) (nhs : List Nexthop)
      → All (λ n. Is64 n.weight) (nh ∷ nhs)
      → ((is : List NexthopInfo) × ((given is ≡ wanted (nh ∷ nhs))
            × (replace_ecmp_route nl (nh ∷ nhs) l ≡ nl.route_replace is l)))
        ⊎ ((device : String) × ((nl.link_by_name device l ≡ none)
              × (replace_ecmp_route nl (nh ∷ nhs) l ≡ (l, some (nl.no_link device)))))
  unfolding replace_ecmp_route replace_with
  replace_ecmp_route-calls nh nhs h =
      let c = nexthop_infos-Collected (nh ∷ nhs) h in
      elim (Infos-cases (nexthop_infos nl (nh ∷ nhs) l)) [
        | inl (is, e) ↦
            inl (is, (subst (Collected (nh ∷ nhs)) e c, rw (replace_ecmp_route, e) refl))
        | inr (device, e) ↦
            inr (device, (subst (Collected (nh ∷ nhs)) e c, rw (replace_ecmp_route, e) refl))
      ]
