-- ===== src/Failover/Controller/Sync.antt =====
-- internal/failover/controller.go over vtysh.go: the tracked routes follow the active uplinks.
use mathlib.Core.Path.{subst}
use warp_router.Prelude.{
  String, string_eq, Bool, true, not, Option, none, some, ◌≡◌, ◌⊎◌, inl, inr, sym, ◌∙◌, ap, lookup,
  insert, has, keys_of, Distinct, IsRange, Bool-cases, Option-cases, arith, text_iff, ◌==◌,
}
use warp_router.Net.{Net}
use warp_router.Failover.Routes.{RouteManager}
use warp_router.Failover.Vtysh
use warp_router.Failover.Vtysh.{Runner, Vtysh, RouteError, replace_ecmp_route, vtysh_manager}
use warp_router.Failover.Vtysh.Replace.{
  IsTracked, AreRanges, ReplaceResult, error_key, replace_ecmp_route-ReplaceResult, wants,
}
use warp_router.Failover.Controller.{UplinkInfo, Controller, Orders, active_nexthops, update_ecmp}
use warp_router.Failover.Controller.Wanted.{
  info_key, is_wanted, active_nexthops-wants, wanted-visit, wanted-insert_ne,
}

differs : {w : Bool} (a : Bool) → a ≡ not w → a ≡ w → ⊥
differs {w} a h k = ground arith

-- The tracked routes are those of the active uplinks.
abbrev pub InSync : Net → Controller → Vtysh → Type 0
InSync net c m = (k : String) → has k m.installed ≡ is_wanted net c.active k c.uplinks

-- What holds of the controller with its manager between two calls.
pub record IsSound (net : Net) (c : Controller) (m : Vtysh) : Type 0 where
  pub uplinks_distinct : Distinct (keys_of c.uplinks)
  pub tracked : IsTracked m
  pub in_sync : InSync net c m

module _ (net : Net) (run : Runner) (vorders : Vtysh.Orders) (orders : Orders)
    (ranges : AreRanges vorders) (uplinks_range : IsRange orders.visit_uplinks) where
  abbrev pub rm : RouteManager Vtysh RouteError
  rm = vtysh_manager net run vorders

  -- Setting one uplink's entry and calling updateECMP: the new routes on a success, and on an error
  -- the routes of the entry as it was.
  module _ (c : Controller) (m : Vtysh) (s : IsSound net c m) (name : String) (b : Bool) where
    abbrev pub c' : Controller
    c' = record c { active = insert name b c.active }

    abbrev pub UpdateResult : Vtysh × Option RouteError → Type 0
    UpdateResult (m', none) = InSync net c' m'
    UpdateResult (m', some error) = InSync net c m'

    wants-wanted :
        (k : String)
        → wants net k (active_nexthops c'.active (orders.visit_uplinks c.uplinks))
          ≡ is_wanted net c'.active k c.uplinks
    wants-wanted k =
        active_nexthops-wants net c'.active k (orders.visit_uplinks c.uplinks)
        ∙ wanted-visit net c'.active k orders.visit_uplinks c.uplinks uplinks_range
            s.uplinks_distinct

    -- Only the uplink's own route can differ from what is installed.
    only_own :
        (k : String)
        → (has k m.installed ≡ is_wanted net c'.active k c.uplinks)
          ⊎ ((info : UplinkInfo) × (lookup name c.uplinks ≡ some info)
              × ((info_key net info == k) ≡ true))
    only_own k = elim (Option-cases (lookup name c.uplinks)) [
      | inl missing ↦ inl (
          s.in_sync k
          ∙ sym
              (wanted-insert_ne net c.active k name b c.uplinks s.uplinks_distinct (λ info e. cc)))
      | inr (info, found) ↦ elim (Bool-cases (info_key net info == k)) [
        | inl own ↦ inr (info, found, own)
        | inr other ↦ inl (
            s.in_sync k
            ∙ sym (
                wanted-insert_ne net c.active k name b c.uplinks s.uplinks_distinct
                  (λ i e. let q : i ≡ info = cc in rw q other)))
      ]
    ]

    update_result :
        (x : Vtysh × Option RouteError)
        → ReplaceResult net (active_nexthops c'.active (orders.visit_uplinks c.uplinks)) m x
        → UpdateResult x
    update_result (m', none) h = λ k. h k ∙ wants-wanted k
    update_result (m', some error) h =
        λ k. settle k (only_own (error_key error)) (only_own k) (h.2 k)
      where
        settle :
            (k : String)
            → (has (error_key error) m.installed
                ≡ is_wanted net c'.active (error_key error) c.uplinks)
              ⊎ ((info : UplinkInfo) × (lookup name c.uplinks ≡ some info)
                  × ((info_key net info == error_key error) ≡ true))
            → (has k m.installed ≡ is_wanted net c'.active k c.uplinks)
              ⊎ ((info : UplinkInfo) × (lookup name c.uplinks ≡ some info)
                  × ((info_key net info == k) ≡ true))
            → (has k m'.installed ≡ has k m.installed)
              ⊎ (has k m'.installed
                  ≡ wants net k (active_nexthops c'.active (orders.visit_uplinks c.uplinks)))
            → has k m'.installed ≡ is_wanted net c.active k c.uplinks
        settle k own mine (inl same) = same ∙ s.in_sync k
        settle k own (inl settled) (inr moved) =
            moved ∙ (wants-wanted k ∙ (sym settled ∙ s.in_sync k))
        settle k (inl agreed) (inr mine) (inr moved) = absurd (
            differs (has (error_key error) m.installed) (h.1)
              (agreed ∙ sym (wants-wanted (error_key error))))
        settle k (inr (i, found, own)) (inr (j, found', mine)) (inr moved) =
            let i≡j : i ≡ j = cc in
            let keys : error_key error ≡ k =
              sym ((text_iff (info_key net i) (error_key error)).0 own)
              ∙ (ap (info_key net) i≡j ∙ (text_iff (info_key net j) k).0 mine) in
            subst (λ (n : String). has n m'.installed ≡ has n m.installed) keys h.0 ∙ s.in_sync k

    pub update_ecmp-UpdateResult : UpdateResult (update_ecmp rm orders c' m)
    unfolding update_ecmp vtysh_manager
    update_ecmp-UpdateResult =
        update_result
          (replace_ecmp_route net run vorders
            (active_nexthops c'.active (orders.visit_uplinks c.uplinks)) m)
          (replace_ecmp_route-ReplaceResult net vorders
            (active_nexthops c'.active (orders.visit_uplinks c.uplinks)) m s.tracked ranges run)
