-- ===== src/Failover/Controller/Idle.antt =====
-- internal/failover/controller.go over vtysh.go: InstallInitialRoutes where nothing has to change.
use warp_router.Prelude.{
  String, Option, none, some, List, [], ◌∷◌, ◌≡◌, refl, sym, ap, ◌∙◌, IsRange,
}
use warp_router.Net.{Net}
use warp_router.Failover.Routes.{PbrRoute}
use warp_router.Failover.Vtysh
use warp_router.Failover.Vtysh.{Runner, RouteError, Vtysh, vtysh_manager}
use warp_router.Failover.Vtysh.Replace.{AreRanges, replace_ecmp_route_idle}
use warp_router.Failover.Controller.{
  Controller, Orders, active_nexthops, InitialError, initial_ecmp, update_ecmp, add_initial_rules,
  install_initial_routes,
}
use warp_router.Failover.Controller.Wanted.{active_nexthops-wants, wanted-visit}
use warp_router.Failover.Controller.Sync.{IsSound}

module _ (net : Net) (run : Runner) (vorders : Vtysh.Orders) (orders : Orders) where
  update_ecmp_idle :
      (c : Controller) (m : Vtysh)
      → AreRanges vorders
      → IsRange orders.visit_uplinks
      → IsSound net c m
      → update_ecmp (vtysh_manager net run vorders) orders c m ≡ (m, none)
  unfolding update_ecmp vtysh_manager
  update_ecmp_idle c m ranges uplinks_range s =
      replace_ecmp_route_idle net vorders
        (active_nexthops c.active (orders.visit_uplinks c.uplinks)) m s.tracked ranges run
        λ k.
          s.in_sync k
          ∙ sym (
              active_nexthops-wants net c.active k (orders.visit_uplinks c.uplinks)
              ∙ wanted-visit net c.active k orders.visit_uplinks c.uplinks uplinks_range
                  s.uplinks_distinct)

  add_initial_rules-vtysh :
      (rules : List (String × PbrRoute)) (m : Vtysh)
      → add_initial_rules (vtysh_manager net run vorders) orders rules m ≡ (m, none)
  unfolding add_initial_rules vtysh_manager
  add_initial_rules-vtysh [] m = refl
  add_initial_rules-vtysh ((name, rule) ∷ rules) m = add_initial_rules-vtysh rules m

  -- Where the tracked routes are those of the active uplinks, InstallInitialRoutes runs no command
  -- of vtysh: the manager stays as it is and there is no error.
  pub install_initial_routes_idle :
      (c : Controller) (m : Vtysh)
      → AreRanges vorders
      → IsRange orders.visit_uplinks
      → IsSound net c m
      → install_initial_routes (vtysh_manager net run vorders) orders c m ≡ (m, none)
  unfolding install_initial_routes
  install_initial_routes_idle c m ranges uplinks_range s =
      let rules = orders.visit_pbr_rules c.pbr_rules in
      ap
        (λ (r : Vtysh × Option RouteError).
          elim r.1 as (λ _. Vtysh × Option (InitialError RouteError)) [
            | some error ↦ (r.0, some (initial_ecmp error))
            | none ↦ add_initial_rules (vtysh_manager net run vorders) orders rules r.0
          ])
        (update_ecmp_idle c m ranges uplinks_range s)
      ∙ add_initial_rules-vtysh rules m
