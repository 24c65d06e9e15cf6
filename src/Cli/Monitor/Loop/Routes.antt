-- ===== src/Cli/Monitor/Loop/Routes.antt =====
-- cmd/warp/main.go: the routes that FRR has while cmdMonitor runs.
use warp_router.Prelude.{String, string_eq, Bool, ◌≡◌, sym, ◌∙◌, map, IsRange, Distinct}
use warp_router.Config.{SiteConfig}
use warp_router.Net.{Net}
use warp_router.Failover.Vtysh
use warp_router.Failover.Vtysh.{Runner, Vtysh, new_vtysh}
use warp_router.Failover.Vtysh.Replace.{AreRanges}
use warp_router.Failover.Vtysh.Mirror.{Mirrors, frr_has, replace_ecmp_route-Mirrors}
use warp_router.Failover.Controller.{Controller, Orders}
use warp_router.Failover.Controller.Wanted.{is_wanted}
use warp_router.Failover.Controller.Sync.{IsSound}
use warp_router.Failover.Controller.Sound.{handle_state_change-IsSound}
use warp_router.Failover.Controller.Keeps.{handle_state_change-keeps}
use warp_router.Cli.Monitor.{monitor_plan}
use warp_router.Cli.Monitor.Initial.{monitor-IsSound, monitor-install_idle}
use warp_router.Cli.Monitor.Loop.{
  Monitor, on_state_change, Step, pinged, reported, start, Reaches, here, next,
}

-- The controller, its manager and FRR agree.
pub record IsInStep (net : Net) (frr : String → Bool) (c : Controller) (m : Vtysh) : Type 0 where
  pub sound : IsSound net c m
  pub mirrors : Mirrors frr m

module _ (net : Net) (run : Runner) (vorders : Vtysh.Orders) (orders : Orders)
    (ranges : AreRanges vorders) (uplinks_range : IsRange orders.visit_uplinks)
    (frr : String → Bool) where
  Step-IsInStep :
      (s t : Monitor)
      → IsInStep net frr s.controller s.routes
      → Step net run vorders orders s t
      → IsInStep net frr t.controller t.routes
  unfolding on_state_change
  Step-IsInStep _ _ h (pinged p s states change idle e) = h
  Step-IsInStep _ _ h (reported name s change e) = record {
    sound =
        handle_state_change-IsSound net run vorders orders ranges uplinks_range s.controller
          s.routes h.sound change.name change.old change.new;
    mirrors =
        handle_state_change-keeps net run vorders orders (Mirrors frr)
          (λ nhs m k. replace_ecmp_route-Mirrors frr run net vorders nhs m k) change.name
          s.controller s.routes h.mirrors change.old change.new;
  }

  Reaches-IsInStep :
      (s t : Monitor)
      → IsInStep net frr s.controller s.routes
      → Reaches net run vorders orders s t
      → IsInStep net frr t.controller t.routes
  Reaches-IsInStep s _ h here = h
  Reaches-IsInStep s _ h (next u t r step) = Step-IsInStep u t (Reaches-IsInStep s u h r) step

  start-IsInStep :
      (cfg : SiteConfig)
      → Distinct (map (λ iface. iface.name) cfg.interfaces)
      → Mirrors frr (new_vtysh net (monitor_plan net cfg.interfaces).1)
      → let s = start net run vorders orders cfg in IsInStep net frr s.controller s.routes
  unfolding start
  start-IsInStep cfg d applied =
      rw (monitor-install_idle net cfg run vorders orders ranges uplinks_range d)
        (record { sound = monitor-IsSound net cfg d; mirrors = applied })

  -- With interface names that stand once, and FRR with the routes of the configuration at the start
  -- (as `warp apply` left it), FRR has in every state that the monitor reaches exactly the routes of
  -- the active uplinks: in every interleaving of the goroutines, whatever the pings come to, whatever
  -- vtysh answers, and in whatever order the maps are visited.
  pub Reaches-routes :
      (cfg : SiteConfig) (s : Monitor) (k : String)
      → Distinct (map (λ iface. iface.name) cfg.interfaces)
      → Mirrors frr (new_vtysh net (monitor_plan net cfg.interfaces).1)
      → Reaches net run vorders orders (start net run vorders orders cfg) s
      → frr_has frr s.routes.log k ≡ is_wanted net s.controller.active k s.controller.uplinks
  Reaches-routes cfg s k d applied r =
      let h =
        Reaches-IsInStep (start net run vorders orders cfg) s (start-IsInStep cfg d applied) r in
      sym (h.mirrors k) ∙ h.sound.in_sync k
