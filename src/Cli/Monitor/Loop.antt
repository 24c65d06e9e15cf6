-- ===== src/Cli/Monitor/Loop.antt =====
-- cmd/warp/main.go: cmdMonitor while it runs. Each uplink has a goroutine that pings it, records
-- the result under the prober's mutex, and after that, outside it, reports a change of the status
-- to the controller; goroutines of other uplinks may take steps between the two. Interface names
-- stand once in a valid configuration, so an uplink's name names its goroutine.
pub mod Routes
mod Accepted
mod Informed
pub mod Statuses
use warp_router.Prelude.{
  String, string_eq, true, Option, none, some, List, [], ◌∷◌, ◌≡◌, lookup, insert, erase,
}
use warp_router.Config.{SiteConfig}
use warp_router.Net.{Net}
use warp_router.Health.Prober.{States, Change, register, do_ping}
use warp_router.Health.Callbacks.{Probe}
use warp_router.Failover.Vtysh
use warp_router.Failover.Vtysh.{Runner, Vtysh, new_vtysh, vtysh_manager}
use warp_router.Failover.Controller.{
  Controller, Orders, new_controller, handle_state_change, install_initial_routes,
}
use warp_router.Cli.Monitor.{monitor_plan}

-- The prober's states, the controller, the route manager, and for each uplink the change that its
-- goroutine has recorded and not yet reported.
pub record Monitor : Type 0 where
  pub states : States
  pub controller : Controller
  pub routes : Vtysh
  pub unreported : List (String × Change)

abbrev pub note_change : String → Option Change → List (String × Change) → List (String × Change)
note_change name none unreported = unreported
note_change name (some change) unreported = insert name change unreported

module _ (net : Net) (run : Runner) (vorders : Vtysh.Orders) (orders : Orders) where
  -- OnStateChange, as cmdMonitor sets it, without what it prints.
  unfoldable pub on_state_change : Change → Controller → Vtysh → Controller × Vtysh
  unfolding handle_state_change vtysh_manager
  on_state_change change c m =
      handle_state_change (vtysh_manager net run vorders) orders change.name change.old change.new c
        m

  -- What the goroutines do: one pings its uplink, when it has nothing to report, or reports.
  pub data Step : Monitor → Monitor → Type 0 where
    pinged :
        (p : Probe) (s : Monitor) (states : States) (change : Option Change)
        → lookup p.cfg.name s.unreported ≡ none
        → do_ping true p.cfg p.now p.result s.states ≡ some (states, change)
        → Step s
            (record s { states = states; unreported = note_change p.cfg.name change s.unreported })
    reported :
        (name : String) (s : Monitor) (change : Change)
        → lookup name s.unreported ≡ some change
        → Step s (record s {
          controller = (on_state_change change s.controller s.routes).0;
          routes = (on_state_change change s.controller s.routes).1;
          unreported = erase name s.unreported;
        })

  -- The monitor as cmdMonitor starts it, after InstallInitialRoutes.
  unfoldable pub start : SiteConfig → Monitor
  unfolding monitor_plan new_controller new_vtysh install_initial_routes vtysh_manager register
  start cfg =
      let (probes, initial_routes) = monitor_plan net cfg.interfaces in
      let c = new_controller net cfg in
      let (m, _) =
        install_initial_routes (vtysh_manager net run vorders) orders c
          (new_vtysh net initial_routes) in
      record { states = register [] probes; controller = c; routes = m; unreported = [] }

  -- The states that steps of the goroutines lead to.
  pub data Reaches (s : Monitor) : Monitor → Type 0 where
    here : Reaches s s
    next : (t u : Monitor) → Reaches s t → Step t u → Reaches s u
