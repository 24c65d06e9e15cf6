-- ===== src/Tests/MonitorTests.antt =====
-- Tests of cmdMonitor: wan1 misses a ping, with a threshold of one failure, and is reported.
use warp_router.Prelude.{
  string_eq, some, none, [], pos, ◌≡◌, refl, lookup, insert, erase, has, true, false,
}
use warp_router.Health.Status.{UplinkState, unknown, down}
use warp_router.Health.Prober.{States, Change, failure, do_ping, register}
use warp_router.Health.Callbacks.{Probe}
use warp_router.Failover.Vtysh.{new_vtysh}
use warp_router.Failover.Vtysh.Mirror.{frr_has}
use warp_router.Failover.Controller.Wanted.{is_wanted}
use warp_router.Cli.Monitor.Loop.{
  Monitor, pinged, reported, start, Reaches, here, next, on_state_change,
}
use warp_router.Cli.Monitor.Loop.Routes.{Reaches-routes}
use warp_router.Cli.Monitor.Loop.Statuses.{Reaches-statuses}
use warp_router.Tests.Fixtures.{
  net, site, range_in_order, vorders, orders, in_order, accepts, initial, names_distinct,
}

abbrev missed : Probe
missed = record {
  cfg = record {
    name = "wan1";
    target = "10.0.0.1";
    interval = pos 0;
    timeout = pos 0;
    failures = pos 1;
  };
  now = pos 5;
  result = failure;
}

abbrev started : Monitor
started = start net accepts vorders orders site

abbrev change : Change
change = record { name = "wan1"; old = unknown; new = down }

abbrev states_after : States
states_after = elim (do_ping true missed.cfg missed.now missed.result started.states) [
  | none ↦ []
  | some (states, _) ↦ states
]

abbrev pinged_once : Monitor
pinged_once = record started {
  states = states_after;
  unreported = insert "wan1" change started.unreported;
}

abbrev told : Monitor
told = record pinged_once {
  controller =
      (on_state_change net accepts vorders orders change pinged_once.controller
        pinged_once.routes).0;
  routes =
      (on_state_change net accepts vorders orders change pinged_once.controller
        pinged_once.routes).1;
  unreported = erase "wan1" pinged_once.unreported;
}

Reaches-told : Reaches net accepts vorders orders started told
unfolding start lookup insert erase do_ping register
Reaches-told =
    next pinged_once told
      (next started pinged_once here (pinged missed started states_after (some change) refl refl))
      (reported "wan1" pinged_once change refl)

Reaches-routes_example :
    frr_has (λ k. has k initial.installed) told.routes.log "10.0.0.1 eth0"
    ≡ is_wanted net told.controller.active "10.0.0.1 eth0" told.controller.uplinks
unfolding new_vtysh lookup
Reaches-routes_example =
    Reaches-routes net accepts vorders orders in_order range_in_order (λ k. has k initial.installed)
      site told "10.0.0.1 eth0" names_distinct (λ k. refl) Reaches-told

abbrev wan1_down : UplinkState
wan1_down = record {
  name = "wan1";
  target = "10.0.0.1";
  status = down;
  consecutive_fails = pos 1;
  last_probe_time = pos 5;
  last_success_time = pos 0;
  last_latency = pos 0;
  total_probes = pos 1;
  total_failures = pos 1;
}

Reaches-statuses_example : has "wan1" told.controller.active ≡ false
unfolding start lookup insert erase do_ping register
Reaches-statuses_example =
    Reaches-statuses net accepts vorders orders (λ log command. refl) site told "wan1" wan1_down
      Reaches-told refl refl
