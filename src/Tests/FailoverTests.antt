-- ===== src/Tests/FailoverTests.antt =====
-- Tests of internal/failover and of the start of cmdMonitor: the two uplinks of the site.
use warp_router.Prelude.{
  string_eq, true, false, none, some, List, pos, has, lookup, insert, erase, show_nat, [], ◌∷◌, ◌≡◌,
  refl,
}
use warp_router.Health.Status.{healthy, down}
use warp_router.Failover.Routes.{Nexthop, nh_key}
use warp_router.Failover.Vtysh.{remove_route, new_vtysh, replace_ecmp_route, vtysh_manager}
use warp_router.Failover.Vtysh.Replace.{ReplaceResult, replace_ecmp_route-ReplaceResult}
use warp_router.Failover.Vtysh.Mirror.{Mirrors, replace_ecmp_route-Mirrors}
use warp_router.Failover.Controller.{new_controller, handle_state_change, install_initial_routes}
use warp_router.Failover.Controller.Active.{entry_after, handle_state_change-active}
use warp_router.Failover.Controller.Sync.{IsSound}
use warp_router.Failover.Controller.Sound.{handle_state_change-IsSound}
use warp_router.Cli.Monitor.{monitor_plan}
use warp_router.Cli.Monitor.Initial.{monitor-IsSound, monitor-install_idle}
use warp_router.Tests.Fixtures.{
  net, site, range_in_order, vorders, orders, in_order, accepts, refuses, initial, controller,
  names_distinct,
}

monitor-IsSound_example : IsSound net controller initial
monitor-IsSound_example = monitor-IsSound net site names_distinct

monitor-install_idle_example :
    install_initial_routes (vtysh_manager net refuses vorders) orders controller initial
    ≡ (initial, none)
monitor-install_idle_example =
    monitor-install_idle net site refuses vorders orders in_order range_in_order names_distinct

-- With wan1 down its route goes and the other stays.
wan1_fails :
    let (c, m) =
      handle_state_change
        (vtysh_manager net accepts vorders)
        orders
        "wan1"
        healthy
        down
        controller
        initial in
    (has "wan1" c.active ≡ false)
    × (m.installed ≡ ("203.0.113.1 eth1", true) ∷ [])
    × (m.log ≡ (remove_route "10.0.0.1 eth0", true) ∷ [])
unfolding handle_state_change vtysh_manager replace_ecmp_route new_controller new_vtysh monitor_plan
    nh_key lookup insert erase show_nat
wan1_fails = (refl, refl, refl)

-- If vtysh refuses, the uplink stays active and its route tracked.
wan1_refused :
    let (c, m) =
      handle_state_change
        (vtysh_manager net refuses vorders)
        orders
        "wan1"
        healthy
        down
        controller
        initial in
    (has "wan1" c.active ≡ true) × (m.installed ≡ initial.installed)
unfolding handle_state_change vtysh_manager replace_ecmp_route new_controller new_vtysh monitor_plan
    nh_key lookup insert erase show_nat
wan1_refused = (refl, refl)

handle_state_change-IsSound_example :
    let (c', m') =
      handle_state_change
        (vtysh_manager net accepts vorders)
        orders
        "wan1"
        healthy
        down
        controller
        initial in
    IsSound net c' m'
handle_state_change-IsSound_example =
    handle_state_change-IsSound net accepts vorders orders in_order range_in_order controller
      initial (monitor-IsSound net site names_distinct) "wan1" healthy down

handle_state_change-active_example :
    has "wan1"
      (handle_state_change
        (vtysh_manager net refuses vorders)
        orders
        "wan1"
        healthy
        down
        controller
        initial).0.active
    ≡ entry_after (vtysh_manager net refuses vorders) orders controller initial "wan1" down
handle_state_change-active_example =
    handle_state_change-active (vtysh_manager net refuses vorders) orders controller initial "wan1"
      healthy down "wan1"

abbrev nexthops : List Nexthop
nexthops = record { gateway = some (10 ∷ 0 ∷ 0 ∷ 1 ∷ []); device = "eth0"; weight = pos 1 } ∷ []

replace_ecmp_route-ReplaceResult_example :
    ReplaceResult net nexthops initial (replace_ecmp_route net accepts vorders nexthops initial)
replace_ecmp_route-ReplaceResult_example =
    replace_ecmp_route-ReplaceResult net vorders nexthops initial
      (monitor-IsSound net site names_distinct).tracked in_order accepts

replace_ecmp_route-Mirrors_example :
    Mirrors
      (λ k. has k initial.installed)
      (replace_ecmp_route net accepts vorders nexthops initial).0
unfolding new_vtysh lookup
replace_ecmp_route-Mirrors_example =
    replace_ecmp_route-Mirrors (λ k. has k initial.installed) accepts net vorders nexthops initial
      (λ k. refl)
