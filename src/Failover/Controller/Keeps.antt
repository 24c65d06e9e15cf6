-- ===== src/Failover/Controller/Keeps.antt =====
-- internal/failover/controller.go over vtysh.go: what ReplaceECMPRoute keeps, HandleStateChange
-- keeps.
use warp_router.Prelude.{
  String, string_eq, Bool, true, false, Option, List, inl, inr, lookup, insert, has, Bool-cases,
  Option-cases,
}
use warp_router.Net.{Net}
use warp_router.Health.Status.{Status, unknown, healthy, degraded, down}
use warp_router.Failover.Routes.{Nexthop, RouteManager}
use warp_router.Failover.Vtysh
use warp_router.Failover.Vtysh.{Runner, RouteError, Vtysh, replace_ecmp_route, vtysh_manager}
use warp_router.Failover.Controller.{
  Controller, Orders, active_nexthops, update_ecmp, deactivate_uplink, activate_uplink,
  handle_state_change,
}
use warp_router.Failover.Controller.Sound.{del_rules-vtysh, add_rules-vtysh}

module _ (net : Net) (run : Runner) (vorders : Vtysh.Orders) (orders : Orders) (P : Vtysh → Type 0)
    (keep : (nhs : List Nexthop) (m : Vtysh) → P m → P (replace_ecmp_route net run vorders nhs m).0)
    (name : String) (c : Controller) (m : Vtysh) (h : P m) where
  abbrev rm : RouteManager Vtysh RouteError
  rm = vtysh_manager net run vorders

  module _ (b : Bool) where
    abbrev after : Vtysh × Option RouteError
    after = update_ecmp rm orders (record c { active = insert name b c.active }) m

    kept : P after.0
    unfolding update_ecmp vtysh_manager
    kept = keep (active_nexthops (insert name b c.active) (orders.visit_uplinks c.uplinks)) m h

  deactivate_uplink-keeps : P (deactivate_uplink rm orders name c m).1
  unfolding deactivate_uplink
  deactivate_uplink-keeps = elim (Bool-cases (has name c.active)) [
    | inl active ↦ elim (Option-cases (after false).1) [
      | inl done ↦ elim (Option-cases (lookup name c.uplinks)) [
        | inl missing ↦ rw (active, done, missing) (kept false)
        | inr (info, found) ↦
            rw (active, done, found)
              (rw
                (del_rules-vtysh net run vorders orders info.device
                  (orders.visit_pbr_rules c.pbr_rules) (after false).0)
                (kept false))
      ]
      | inr (error, failed) ↦ rw (active, failed) (kept false)
    ]
    | inr inactive ↦ rw inactive h
  ]

  activate_uplink-keeps : P (activate_uplink rm orders name c m).1
  unfolding activate_uplink
  activate_uplink-keeps = elim (Bool-cases (has name c.active)) [
    | inl active ↦ rw active h
    | inr inactive ↦ elim (Option-cases (after true).1) [
      | inl done ↦ elim (Option-cases (lookup name c.uplinks)) [
        | inl missing ↦ rw (inactive, done, missing) (kept true)
        | inr (info, found) ↦
            rw (inactive, done, found)
              (rw
                (add_rules-vtysh net run vorders orders info.device
                  (orders.visit_pbr_rules c.pbr_rules) (after true).0)
                (kept true))
      ]
      | inr (error, failed) ↦ rw (inactive, failed) (kept true)
    ]
  ]

  pub handle_state_change-keeps :
      (old new : Status) → P (handle_state_change rm orders name old new c m).1
  unfolding handle_state_change
  handle_state_change-keeps old down = deactivate_uplink-keeps
  handle_state_change-keeps old healthy = activate_uplink-keeps
  handle_state_change-keeps old unknown = h
  handle_state_change-keeps old degraded = h
