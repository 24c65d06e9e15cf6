-- ===== src/Failover/Controller/Active.antt =====
-- internal/failover/controller.go: which uplinks are active after HandleStateChange, for any
-- RouteManager.
use warp_router.Prelude.{
  String, string_eq, Bool, true, false, not, ◌&&◌, ◌||◌, ◌≡◌, insert, has, lookup-insert, is_some,
  arith, text_iff, if◌then◌else◌, ◌==◌,
}
use warp_router.Health.Status.{Status, unknown, healthy, degraded, down}
use warp_router.Failover.Routes.{RouteManager}
use warp_router.Failover.Controller.{
  Controller, Orders, update_ecmp, deactivate_uplink, activate_uplink, handle_state_change,
}

module _ {M E : Type 0} (rm : RouteManager M E) (orders : Orders) (c : Controller) (m : M)
    (name : String) where
  -- Whether updateECMP fails once the uplink's entry is set.
  abbrev pub update_fails : Bool → Bool
  update_fails b =
      is_some (update_ecmp rm orders (record c { active = insert name b c.active }) m).1

  -- What the entry reads after a report: unchanged for unknown and degraded; otherwise the reported
  -- state, unless the routes had to change and the manager refused.
  abbrev pub entry_after : Status → Bool
  entry_after down = has name c.active && update_fails false
  entry_after healthy = has name c.active || not (update_fails true)
  entry_after unknown = has name c.active
  entry_after degraded = has name c.active

  deactivate_uplink-active :
      (j : String)
      → has j (deactivate_uplink rm orders name c m).0.active
        ≡ (if name == j then entry_after down else has j c.active)
  unfolding deactivate_uplink
  deactivate_uplink-active j = ground (
    arith,
    text_iff name j,
    lookup-insert name j false c.active,
    lookup-insert name j true (insert name false c.active),
  )

  activate_uplink-active :
      (j : String)
      → has j (activate_uplink rm orders name c m).0.active
        ≡ (if name == j then entry_after healthy else has j c.active)
  unfolding activate_uplink
  activate_uplink-active j = ground (
    arith,
    text_iff name j,
    lookup-insert name j true c.active,
    lookup-insert name j false (insert name true c.active),
  )

  -- After HandleStateChange the uplink's entry reads as `entry_after` says, and the entries of the
  -- other uplinks as before, with every RouteManager.
  pub handle_state_change-active :
      (old new : Status) (j : String)
      → has j (handle_state_change rm orders name old new c m).0.active
        ≡ (if name == j then entry_after new else has j c.active)
  unfolding handle_state_change
  handle_state_change-active old down j = deactivate_uplink-active j
  handle_state_change-active old healthy j = activate_uplink-active j
  handle_state_change-active old unknown j = ground (arith, text_iff name j)
  handle_state_change-active old degraded j = ground (arith, text_iff name j)
