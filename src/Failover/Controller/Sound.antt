-- ===== src/Failover/Controller/Sound.antt =====
-- internal/failover/controller.go over vtysh.go: HandleStateChange keeps the routes in step.
use warp_router.Prelude.{
  String, string_eq, Bool, true, false, not, Option, none, some, List, [], ◌∷◌, ◌≡◌, inl, inr, refl,
  ◌∙◌, lookup, insert, has, lookup-insert, IsRange, Bool-cases, Option-cases, arith, text_iff,
}
use warp_router.Net.{Net}
use warp_router.Health.Status.{Status, unknown, healthy, degraded, down}
use warp_router.Failover.Routes.{PbrRoute, RouteManager}
use warp_router.Failover.Vtysh
use warp_router.Failover.Vtysh.{Runner, RouteError, Vtysh, vtysh_manager}
use warp_router.Failover.Vtysh.Replace.{AreRanges, IsTracked}
use warp_router.Failover.Vtysh.Mirror.{replace_ecmp_route-IsTracked}
use warp_router.Failover.Controller.{
  Controller, Orders, active_nexthops, update_ecmp, del_rules, add_rules, deactivate_uplink,
  activate_uplink, handle_state_change,
}
use warp_router.Failover.Controller.Wanted.{is_wanted, wanted_congr}
use warp_router.Failover.Controller.Sync.{InSync, IsSound, UpdateResult, update_ecmp-UpdateResult}

module _ (net : Net) (run : Runner) (vorders : Vtysh.Orders) (orders : Orders) where
  -- The manager's rule operations do nothing.
  pub del_rules-vtysh :
      (device : String) (rules : List (String × PbrRoute)) (m : Vtysh)
      → del_rules (vtysh_manager net run vorders) orders device rules m ≡ m
  unfolding del_rules vtysh_manager
  del_rules-vtysh device [] m = refl
  del_rules-vtysh device ((name, rule) ∷ rules) m = ground (arith, del_rules-vtysh device rules m)

  pub add_rules-vtysh :
      (device : String) (rules : List (String × PbrRoute)) (m : Vtysh)
      → add_rules (vtysh_manager net run vorders) orders device rules m ≡ m
  unfolding add_rules vtysh_manager
  add_rules-vtysh device [] m = refl
  add_rules-vtysh device ((name, rule) ∷ rules) m = ground (arith, add_rules-vtysh device rules m)

  update_ecmp-IsTracked :
      (c : Controller) (m : Vtysh)
      → IsTracked m
      → IsTracked (update_ecmp (vtysh_manager net run vorders) orders c m).0
  unfolding update_ecmp vtysh_manager
  update_ecmp-IsTracked c m t =
      replace_ecmp_route-IsTracked run net vorders
        (active_nexthops c.active (orders.visit_uplinks c.uplinks)) m t

-- Undoing the change of an entry leaves it as it read.
reverted :
    (net : Net) (name : String) (b : Bool) (c : Controller) (k : String)
    → has name c.active ≡ not b
    → is_wanted net c.active k c.uplinks
      ≡ is_wanted net (insert name (not b) (insert name b c.active)) k c.uplinks
reverted net name b c k h =
    wanted_congr net c.active (insert name (not b) (insert name b c.active)) k c.uplinks λ j.
      ground (
        arith,
        h,
        text_iff name j,
        lookup-insert name j (not b) (insert name b c.active),
        lookup-insert name j b c.active,
      )

module _ (net : Net) (run : Runner) (vorders : Vtysh.Orders) (orders : Orders)
    (ranges : AreRanges vorders) (uplinks_range : IsRange orders.visit_uplinks) (c : Controller)
    (m : Vtysh) (s : IsSound net c m) (name : String) where
  abbrev rm : RouteManager Vtysh RouteError
  rm = vtysh_manager net run vorders

  -- The controller and its manager after updateECMP with one entry set.
  module _ (b : Bool) where
    abbrev set_entry : Controller
    set_entry = record c { active = insert name b c.active }

    abbrev after : Vtysh × Option RouteError
    after = update_ecmp rm orders set_entry m

    InSync-after :
        (x : Vtysh × Option RouteError)
        → UpdateResult net run vorders orders ranges uplinks_range c m s name b x
        → x.1 ≡ none
        → InSync net set_entry x.0
    InSync-after (m', none) h e = h
    InSync-after (m', some error) h e = cc

    InSync-failed :
        (x : Vtysh × Option RouteError) (error : RouteError)
        → UpdateResult net run vorders orders ranges uplinks_range c m s name b x
        → x.1 ≡ some error
        → InSync net c x.0
    InSync-failed (m', none) error h e = cc
    InSync-failed (m', some other) error h e = h

    result : UpdateResult net run vorders orders ranges uplinks_range c m s name b after
    result = update_ecmp-UpdateResult net run vorders orders ranges uplinks_range c m s name b

    settled : after.1 ≡ none → IsSound net set_entry after.0
    settled e = record {
      uplinks_distinct = s.uplinks_distinct;
      tracked = update_ecmp-IsTracked net run vorders orders set_entry m s.tracked;
      in_sync = InSync-after after result e;
    }

    undone :
        (error : RouteError)
        → has name c.active ≡ not b
        → after.1 ≡ some error
        → IsSound net (record c { active = insert name (not b) (insert name b c.active) }) after.0
    undone error h e = record {
      uplinks_distinct = s.uplinks_distinct;
      tracked = update_ecmp-IsTracked net run vorders orders set_entry m s.tracked;
      in_sync = λ k. InSync-failed after error result e k ∙ reverted net name b c k h;
    }

  deactivate_uplink-IsSound :
      let (c', m') = deactivate_uplink rm orders name c m in IsSound net c' m'
  unfolding deactivate_uplink
  deactivate_uplink-IsSound = elim (Bool-cases (has name c.active)) [
    | inl active ↦ elim (Option-cases (after false).1) [
      | inl done ↦ elim (Option-cases (lookup name c.uplinks)) [
        | inl missing ↦ rw (active, done, missing) (settled false done)
        | inr (info, found) ↦
            rw (active, done, found)
              (rw
                (del_rules-vtysh net run vorders orders info.device
                  (orders.visit_pbr_rules c.pbr_rules) (after false).0)
                (settled false done))
      ]
      | inr (error, failed) ↦ rw (active, failed) (undone false error active failed)
    ]
    | inr inactive ↦ rw inactive s
  ]

  activate_uplink-IsSound : let (c', m') = activate_uplink rm orders name c m in IsSound net c' m'
  unfolding activate_uplink
  activate_uplink-IsSound = elim (Bool-cases (has name c.active)) [
    | inl active ↦ rw active s
    | inr inactive ↦ elim (Option-cases (after true).1) [
      | inl done ↦ elim (Option-cases (lookup name c.uplinks)) [
        | inl missing ↦ rw (inactive, done, missing) (settled true done)
        | inr (info, found) ↦
            rw (inactive, done, found)
              (rw
                (add_rules-vtysh net run vorders orders info.device
                  (orders.visit_pbr_rules c.pbr_rules) (after true).0)
                (settled true done))
      ]
      | inr (error, failed) ↦ rw (inactive, failed) (undone true error inactive failed)
    ]
  ]

  -- If the tracked routes are those of the active uplinks, they are so after HandleStateChange: for
  -- every status, whatever vtysh answers, and in whatever order the maps are visited.
  pub handle_state_change-IsSound :
      (old new : Status)
      → let (c', m') = handle_state_change rm orders name old new c m in IsSound net c' m'
  unfolding handle_state_change
  handle_state_change-IsSound old down = deactivate_uplink-IsSound
  handle_state_change-IsSound old healthy = activate_uplink-IsSound
  handle_state_change-IsSound old unknown = s
  handle_state_change-IsSound old degraded = s
