-- ===== src/Cli/Monitor/Loop/Accepted.antt =====
-- internal/failover with a vtysh that refuses no command.
use warp_router.Prelude.{
  String, string_eq, true, false, Option, none, List, [], ◌∷◌, ◌≡◌, refl, is_some, arith,
}
use warp_router.Net.{Net}
use warp_router.Failover.Routes.{Nexthop}
use warp_router.Failover.Vtysh
use warp_router.Failover.Vtysh.{
  Runner, Vtysh, Log, Command, add_route, remove_route, RouteError, desired_by_key, keys_of,
  vtysh_configure, add_one, remove_one, each_key, replace_ecmp_route, vtysh_manager,
}
use warp_router.Failover.Controller.{Controller, Orders, active_nexthops, update_ecmp}

-- A loop whose body never fails does not fail.
each_key-none :
    (body : String → Vtysh → Vtysh × Option RouteError)
    → ((key : String) (m : Vtysh) → (body key m).1 ≡ none)
    → (keys : List String) (m : Vtysh) → (each_key body keys m).1 ≡ none
unfolding each_key
each_key-none body h [] m = refl
each_key-none body h (key ∷ keys) m =
    rw (h key m, each_key) (each_key-none body h keys (body key m).0)

module _ (net : Net) (run : Runner) (vorders : Vtysh.Orders) (orders : Orders)
    (never_refuses : (log : Log) (command : Command) → run log command ≡ true) where
  remove_one-none :
      (desired : List (String × Nexthop)) (key : String) (m : Vtysh)
      → (remove_one run desired key m).1 ≡ none
  unfolding remove_one
  remove_one-none desired key m = ground (arith, never_refuses m.log (remove_route key))

  add_one-none : (key : String) (m : Vtysh) → (add_one run key m).1 ≡ none
  unfolding add_one
  add_one-none key m = ground (arith, never_refuses m.log (add_route key))

  replace-none :
      (nhs : List Nexthop) (m : Vtysh) → (replace_ecmp_route net run vorders nhs m).1 ≡ none
  unfolding replace_ecmp_route
  replace-none nhs m =
      let desired = desired_by_key net nhs [] in
      let keys = keys_of (vorders.visit_installed m.installed) in
      let first = each_key (remove_one run desired) keys m in
      rw
        (
          each_key-none (remove_one run desired) (remove_one-none desired) keys m,
          replace_ecmp_route,
        )
        (each_key-none (add_one run) add_one-none (keys_of (vorders.visit_desired desired)) first.0)

  pub update_ecmp-succeeds :
      (c : Controller) (m : Vtysh)
      → is_some (update_ecmp (vtysh_manager net run vorders) orders c m).1 ≡ false
  unfolding update_ecmp vtysh_manager
  update_ecmp-succeeds c m =
      rw (replace-none (active_nexthops c.active (orders.visit_uplinks c.uplinks)) m) refl
