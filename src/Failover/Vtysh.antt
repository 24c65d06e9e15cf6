-- ===== src/Failover/Vtysh.antt =====
-- internal/failover/vtysh.go: VtyshRouteManager, which configures FRR through vtysh.
mod Loops
mod RemoveLoop
mod AddLoop
pub mod Replace
pub mod Mirror
use warp_router.Prelude.{
  String, string_eq, Bool, true, false, Option, none, some, List, [], ◌∷◌, lookup, insert, erase,
  has, concat, if◌then◌else◌,
}
use warp_router.Net.{Net}
use warp_router.Failover.Routes.{Nexthop, nh_key, PbrRoute, RouteManager}

abbrev pub Installed : Type 0
Installed = List (String × Bool)

-- The two commands that the manager gives, on a route's key.
pub data Command : Type 0 where
  add_route remove_route : (key : String) → Command

abbrev pub command_text : Command → String
command_text (add_route key) = concat ("ip route 0.0.0.0/0 " ∷ key ∷ [])
command_text (remove_route key) = concat ("no ip route 0.0.0.0/0 " ∷ key ∷ [])

-- The runs of vtysh so far, latest first, each with its success.
abbrev pub Log : Type 0
Log = List (Command × Bool)

-- What vtysh answers to a command after the runs so far: RunCmd, which may be anything.
abbrev pub Runner : Type 0
Runner = Log → Command → Bool

pub record Vtysh : Type 0 where
  pub installed : Installed
  pub log : Log

-- Why ReplaceECMPRoute failed: the command that vtysh refused.
pub data RouteError : Type 0 where
  removing adding : (key : String) → RouteError

-- A Go map is ranged over in an order that may differ each time.
pub record Orders : Type 0 where
  pub visit_installed : Installed → Installed
  pub visit_desired : List (String × Nexthop) → List (String × Nexthop)

unfoldable pub mark_installed : Net → List Nexthop → Installed → Installed
mark_installed net [] installed = installed
mark_installed net (nh ∷ nhs) installed =
    mark_installed net nhs (insert (nh_key net nh) true installed)

-- NewVtyshRouteManager
unfoldable pub new_vtysh : Net → List Nexthop → Vtysh
unfolding mark_installed
new_vtysh net initial_routes = record { installed = mark_installed net initial_routes []; log = [] }

-- vtyshConfigure: the run and its success.
unfoldable pub vtysh_configure : Runner → Command → Vtysh → Vtysh × Bool
vtysh_configure run command m =
    let success = run m.log command in (record m { log = (command, success) ∷ m.log }, success)

-- The map of the desired nexthops by key.
unfoldable pub desired_by_key :
    Net → List Nexthop → List (String × Nexthop) → List (String × Nexthop)
desired_by_key net [] desired = desired
desired_by_key net (nh ∷ nhs) desired = desired_by_key net nhs (insert (nh_key net nh) nh desired)

-- The body of the first loop, for one key: remove a route that is no longer desired.
unfoldable pub remove_one :
    Runner → List (String × Nexthop) → String → Vtysh → Vtysh × Option RouteError
unfolding vtysh_configure
remove_one run desired key m = elim (lookup key desired) [
  | some _ ↦ (m, none)
  | none ↦
      let (m', success) = vtysh_configure run (remove_route key) m in
      if success
      then (record m' { installed = erase key m'.installed }, none)
      else (m', some (removing key))
]

-- The body of the second loop: add a desired route that is not installed.
unfoldable pub add_one : Runner → String → Vtysh → Vtysh × Option RouteError
unfolding vtysh_configure
add_one run key m =
    if has key m.installed
    then (m, none)
    else let (m', success) = vtysh_configure run (add_route key) m in
      if success
      then (record m' { installed = insert key true m'.installed }, none)
      else (m', some (adding key))

-- A loop over keys whose body may return an error from the function.
unfoldable pub each_key :
    (String → Vtysh → Vtysh × Option RouteError) → List String → Vtysh → Vtysh × Option RouteError
each_key body [] m = (m, none)
each_key body (key ∷ keys) m =
    let (m', failed) = body key m in
    elim failed [ none ↦ each_key body keys m' | some error ↦ (m', some error) ]

abbrev pub keys_of {ℓ} : {V : Type ℓ} → List (String × V) → List String
keys_of [] = []
keys_of ((k, _) ∷ m) = k ∷ keys_of m

-- ReplaceECMPRoute
unfoldable pub replace_ecmp_route :
    Net → Runner → Orders → List Nexthop → Vtysh → Vtysh × Option RouteError
unfolding desired_by_key remove_one add_one each_key
replace_ecmp_route net run orders nexthops m =
    let desired = desired_by_key net nexthops [] in
    let (m', failed) =
      each_key (remove_one run desired) (keys_of (orders.visit_installed m.installed)) m in
    elim failed [
      | some error ↦ (m', some error)
      | none ↦ each_key (add_one run) (keys_of (orders.visit_desired desired)) m'
    ]

-- VtyshRouteManager as a RouteManager: AddPBRRule and DelPBRRule do nothing.
unfoldable pub vtysh_manager : Net → Runner → Orders → RouteManager Vtysh RouteError
unfolding replace_ecmp_route
vtysh_manager net run orders = record {
  replace_ecmp_route = replace_ecmp_route net run orders;
  add_pbr_rule = λ rule m. (m, none);
  del_pbr_rule = λ rule m. (m, none);
}

-- InstalledRoutes: a copy of the map.
unfoldable pub installed_routes : Vtysh → Installed
installed_routes m = m.installed
