-- ===== src/Failover/Vtysh/Mirror.antt =====
-- internal/failover/vtysh.go: the tracked routes are the ones that FRR has, and stay so.
use warp_router.Prelude.{
  String, string_eq, Bool, true, false, Option, List, [], ◌∷◌, ◌≡◌, insert, erase, has,
  lookup-insert, lookup-erase, keys_of, member-keys_of, Distinct-insert, Distinct-erase, arith,
  if◌then◌else◌, ◌==◌, Option-cases, inl, inr,
}
use warp_router.Net.{Net}
use warp_router.Failover.Routes.{Nexthop}
use warp_router.Failover.Vtysh.{
  Runner, Command, add_route, remove_route, Log, Vtysh, RouteError, Orders, remove_one, add_one,
  each_key, replace_ecmp_route, desired_by_key,
}
use warp_router.Failover.Vtysh.Replace.{IsTracked}

-- What a command that vtysh accepted does to FRR's static default routes.
abbrev pub after_command : Command → String → Bool → Bool
after_command (add_route key) k before = if key == k then true else before
after_command (remove_route key) k before = if key == k then false else before

-- Whether FRR has the route `k`, by the commands that it accepted since it had `initial`.
abbrev pub frr_has : (String → Bool) → Log → String → Bool
frr_has initial [] k = initial k
frr_has initial ((command, success) ∷ log) k =
    if success then after_command command k (frr_has initial log k) else frr_has initial log k

-- The manager's map and FRR agree on every route.
abbrev pub Mirrors : (String → Bool) → Vtysh → Type 0
Mirrors initial m = (k : String) → has k m.installed ≡ frr_has initial m.log k

-- A loop over keys keeps what its body keeps.
each_key-keeps :
    (P : Vtysh → Type 0) (body : String → Vtysh → Vtysh × Option RouteError)
    → ((key : String) (m : Vtysh) → P m → P (body key m).0)
    → (keys : List String) (m : Vtysh) → P m
    → P (each_key body keys m).0
unfolding each_key
each_key-keeps P body keep [] m h = h
each_key-keeps P body keep (key ∷ keys) m h = elim (Option-cases (body key m).1) [
  | inl going ↦ rw (going, each_key) (each_key-keeps P body keep keys (body key m).0 (keep key m h))
  | inr (error, stopped) ↦ rw (stopped, each_key) (keep key m h)
]

replace-keeps :
    (P : Vtysh → Type 0) (net : Net) (run : Runner) (orders : Orders) (nhs : List Nexthop)
    (m : Vtysh)
    → ((desired : List (String × Nexthop)) (key : String) (m : Vtysh)
        → P m
        → P (remove_one run desired key m).0)
    → ((key : String) (m : Vtysh) → P m → P (add_one run key m).0)
    → P m
    → P (replace_ecmp_route net run orders nhs m).0
unfolding replace_ecmp_route
replace-keeps P net run orders nhs m keep_remove keep_add h =
    let desired = desired_by_key net nhs [] in
    let keys = keys_of (orders.visit_installed m.installed) in
    let first : Vtysh × Option RouteError = each_key (remove_one run desired) keys m in
    let kept : P first.0 =
      each_key-keeps P (remove_one run desired) (keep_remove desired) keys m h in
    elim (Option-cases first.1) [
      | inl going ↦
          rw (going, replace_ecmp_route)
            (each_key-keeps P (add_one run) keep_add (keys_of (orders.visit_desired desired))
              first.0 kept)
      | inr (error, stopped) ↦ rw (stopped, replace_ecmp_route) kept
    ]

module _ (initial : String → Bool) (run : Runner) where
  remove_one-Mirrors :
      (desired : List (String × Nexthop)) (key : String) (m : Vtysh)
      → Mirrors initial m
      → Mirrors initial (remove_one run desired key m).0
  unfolding remove_one
  remove_one-Mirrors desired key m h = λ k. ground (arith, h k, lookup-erase key k m.installed)

  add_one-Mirrors :
      (key : String) (m : Vtysh) → Mirrors initial m → Mirrors initial (add_one run key m).0
  unfolding add_one
  add_one-Mirrors key m h = λ k. ground (arith, h k, lookup-insert key k true m.installed)

  -- If the tracked routes are the ones that FRR has, they are so after ReplaceECMPRoute, whether it
  -- succeeds or stops at a command that vtysh refuses, and in whatever order the maps are visited.
  pub replace_ecmp_route-Mirrors :
      (net : Net) (orders : Orders) (nhs : List Nexthop) (m : Vtysh)
      → Mirrors initial m
      → Mirrors initial (replace_ecmp_route net run orders nhs m).0
  replace_ecmp_route-Mirrors net orders nhs m h =
      replace-keeps (Mirrors initial) net run orders nhs m remove_one-Mirrors add_one-Mirrors h

module _ (run : Runner) where
  remove_one-IsTracked :
      (desired : List (String × Nexthop)) (key : String) (m : Vtysh)
      → IsTracked m
      → IsTracked (remove_one run desired key m).0
  unfolding remove_one
  remove_one-IsTracked desired key m t = record {
    distinct = ground (arith, t.distinct, Distinct-erase key m.installed t.distinct);
    all_true = λ k. ground (
      arith,
      t.all_true k,
      lookup-erase key k m.installed,
      member-keys_of k m.installed,
      member-keys_of k (erase key m.installed),
    );
  }

  add_one-IsTracked : (key : String) (m : Vtysh) → IsTracked m → IsTracked (add_one run key m).0
  unfolding add_one
  add_one-IsTracked key m t = record {
    distinct = ground (arith, t.distinct, Distinct-insert key true m.installed t.distinct);
    all_true = λ k. ground (
      arith,
      t.all_true k,
      lookup-insert key k true m.installed,
      member-keys_of k m.installed,
      member-keys_of k (insert key true m.installed),
    );
  }

  pub replace_ecmp_route-IsTracked :
      (net : Net) (orders : Orders) (nhs : List Nexthop) (m : Vtysh)
      → IsTracked m
      → IsTracked (replace_ecmp_route net run orders nhs m).0
  replace_ecmp_route-IsTracked net orders nhs m t =
      replace-keeps IsTracked net run orders nhs m remove_one-IsTracked add_one-IsTracked t
