-- ===== src/Failover/Vtysh/Loops.antt =====
-- internal/failover/vtysh.go: one round of a loop over a map's keys.
use warp_router.Prelude.{String, string_eq, Option, none, some, List, ◌∷◌, ◌≡◌, ap}
use warp_router.Failover.Routes.{Nexthop}
use warp_router.Failover.Vtysh.{Vtysh, RouteError, each_key}

abbrev pub Desired : Type 0
Desired = List (String × Nexthop)

pub each_key-go :
    (body : String → Vtysh → Vtysh × Option RouteError) (key : String) (keys : List String)
    (m m' : Vtysh)
    → body key m ≡ (m', none)
    → each_key body (key ∷ keys) m ≡ each_key body keys m'
unfolding each_key
each_key-go body key keys m m' e =
    ap
      (λ (r : Vtysh × Option RouteError). elim r.1 as (λ _. Vtysh × Option RouteError) [
        | none ↦ each_key body keys r.0
        | some error ↦ (r.0, some error)
      ])
      e

pub each_key-stop :
    (body : String → Vtysh → Vtysh × Option RouteError) (key : String) (keys : List String)
    (m m' : Vtysh) (error : RouteError)
    → body key m ≡ (m', some error)
    → each_key body (key ∷ keys) m ≡ (m', some error)
unfolding each_key
each_key-stop body key keys m m' error e =
    ap
      (λ (r : Vtysh × Option RouteError). elim r.1 as (λ _. Vtysh × Option RouteError) [
        | none ↦ each_key body keys r.0
        | some error ↦ (r.0, some error)
      ])
      e
