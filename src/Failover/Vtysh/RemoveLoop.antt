-- ===== src/Failover/Vtysh/RemoveLoop.antt =====
-- internal/failover/vtysh.go: the loop of ReplaceECMPRoute that removes the routes no longer desired.
use warp_router.Prelude.{
  String, string_eq, Bool, true, false, not, ◌&&◌, Option, none, some, List, [], ◌∷◌, ◌≡◌, ◌⊎◌, inl,
  inr, ◌≢◌, refl, lookup, erase, has, lookup-erase, member, is_some, Distinct, member_of_All-ne,
  All, Bool-cases, Option-cases, arith, text_iff, if◌then◌else◌,
}
use warp_router.Failover.Vtysh.{
  Runner, Vtysh, remove_route, RouteError, removing, adding, remove_one, each_key,
}
use warp_router.Failover.Vtysh.Loops.{Desired, each_key-go, each_key-stop}

-- One call of the first loop's body.
data RemoveCase (desired : Desired) (key : String) (m : Vtysh) (r : Vtysh × Option RouteError)
    : Type 0 where
  kept : is_some (lookup key desired) ≡ true → r ≡ (m, none) → RemoveCase desired key m r
  removed :
      (m' : Vtysh)
      → is_some (lookup key desired) ≡ false
      → m'.installed ≡ erase key m.installed
      → r ≡ (m', none)
      → RemoveCase desired key m r
  refused :
      (m' : Vtysh)
      → is_some (lookup key desired) ≡ false
      → m'.installed ≡ m.installed
      → r ≡ (m', some (removing key))
      → RemoveCase desired key m r

remove_one-cases :
    (run : Runner) (desired : Desired) (key : String) (m : Vtysh)
    → RemoveCase desired key m (remove_one run desired key m)
unfolding remove_one
remove_one-cases run desired key m = elim (Option-cases (lookup key desired)) [
  | inl missing ↦
      let after : Bool → Vtysh =
        λ b. record { installed = m.installed; log = (remove_route key, b) ∷ m.log } in
      elim (Bool-cases (run m.log (remove_route key))) [
        | inl done ↦
            removed (record (after true) { installed = erase key m.installed }) (rw missing refl)
              refl (rw (missing, done, remove_one) refl)
        | inr failed ↦
            refused (after false) (rw missing refl) refl (rw (missing, failed, remove_one) refl)
      ]
  | inr (nh, found) ↦ kept (rw found refl) (rw (found, remove_one) refl)
]

-- What the first loop does, over keys that stand once each.
unfoldable pub RemoveResult : Desired → List String → Vtysh → Vtysh × Option RouteError → Type 0
RemoveResult desired keys m (m', none) =
    (k : String)
    → has k m'.installed
      ≡ (if member k keys && not (is_some (lookup k desired)) then false else has k m.installed)
RemoveResult desired keys m (m', some (removing key)) =
    (member key keys ≡ true)
    × (is_some (lookup key desired) ≡ false)
    × (has key m'.installed ≡ has key m.installed)
    × ((k : String)
        → (has k m'.installed ≡ has k m.installed)
          ⊎ ((has k m'.installed ≡ false) × (is_some (lookup k desired) ≡ false)))
RemoveResult desired keys m (m', some (adding key)) = ⊥

-- A call that keeps the key, or that removes it, in front of the rest of the loop.
RemoveResult-kept :
    (desired : Desired) (key : String) (keys : List String) (m : Vtysh)
    (x : Vtysh × Option RouteError)
    → is_some (lookup key desired) ≡ true
    → RemoveResult desired keys m x
    → RemoveResult desired (key ∷ keys) m x
unfolding RemoveResult
RemoveResult-kept desired key keys m (m', none) wanted h = λ k. ground (arith, h k, text_iff key k)
RemoveResult-kept desired key keys m (m', some (removing j)) wanted h =
    (ground (arith, h.0), h.1, h.2, h.3)
RemoveResult-kept desired key keys m (m', some (adding j)) wanted h = h

RemoveResult-removed :
    (desired : Desired) (key : String) (keys : List String) (m m' : Vtysh)
    (x : Vtysh × Option RouteError)
    → All (λ y. key ≢ y) keys
    → is_some (lookup key desired) ≡ false
    → m'.installed ≡ erase key m.installed
    → RemoveResult desired keys m' x
    → RemoveResult desired (key ∷ keys) m x
unfolding RemoveResult
RemoveResult-removed desired key keys m m' (r, none) fresh unwanted e h =
    λ k. ground (arith, h k, e, text_iff key k, lookup-erase key k m.installed)
RemoveResult-removed desired key keys m m' (r, some (removing j)) fresh unwanted e h = (
  ground (arith, h.0),
  h.1,
  ground (
    arith,
    h.0,
    h.2,
    e,
    text_iff key j,
    lookup-erase key j m.installed,
    member_of_All-ne key keys fresh,
  ),
  λ k. ground (arith, h.3 k, e, text_iff key k, lookup-erase key k m.installed),
)
RemoveResult-removed desired key keys m m' (r, some (adding j)) fresh unwanted e h = h

pub remove_loop :
    (run : Runner) (desired : Desired) (keys : List String) (m : Vtysh)
    → Distinct keys
    → RemoveResult desired keys m (each_key (remove_one run desired) keys m)
remove_loop run desired [] m h = unfold each_key RemoveResult in λ k. refl
remove_loop run desired (key ∷ keys) m (fresh, h) = elim (remove_one-cases run desired key m) [
  | kept wanted e ↦ rw (each_key-go (remove_one run desired) key keys m m e) (
      RemoveResult-kept desired key keys m (each_key (remove_one run desired) keys m) wanted
        (remove_loop run desired keys m h))
  | removed m' unwanted e r ↦ rw (each_key-go (remove_one run desired) key keys m m' r) (
      RemoveResult-removed desired key keys m m' (each_key (remove_one run desired) keys m') fresh
        unwanted e (remove_loop run desired keys m' h))
  | refused m' unwanted e r ↦
      rw (each_key-stop (remove_one run desired) key keys m m' (removing key) r) (
        unfold RemoveResult in
        (rw ((text_iff key key).1 refl) refl, unwanted, rw e refl, λ k. inl (rw e refl)))
]
