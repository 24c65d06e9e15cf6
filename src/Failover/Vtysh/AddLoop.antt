-- ===== src/Failover/Vtysh/AddLoop.antt =====
-- internal/failover/vtysh.go: the loop of ReplaceECMPRoute that adds the desired routes.
use warp_router.Prelude.{
  String, string_eq, Bool, true, false, ◌||◌, Option, none, some, List, [], ◌∷◌, ◌≡◌, ◌⊎◌, inl, inr,
  refl, insert, has, lookup-insert, member, Bool-cases, arith, text_iff, ◌==◌,
}
use warp_router.Failover.Vtysh.{
  Runner, Vtysh, add_route, RouteError, removing, adding, add_one, each_key,
}
use warp_router.Failover.Vtysh.Loops.{each_key-go, each_key-stop}

-- One call of the second loop's body.
data AddCase (key : String) (m : Vtysh) (r : Vtysh × Option RouteError) : Type 0 where
  present : has key m.installed ≡ true → r ≡ (m, none) → AddCase key m r
  added :
      (m' : Vtysh) → m'.installed ≡ insert key true m.installed → r ≡ (m', none) → AddCase key m r
  refused :
      (m' : Vtysh)
      → has key m.installed ≡ false
      → m'.installed ≡ m.installed
      → r ≡ (m', some (adding key))
      → AddCase key m r

add_one-cases : (run : Runner) (key : String) (m : Vtysh) → AddCase key m (add_one run key m)
unfolding add_one
add_one-cases run key m = elim (Bool-cases (has key m.installed)) [
  | inl there ↦ present there (rw there refl)
  | inr absent ↦
      let after : Bool → Vtysh =
        λ b. record { installed = m.installed; log = (add_route key, b) ∷ m.log } in
      elim (Bool-cases (run m.log (add_route key))) [
        | inl done ↦
            added (record (after true) { installed = insert key true m.installed }) refl
              (rw (absent, done) refl)
        | inr failed ↦ refused (after false) absent refl (rw (absent, failed) refl)
      ]
]

-- What the second loop does.
unfoldable pub AddResult : List String → Vtysh → Vtysh × Option RouteError → Type 0
AddResult keys m (m', none) =
    (k : String) → has k m'.installed ≡ (member k keys || has k m.installed)
AddResult keys m (m', some (adding key)) =
    (member key keys ≡ true)
    × (has key m.installed ≡ false)
    × (has key m'.installed ≡ false)
    × ((k : String)
        → (has k m'.installed ≡ has k m.installed)
          ⊎ ((has k m'.installed ≡ true) × (member k keys ≡ true)))
AddResult keys m (m', some (removing key)) = ⊥

-- A key that is there, or that the round adds, in front of the rest of the loop.
AddResult-cons :
    (key : String) (keys : List String) (m m' : Vtysh) (x : Vtysh × Option RouteError)
    → ((k : String) → has k m'.installed ≡ (key == k || has k m.installed))
    → AddResult keys m' x
    → AddResult (key ∷ keys) m x
unfolding AddResult
AddResult-cons key keys m m' (r, none) e h = λ k. ground (arith, h k, e k)
AddResult-cons key keys m m' (r, some (adding j)) e h =
    (ground (arith, h.0), ground (arith, h.1, e j), h.2, λ k. ground (arith, h.3 k, e k))
AddResult-cons key keys m m' (r, some (removing j)) e h = h

pub add_loop :
    (run : Runner) (keys : List String) (m : Vtysh)
    → AddResult keys m (each_key (add_one run) keys m)
add_loop run [] m = unfold each_key AddResult in λ k. refl
add_loop run (key ∷ keys) m = elim (add_one-cases run key m) [
  | present there e ↦ rw (each_key-go (add_one run) key keys m m e) (
      AddResult-cons key keys m m (each_key (add_one run) keys m)
        (λ k. ground (arith, text_iff key k)) (add_loop run keys m))
  | added m' e r ↦ rw (each_key-go (add_one run) key keys m m' r) (
      AddResult-cons key keys m m' (each_key (add_one run) keys m')
        (λ k. ground (arith, e, lookup-insert key k true m.installed)) (add_loop run keys m'))
  | refused m' absent e r ↦ rw (each_key-stop (add_one run) key keys m m' (adding key) r) (
      unfold AddResult in
      (rw ((text_iff key key).1 refl) refl, absent, rw e absent, λ k. inl (rw e refl)))
]
