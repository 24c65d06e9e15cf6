-- ===== src/Failover/Vtysh/Replace.antt =====
-- internal/failover/vtysh.go: what ReplaceECMPRoute does to the tracked routes, for any order in
-- which the maps are visited and any answers of vtysh.
use warp_router.Prelude.{
  String, string_eq, Bool, true, false, not, ◌||◌, Option, none, some, List, [], ◌∷◌, ◌≡◌, ◌⊎◌,
  refl, ◌∙◌, ap, lookup, insert, has, lookup-insert, member, is_some, keys_of, member-keys_of,
  member-visit, Distinct, Distinct-insert, IsRange, arith, text_iff, ◌==◌,
}
use warp_router.Net.{Net}
use warp_router.Failover.Routes.{Nexthop, nh_key}
use warp_router.Failover.Vtysh.{
  Runner, Vtysh, RouteError, removing, adding, Orders, desired_by_key, remove_one, add_one,
  each_key, replace_ecmp_route,
}
use warp_router.Failover.Vtysh.RemoveLoop.{RemoveResult, remove_loop}
use warp_router.Failover.Vtysh.AddLoop.{AddResult, add_loop}
use warp_router.Failover.Vtysh.Loops.{Desired, each_key-go}

-- The tracked map holds each key once, and only with the value true.
pub record IsTracked (m : Vtysh) : Type 0 where
  pub distinct : Distinct (keys_of m.installed)
  pub all_true : (k : String) → member k (keys_of m.installed) ≡ has k m.installed

pub record AreRanges (orders : Orders) : Type 0 where
  pub installed : IsRange orders.visit_installed
  pub desired : IsRange orders.visit_desired

-- A nexthop of the list has the key.
abbrev pub wants : Net → String → List Nexthop → Bool
wants net k [] = false
wants net k (nh ∷ nhs) = nh_key net nh == k || wants net k nhs

desired_by_key-wants :
    (net : Net) (k : String) (nhs : List Nexthop) (acc : Desired)
    → is_some (lookup k (desired_by_key net nhs acc)) ≡ (wants net k nhs || is_some (lookup k acc))
unfolding desired_by_key
desired_by_key-wants net k [] acc = refl
desired_by_key-wants net k (nh ∷ nhs) acc = ground (
  arith,
  desired_by_key-wants net k nhs (insert (nh_key net nh) nh acc),
  lookup-insert (nh_key net nh) k nh acc,
)

desired_by_key-Distinct :
    (net : Net) (nhs : List Nexthop) (acc : Desired)
    → Distinct (keys_of acc)
    → Distinct (keys_of (desired_by_key net nhs acc))
unfolding desired_by_key
desired_by_key-Distinct net [] acc h = h
desired_by_key-Distinct net (nh ∷ nhs) acc h =
    desired_by_key-Distinct net nhs (insert (nh_key net nh) nh acc)
      (Distinct-insert (nh_key net nh) nh acc h)

abbrev pub error_key : RouteError → String
error_key (removing key) = key
error_key (adding key) = key

-- After a success exactly the wanted routes are tracked. After an error every route is tracked as
-- before or as wanted, and the one whose command was refused is as before, not as wanted.
abbrev pub ReplaceResult : Net → List Nexthop → Vtysh → Vtysh × Option RouteError → Type 0
ReplaceResult net nexthops m (m', none) = (k : String) → has k m'.installed ≡ wants net k nexthops
ReplaceResult net nexthops m (m', some error) =
    (has (error_key error) m'.installed ≡ has (error_key error) m.installed)
    × (has (error_key error) m.installed ≡ not (wants net (error_key error) nexthops))
    × ((k : String)
        → (has k m'.installed ≡ has k m.installed) ⊎ (has k m'.installed ≡ wants net k nexthops))

module _ (net : Net) (orders : Orders) (nhs : List Nexthop) (m : Vtysh) (t : IsTracked m)
    (o : AreRanges orders) where
  abbrev desired : Desired
  desired = desired_by_key net nhs []

  abbrev old_keys : List String
  old_keys = keys_of (orders.visit_installed m.installed)

  abbrev new_keys : List String
  new_keys = keys_of (orders.visit_desired desired)

  desired-wants : (k : String) → is_some (lookup k desired) ≡ wants net k nhs
  unfolding lookup
  desired-wants k = ground (arith, desired_by_key-wants net k nhs [])

  member-old : (k : String) → member k old_keys ≡ has k m.installed
  member-old k = member-visit o.installed k m.installed t.distinct ∙ t.all_true k

  member-new : (k : String) → member k new_keys ≡ wants net k nhs
  member-new k =
      member-visit o.desired k desired (desired_by_key-Distinct net nhs [] tt)
      ∙ (member-keys_of k desired ∙ desired-wants k)

  second_loop :
      (m1 : Vtysh) (x : Vtysh × Option RouteError)
      → RemoveResult desired old_keys m (m1, none)
      → AddResult new_keys m1 x
      → ReplaceResult net nhs m x
  unfolding RemoveResult AddResult
  second_loop m1 (m', none) h g =
      λ k. ground (arith, h k, g k, member-old k, member-new k, desired-wants k)
  second_loop m1 (m', some (adding j)) h g = (
    ground (arith, h j, g.0, g.1, g.2, member-old j, member-new j, desired-wants j),
    ground (arith, h j, g.0, g.1, g.2, member-old j, member-new j, desired-wants j),
    λ k. ground (arith, h k, g.3 k, member-old k, member-new k, desired-wants k),
  )
  second_loop m1 (m', some (removing j)) h g = absurd g

  first_loop_failed :
      (m1 : Vtysh) (error : RouteError)
      → RemoveResult desired old_keys m (m1, some error)
      → ReplaceResult net nhs m (m1, some error)
  unfolding RemoveResult
  first_loop_failed m1 (removing j) h = (
    h.2,
    ground (arith, h.0, h.1, member-old j, desired-wants j),
    λ k. ground (arith, h.3 k, desired-wants k),
  )
  first_loop_failed m1 (adding j) h = absurd h

  module _ (run : Runner) where
    continued : Vtysh × Option RouteError → Vtysh × Option RouteError
    continued x = elim x.1 [
      | some error ↦ (x.0, some error)
      | none ↦ each_key (add_one run) new_keys x.0
    ]

    continued-ReplaceResult :
        (x : Vtysh × Option RouteError)
        → RemoveResult desired old_keys m x
        → ReplaceResult net nhs m (continued x)
    unfolding continued
    continued-ReplaceResult (m1, none) h =
        second_loop m1 (each_key (add_one run) new_keys m1) h (add_loop run new_keys m1)
    continued-ReplaceResult (m1, some error) h = first_loop_failed m1 error h

    replace_continued :
        replace_ecmp_route net run orders nhs m
        ≡ continued (each_key (remove_one run desired) old_keys m)
    unfolding replace_ecmp_route continued
    replace_continued = refl

    -- For tracked routes of which each key stands once, and maps ranged over in any order, whatever
    -- vtysh answers: the routes after ReplaceECMPRoute are as ReplaceResult says.
    pub replace_ecmp_route-ReplaceResult :
        ReplaceResult net nhs m (replace_ecmp_route net run orders nhs m)
    replace_ecmp_route-ReplaceResult = rw replace_continued (
        continued-ReplaceResult (each_key (remove_one run desired) old_keys m)
          (remove_loop run desired old_keys m (o.installed.once m.installed t.distinct)))

-- A loop whose body does nothing at any of its keys does nothing.
each_key_idle :
    (body : String → Vtysh → Vtysh × Option RouteError) (keys : List String) (m : Vtysh)
    → ((key : String) → member key keys ≡ true → body key m ≡ (m, none))
    → each_key body keys m ≡ (m, none)
each_key_idle body [] m h = unfold each_key in refl
each_key_idle body (key ∷ keys) m h =
    each_key-go body key keys m m (h key (rw ((text_iff key key).1 refl) refl))
    ∙ each_key_idle body keys m (λ j e. h j (ground (arith, text_iff key j)))

module _ (net : Net) (orders : Orders) (nhs : List Nexthop) (m : Vtysh) (t : IsTracked m)
    (o : AreRanges orders) (run : Runner)
    (same : (k : String) → has k m.installed ≡ wants net k nhs) where
  remove_idle :
      (key : String)
      → member key (old_keys net orders nhs m t o) ≡ true
      → remove_one run (desired net orders nhs m t o) key m ≡ (m, none)
  unfolding remove_one
  remove_idle key e =
      ground (
        arith,
        same key,
        member-old net orders nhs m t o key,
        desired-wants net orders nhs m t o key,
      )

  add_idle :
      (key : String)
      → member key (new_keys net orders nhs m t o) ≡ true
      → add_one run key m ≡ (m, none)
  unfolding add_one
  add_idle key e = ground (arith, same key, member-new net orders nhs m t o key)

  -- Where the wanted routes are the tracked ones, ReplaceECMPRoute gives no command: the tracked
  -- routes and the runs of vtysh stay as they are, and there is no error.
  pub replace_ecmp_route_idle : replace_ecmp_route net run orders nhs m ≡ (m, none)
  replace_ecmp_route_idle =
      replace_continued net orders nhs m t o run
      ∙ (ap (continued net orders nhs m t o run) (
            each_key_idle (remove_one run (desired net orders nhs m t o))
              (old_keys net orders nhs m t o) m remove_idle)
          ∙ unfold continued in
            each_key_idle (add_one run) (new_keys net orders nhs m t o) m add_idle)
