-- ===== src/Prelude/Maps.antt =====
-- Go's maps as association lists. `insert` writes a key in place or adds it at the end; `erase`
-- is `delete`. A `range` over a map visits the entries in an order that the language leaves open.
use mathlib.Core.Path.{◌≡◌, refl}
use mathlib.Core.Bool.{Bool, false}
use mathlib.Core.Option.{Option, none, some}
use mathlib.Core.List.{List, [], ◌∷◌}
use native.Mathlib.Omega.{arith}
use warp_router.Prelude.Tests.{Eq, ◌==◌, if◌then◌else◌}

module _ {ℓ κ} {K : Type ℓ} {V : Type κ} ⦃e : Eq K⦄ where
  -- m[key] with its `ok`.
  unfoldable pub lookup : K → List (K × V) → Option V
  lookup key [] = none
  lookup key ((k, v) ∷ rest) = if k == key then some v else lookup key rest

  -- m[key] = value
  unfoldable pub insert : K → V → List (K × V) → List (K × V)
  insert key value [] = (key, value) ∷ []
  insert key value ((k, v) ∷ rest) =
      if k == key then (key, value) ∷ rest else (k, v) ∷ insert key value rest

  -- delete(m, key)
  unfoldable pub erase : K → List (K × V) → List (K × V)
  erase key [] = []
  erase key ((k, v) ∷ rest) =
      let others = erase key rest in if k == key then others else (k, v) ∷ others

  -- Reading any key after a write.
  pub lookup-insert :
      (key asked : K) (value : V) (entries : List (K × V))
      → lookup asked (insert key value entries)
        ≡ (if key == asked then some value else lookup asked entries)
  unfolding lookup insert
  lookup-insert key asked value [] = refl
  lookup-insert key asked value ((k, v) ∷ rest) = ground (
    arith,
    lookup-insert key asked value rest,
    e.equals_iff key asked,
    e.equals_iff k key,
    e.equals_iff k asked,
  )

  -- Reading any key after a deletion.
  pub lookup-erase :
      (key asked : K) (entries : List (K × V))
      → lookup asked (erase key entries) ≡ (if key == asked then none else lookup asked entries)
  unfolding lookup erase
  lookup-erase key asked [] = ground arith
  lookup-erase key asked ((k, v) ∷ rest) = ground (
    arith,
    lookup-erase key asked rest,
    e.equals_iff key asked,
    e.equals_iff k key,
    e.equals_iff k asked,
  )

-- `m[k]` on a map[K]bool: a missing key reads as false.
abbrev pub or_false : Option Bool → Bool
or_false none = false
or_false (some b) = b

abbrev pub has {ℓ} : {K : Type ℓ} ⦃e : Eq K⦄ → K → List (K × Bool) → Bool
has k m = or_false (lookup k m)
