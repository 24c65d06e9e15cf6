-- ===== src/Prelude/Keys.antt =====
-- The keys of a Go map: which there are, that each stands once, and what a `range` visits.
use Prim.Native.String.{String}
use mathlib.Core.Path.{◌≡◌, refl, sym, ap, ◌∙◌}
use mathlib.Core.Logic.{◌≢◌, inl, inr}
use mathlib.Core.Bool.{Bool, true, false, ◌||◌}
use mathlib.Core.Option.{Option, none, some}
use mathlib.Core.List.{List, [], ◌∷◌, ◌++◌}
use native.Mathlib.Omega.{arith}
use warp_router.Prelude.Tests.{if◌then◌else◌, ◌==◌, string_eq, text_iff, Bool-cases}
use warp_router.Prelude.Lists.{All, Distinct}
use warp_router.Prelude.Maps.{lookup, insert, erase, lookup-insert}

abbrev pub member : String → List String → Bool
member k [] = false
member k (j ∷ js) = j == k || member k js

abbrev pub is_some {ℓ} : {A : Type ℓ} → Option A → Bool
is_some none = false
is_some (some a) = true

module _ {ℓ} {V : Type ℓ} where
  abbrev pub keys_of : List (String × V) → List String
  keys_of [] = []
  keys_of ((k, v) ∷ m) = k ∷ keys_of m

  pub member-keys_of :
      (k : String) (m : List (String × V)) → member k (keys_of m) ≡ is_some (lookup k m)
  unfolding lookup
  member-keys_of k [] = refl
  member-keys_of k ((j, v) ∷ m) = ground (arith, member-keys_of k m)

  All-keys-insert :
      (P : String → Type 0) (k : String) (v : V) (m : List (String × V))
      → P k
      → All P (keys_of m)
      → All P (keys_of (insert k v m))
  unfolding insert
  All-keys-insert P k v [] p h = (p, tt)
  All-keys-insert P k v ((j, w) ∷ m) p h = ground (arith, All-keys-insert P k v m p h.1)

  All-keys-erase :
      (P : String → Type 0) (k : String) (m : List (String × V))
      → All P (keys_of m)
      → All P (keys_of (erase k m))
  unfolding erase
  All-keys-erase P k [] h = h
  All-keys-erase P k ((j, w) ∷ m) h = ground (arith, All-keys-erase P k m h.1)

  pub Distinct-insert :
      (k : String) (v : V) (m : List (String × V))
      → Distinct (keys_of m)
      → Distinct (keys_of (insert k v m))
  unfolding insert
  Distinct-insert k v [] h = (tt, tt)
  Distinct-insert k v ((j, w) ∷ m) (h, hs) = elim (Bool-cases (j == k)) [
    | inl same ↦ rw same (rw (← (text_iff j k).0 same) (h, hs))
    | inr differs ↦ rw differs (
      All-keys-insert (λ y. j ≢ y) k v m (λ e. ground (arith, text_iff j k)) h,
      Distinct-insert k v m hs,
    )
  ]

  pub Distinct-erase :
      (k : String) (m : List (String × V)) → Distinct (keys_of m) → Distinct (keys_of (erase k m))
  unfolding erase
  Distinct-erase k [] h = h
  Distinct-erase k ((j, w) ∷ m) (h, hs) =
      ground (arith, All-keys-erase (λ y. j ≢ y) k m h, Distinct-erase k m hs)

  -- A `range` visits every entry, and each once, in an order of its own.
  pub record IsRange (visit : List (String × V) → List (String × V)) : Type ℓ where
    pub finds :
        (k : String) (m : List (String × V))
        → Distinct (keys_of m)
        → lookup k (visit m) ≡ lookup k m
    pub once : (m : List (String × V)) → Distinct (keys_of m) → Distinct (keys_of (visit m))

module _ {ℓ} {V : Type ℓ} where
  -- A `range` visits every key.
  pub member-visit :
      {visit : List (String × V) → List (String × V)}
      → IsRange visit
      → (k : String) (m : List (String × V)) → Distinct (keys_of m)
      → member k (keys_of (visit m)) ≡ member k (keys_of m)
  member-visit {visit} r k m h =
      member-keys_of k (visit m) ∙ ap is_some (r.finds k m h) ∙ sym (member-keys_of k m)

-- A new key goes to the end.
pub insert_fresh {ℓ} :
    {V : Type ℓ} (k : String) (v : V) (m : List (String × V))
    → member k (keys_of m) ≡ false
    → insert k v m ≡ m ++ (k, v) ∷ []
unfolding insert
insert_fresh k v [] h = refl
insert_fresh k v ((j, w) ∷ m) h =
    let new : (j == k) ≡ false = ground arith in
    rw new (rw (insert_fresh k v m (ground arith)) refl)

pub member-keys_of-insert {ℓ} :
    {V : Type ℓ} (k j : String) (v : V) (m : List (String × V))
    → member j (keys_of (insert k v m)) ≡ (k == j || member j (keys_of m))
member-keys_of-insert k j v m =
    ground (arith, member-keys_of j (insert k v m), member-keys_of j m, lookup-insert k j v m)

-- A text that differs from all of a list is no member.
pub member_of_All-ne : (k : String) (js : List String) → All (λ j. k ≢ j) js → member k js ≡ false
member_of_All-ne k [] h = refl
member_of_All-ne k (j ∷ js) (p, h) = ground (arith, text_iff j k, member_of_All-ne k js h)

pub All-member :
    (P : String → Type 0) (k : String) (js : List String) → All P js → member k js ≡ true → P k
All-member P k [] h e = cc
All-member P k (j ∷ js) (p, h) e = elim (Bool-cases (j == k)) [
  | inl same ↦ rw (← (text_iff j k).0 same) p
  | inr other ↦ All-member P k js h (ground arith)
]

-- What holds of every key and its value holds of every entry, in the order of a `range` too.
pub All-entries {ℓ} :
    {V : Type ℓ} (P : String → V → Type 0) (m : List (String × V))
    → Distinct (keys_of m)
    → ((k : String) (v : V) → lookup k m ≡ some v → P k v)
    → All (λ (e : String × V). P e.0 e.1) m
unfolding lookup
All-entries P [] d h = tt
All-entries P ((j, w) ∷ m) (n, d) h = (
  h j w (rw ((text_iff j j).1 refl) refl),
  All-entries P m d (λ k v e. elim (Bool-cases (j == k)) [
    | inl same ↦
        let listed : member k (keys_of m) ≡ true = rw (member-keys_of k m, e) refl in
        absurd (All-member (λ y. j ≢ y) k (keys_of m) n listed ((text_iff j k).0 same))
    | inr other ↦ h k v (rw other e)
  ]),
)

pub All-visit {ℓ} :
    {V : Type ℓ} (P : String → V → Type 0) {visit : List (String × V) → List (String × V)}
    → IsRange visit
    → (m : List (String × V)) → Distinct (keys_of m)
    → ((k : String) (v : V) → lookup k m ≡ some v → P k v)
    → All (λ (e : String × V). P e.0 e.1) (visit m)
All-visit P {visit} r m d h =
    All-entries P (visit m) (r.once m d) (λ k v e. h k v (sym (r.finds k m d) ∙ e))

-- The tests that decide these predicates on lists of texts.
pub All-ne_of_member : (k : String) (js : List String) → member k js ≡ false → All (λ j. k ≢ j) js
All-ne_of_member k [] e = tt
All-ne_of_member k (j ∷ js) e =
    ((λ eq. ground (arith, text_iff j k, e, eq)), All-ne_of_member k js (ground arith))

abbrev pub all_differ : List String → Bool
all_differ [] = true
all_differ (j ∷ js) = if member j js then false else all_differ js

pub Distinct_of_test : (js : List String) → all_differ js ≡ true → Distinct js
Distinct_of_test [] e = tt
Distinct_of_test (j ∷ js) e =
    (All-ne_of_member j js (ground arith), Distinct_of_test js (ground arith))
