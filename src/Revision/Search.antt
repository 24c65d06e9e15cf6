-- ===== src/Revision/Search.antt =====
-- internal/revision/store.go: the loop of Save that looks for an identifier ends.
use Prim.Native.String
use text.Mathlib.TextLemmas.{append_cancel_left, append-nil, append-eq-nil_iff}
use warp_router.Prelude.{
  ℕ, zero, suc, ◌+◌, ◌<◌, ◌≤◌, ltb, String, string_eq, nat_eq, true, false, Option, some, List, [],
  ◌∷◌, ◌≡◌, ◌≢◌, refl, sym, ap, ◌∙◌, inl, inr, Bool-cases, Option-cases, lookup, length, member,
  keys_of, member-keys_of, arith, text_iff, number, tens, number-show_nat, number_zero_front,
  show_nat, if◌then◌else◌, ◌==◌,
}
use warp_router.Revision.{Entries, asking, Disk, is_free}
use warp_router.Revision.Id.{show_padded, candidate}
use warp_router.Revision.Store.{find_id}

number-show_padded : (i : ℕ) → i < tens 20 → number 0 (show_padded i) ≡ i
unfolding show_padded
number-show_padded i h = elim (Bool-cases (ltb i 10)) [
  | inl small ↦ rw small (number_zero_front (show_nat i) ∙ number-show_nat i h)
  | inr large ↦ rw large (number-show_nat i h)
]

show_padded_inj : (i j : ℕ) → i < tens 20 → j < tens 20 → show_padded i ≡ show_padded j → i ≡ j
show_padded_inj i j h k e =
    sym (number-show_padded i h) ∙ (ap (number 0) e ∙ number-show_padded j k)

base-ne-longer : (base s : String) → String.◌++◌ base (String.◌++◌ "-" s) ≢ base
base-ne-longer base s e =
    let rest : String.◌++◌ "-" s ≡ "" =
      append_cancel_left base (String.◌++◌ "-" s) "" (e ∙ sym (append-nil base)) in
    let dash : "-" ≡ "" = (append-eq-nil_iff.0 rest).0 in ground (arith, text_iff "-" "", dash)

candidate_inj :
    (base : String) (i j : ℕ)
    → i < tens 20
    → j < tens 20
    → candidate base i ≡ candidate base j
    → i ≡ j
unfolding candidate
candidate_inj base zero zero h k e = refl
candidate_inj base zero (suc j) h k e = absurd (base-ne-longer base (show_padded (suc j)) (sym e))
candidate_inj base (suc i) zero h k e = absurd (base-ne-longer base (show_padded (suc i)) e)
candidate_inj base (suc i) (suc j) h k e = show_padded_inj (suc i) (suc j) h k (
    append_cancel_left "-" (show_padded (suc i)) (show_padded (suc j)) (
      append_cancel_left base (String.◌++◌ "-" (show_padded (suc i)))
        (String.◌++◌ "-" (show_padded (suc j))) e))

-- A list of texts without one of them.
abbrev without : String → List String → List String
without k [] = []
without k (j ∷ js) = let rest = without k js in if j == k then rest else j ∷ rest

length-without : (k : String) (js : List String) → length (without k js) ≤ length js
length-without k [] = omega arith
length-without k (j ∷ js) = ground (arith, length-without k js)

shorter_without :
    (k : String) (js : List String) → member k js ≡ true → length (without k js) < length js
shorter_without k [] e = cc
shorter_without k (j ∷ js) e = elim (Bool-cases (j == k)) [
  | inl same ↦ rw same (omega (arith, length-without k js))
  | inr other ↦ rw other (omega (arith, shorter_without k js (ground arith)))
]

member-without : (k j : String) (js : List String) → k ≢ j → member j (without k js) ≡ member j js
member-without k j [] n = refl
member-without k j (i ∷ js) n = elim (Bool-cases (i == k)) [
  | inl same ↦
      let clear : (i == j) ≡ false = ground (arith, text_iff i k, text_iff i j) in
      rw (same, clear) (member-without k j js n)
  | inr other ↦ rw (other, member-without k j js n) refl
]

length-keys_of {ℓ} : {V : Type ℓ} (m : List (String × V)) → length (keys_of m) ≡ length m
length-keys_of [] = refl
length-keys_of ((k, v) ∷ m) = ap suc (length-keys_of m)

module _ (disk : Disk) (stats : (id : String) → disk.allows (asking id) ≡ true) (base : String)
    (es : Entries) where
  taken : (id : String) → is_free disk id es ≡ false → member id (keys_of es) ≡ true
  unfolding is_free
  taken id e = member-keys_of id es ∙ elim (Option-cases (lookup id es)) [
    | inl absent ↦ let free : is_free disk id es ≡ true = rw (is_free, stats id, absent) refl in cc
    | inr (entry, found) ↦ rw found refl
  ]

  -- What the search finds from the `i`-th identifier on, with at most `n` of them taken.
  pub record Found (i n : ℕ) (result : Option String) : Type 0 where
    pub tried : ℕ
    pub finds : result ≡ some (candidate base tried)
    pub unused : is_free disk (candidate base tried) es ≡ true
    pub within : tried ≤ i + n

  find_id-Found_from :
      (fuel i : ℕ) (rest : List String)
      → ((j : ℕ)
          → i ≤ j
          → j < tens 20
          → member (candidate base j) (keys_of es) ≡ true
          → member (candidate base j) rest ≡ true)
      → length rest < fuel
      → i + fuel ≤ tens 20
      → Found i (length rest) (find_id disk fuel base i es)
  unfolding find_id
  find_id-Found_from zero i rest h k b = absurd (omega (arith, k))
  find_id-Found_from (suc fuel) i rest h k b =
      elim (Bool-cases (is_free disk (candidate base i) es)) [
        | inl free ↦
            rw free (record { tried = i; finds = refl; unused = free; within = omega arith })
        | inr used ↦
            let here : member (candidate base i) rest ≡ true =
              h i (omega arith) (omega (arith, b)) (taken (candidate base i) used) in
            let apart : (j : ℕ) → i < j → j < tens 20 → candidate base i ≢ candidate base j =
              λ j le lt eq.
                let same : i ≡ j = candidate_inj base i j (omega (arith, b)) lt eq in
                omega (arith, le, same) in
            let fewer = shorter_without (candidate base i) rest here in
            let found : Found (suc i) (length (without (candidate base i) rest))
                (find_id disk fuel base (suc i) es) =
              find_id-Found_from fuel (suc i) (without (candidate base i) rest)
                (λ j le lt e.
                  member-without (candidate base i) (candidate base j) rest
                    (apart j (omega (arith, le)) lt)
                  ∙ h j (omega (arith, le)) lt e)
                (omega (arith, fewer, k)) (omega (arith, b)) in
            rw used (record {
              tried = found.tried;
              finds = found.finds;
              unused = found.unused;
              within = omega (arith, found.within, fewer);
            })
      ]

  -- With a try more than there are entries, Save's search for an identifier ends at one that is
  -- free, after at most as many tries as there are entries.
  pub find_id-Found :
      (fuel : ℕ)
      → length es < fuel
      → fuel ≤ tens 20
      → Found 0 (length es) (find_id disk fuel base 0 es)
  find_id-Found fuel h b = rw (← length-keys_of es) (
      find_id-Found_from fuel 0 (keys_of es) (λ j le lt e. e) (rw (length-keys_of es) h)
        (omega (arith, b)))
