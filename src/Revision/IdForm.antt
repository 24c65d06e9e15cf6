-- ===== src/Revision/IdForm.antt =====
-- internal/revision/store.go: which identifiers validRevisionID accepts.
use Prim.Native.String
use Prim.Native.Char.{code}
use text.Mathlib.TextLemmas.{nil-append, cons-append}
use warp_router.Prelude.{
  ℕ, zero, suc, ◌<◌, nat_eq, String, string_eq, Bool, true, false, ◌&&◌, ◌||◌, Option, none, some,
  [], ◌∷◌, ◌++◌, ◌≡◌, refl, sym, ap, ◌∙◌, inl, inr, Bool-cases, Option-cases, arith, text_iff,
  codes, All, show_nat, ◌==◌,
}
use warp_router.Revision.Id.{
  is_digit, Pattern, stamp, suffix, digits, strip, matches, valid_revision_id, show_padded,
  candidate,
}

strip-append :
    (ps : Pattern) (s t rest : String)
    → strip ps s ≡ some rest
    → strip ps (String.◌++◌ s t) ≡ some (String.◌++◌ rest t)
unfolding strip
strip-append [] s t rest e = let equal : s ≡ rest = cc in rw equal refl
strip-append (p ∷ ps) String.[] t rest e = cc
strip-append (p ∷ ps) (String.◌∷◌ c s) t rest e = elim (Bool-cases (p (code c))) [
  | inl fits ↦
      rw (cons-append c s t, strip, fits)
        (strip-append ps s t rest (sym (rw (strip, fits) refl) ∙ e))
  | inr fails ↦
      let clash : ◌≡◌ {A = Option String} none (some rest) = sym (rw (strip, fails) refl) ∙ e in cc
]

strip_both :
    (ps qs : Pattern) (s rest : String)
    → strip ps s ≡ some rest
    → strip (ps ++ qs) s ≡ strip qs rest
unfolding strip
strip_both [] qs s rest e = let equal : s ≡ rest = cc in rw equal refl
strip_both (p ∷ ps) qs String.[] rest e = cc
strip_both (p ∷ ps) qs (String.◌∷◌ c s) rest e = elim (Bool-cases (p (code c))) [
  | inl fits ↦ rw (strip, fits) (strip_both ps qs s rest (sym (rw (strip, fits) refl) ∙ e))
  | inr fails ↦
      let clash : ◌≡◌ {A = Option String} none (some rest) = sym (rw (strip, fails) refl) ∙ e in cc
]

stripped : (ps : Pattern) (s : String) → matches ps s ≡ true → strip ps s ≡ some ""
unfolding matches
stripped ps s e = elim (Option-cases (strip ps s)) [
  | inl fails ↦ let clash : matches ps s ≡ false = rw (matches, fails) refl in cc
  | inr (rest, fits) ↦
      let nothing : (rest == "") ≡ true = sym (rw (matches, fits) refl) ∙ e in
      rw fits (ap (λ (x : String). some x) ((text_iff rest "").0 nothing))
]

matches-append :
    (ps qs : Pattern) (s t : String)
    → matches ps s ≡ true
    → matches qs t ≡ true
    → matches (ps ++ qs) (String.◌++◌ s t) ≡ true
unfolding matches
matches-append ps qs s t e f =
    let front : strip ps (String.◌++◌ s t) ≡ some t =
      strip-append ps s t "" (stripped ps s e) ∙ ap (λ (x : String). some x) (nil-append t) in
    rw (matches, strip_both ps qs (String.◌++◌ s t) t front, stripped qs t f) refl

-- A test of all numbers below a bound.
abbrev every : ℕ → (ℕ → Bool) → Bool
every zero p = true
every (suc n) p = p n && every n p

every-below : (n : ℕ) (p : ℕ → Bool) → every n p ≡ true → (i : ℕ) → i < n → p i ≡ true
every-below zero p e i h = absurd (omega (arith, h))
every-below (suc n) p e i h = elim (Bool-cases (i == n)) [
  | inl same ↦ let equal : i ≡ n = ground arith in rw equal (ground arith)
  | inr other ↦ every-below n p (ground arith) i (ground arith)
]

hundred_suffixes : every 100 (λ i. matches suffix (String.◌++◌ "-" (show_padded i))) ≡ true
unfolding matches show_padded show_nat
hundred_suffixes = refl

suffix_fits : (i : ℕ) → i < 100 → matches suffix (String.◌++◌ "-" (show_padded i)) ≡ true
suffix_fits =
    every-below 100 (λ i. matches suffix (String.◌++◌ "-" (show_padded i))) hundred_suffixes

-- The first hundred identifiers that Save tries are valid, if the time is printed as a stamp.
pub candidate-valid :
    (base : String) (i : ℕ)
    → matches stamp base ≡ true
    → i < 100
    → valid_revision_id (candidate base i) ≡ true
unfolding valid_revision_id candidate
candidate-valid base zero e h = rw (valid_revision_id, e) refl
candidate-valid base (suc i) e h =
    let x : matches (stamp ++ suffix) (String.◌++◌ base (String.◌++◌ "-" (show_padded (suc i))))
        ≡ true =
      matches-append stamp suffix base (String.◌++◌ "-" (show_padded (suc i))) e
        (suffix_fits (suc i) h) in
    ground arith

-- The characters of an identifier: digits, T, Z and the dash.
abbrev pub is_id_code : ℕ → Bool
is_id_code c = is_digit c || (c == b'T' || (c == b'Z' || c == b'-'))

abbrev pub IsIdCode : ℕ → Type 0
IsIdCode c = is_id_code c ≡ true

IsStrict : Pattern → Type 0
IsStrict ps = All (λ (p : ℕ → Bool). (c : ℕ) → p c ≡ true → IsIdCode c) ps

strip-IsIdCode :
    (ps : Pattern) (s rest : String)
    → IsStrict ps
    → strip ps s ≡ some rest
    → All IsIdCode (codes rest)
    → All IsIdCode (codes s)
unfolding strip IsStrict
strip-IsIdCode [] s rest h e a = let equal : s ≡ rest = cc in rw equal a
strip-IsIdCode (p ∷ ps) String.[] rest h e a = tt
strip-IsIdCode (p ∷ ps) (String.◌∷◌ c s) rest (h, hs) e a = elim (Bool-cases (p (code c))) [
  | inl fits ↦ (h (code c) fits, strip-IsIdCode ps s rest hs (sym (rw (strip, fits) refl) ∙ e) a)
  | inr fails ↦
      let clash : ◌≡◌ {A = Option String} none (some rest) = sym (rw (strip, fails) refl) ∙ e in cc
]

matches-IsIdCode :
    (ps : Pattern) (s : String) → IsStrict ps → matches ps s ≡ true → All IsIdCode (codes s)
matches-IsIdCode ps s h e = strip-IsIdCode ps s "" h (stripped ps s e) tt

digits-IsStrict : (n : ℕ) (ps : Pattern) → IsStrict ps → IsStrict (digits n ps)
unfolding IsStrict
digits-IsStrict zero ps h = h
digits-IsStrict (suc n) ps h = ((λ c e. ground arith), digits-IsStrict n ps h)

stamp-IsStrict :
    (ps : Pattern)
    → IsStrict ps
    → IsStrict (digits 8 ((λ c. c == b'T') ∷ digits 6 ((λ c. c == b'Z') ∷ ps)))
unfolding IsStrict
stamp-IsStrict ps h =
    digits-IsStrict 8 ((λ c. c == b'T') ∷ digits 6 ((λ c. c == b'Z') ∷ ps))
      ((λ c e. ground arith), digits-IsStrict 6 ((λ c. c == b'Z') ∷ ps) ((λ c e. ground arith), h))

suffix-IsStrict : IsStrict suffix
unfolding IsStrict
suffix-IsStrict = ((λ c e. ground arith), digits-IsStrict 2 [] tt)

-- validRevisionID accepts only digits, T, Z and dashes: no slash and no dot.
pub valid_revision_id-IsIdCode :
    (id : String) → valid_revision_id id ≡ true → All IsIdCode (codes id)
unfolding valid_revision_id IsStrict
valid_revision_id-IsIdCode id e = elim (Bool-cases (matches stamp id)) [
  | inl plain ↦ matches-IsIdCode stamp id (stamp-IsStrict [] tt) plain
  | inr other ↦
      matches-IsIdCode (stamp ++ suffix) id (stamp-IsStrict suffix suffix-IsStrict) (ground arith)
]
