-- ===== src/Services/Frr/Lines.antt =====
-- internal/services/frr/frr.go: reading the default routes back from the text of frr.conf.
use Prim.Native.String
use Prim.Native.Nat.{zero}
use mathlib.Core.List.{append-nil, append_assoc}
use text.Mathlib.TextLemmas.{nil-append, cons-append}
use warp_router.Prelude.{
  ℕ, suc, ◌/◌, ◌%◌, ltb, String, Bool, true, false, not, ◌&&◌, Option, none, some, List, [], ◌∷◌,
  ◌++◌, ◌≡◌, refl, sym, ◌∙◌, map, All, Bool-cases, codes, digit, show_digits, show_nat, concat_map,
  nat_eq, arith, if◌then◌else◌, ◌==◌, inl, inr, ap,
}

-- The lines of a text of character codes, of which `line` has been read.
abbrev lines_from : List ℕ → List ℕ → List (List ℕ)
lines_from line [] = line ∷ []
lines_from line (c ∷ cs) = elim (c == 10) [
  | true ↦ line ∷ lines_from [] cs
  | false ↦ lines_from (line ++ c ∷ []) cs
]

-- What follows a prefix.
abbrev pub after : List ℕ → List ℕ → Option (List ℕ)
after [] cs = some cs
after (p ∷ ps) [] = none
after (p ∷ ps) (c ∷ cs) = if c == p then after ps cs else none

abbrev add : Option (List ℕ) → List (List ℕ) → List (List ℕ)
add none routes = routes
add (some route) routes = route ∷ routes

-- What follows "ip route 0.0.0.0/0 " in the lines that begin with it.
abbrev routes_in : List (List ℕ) → List (List ℕ)
routes_in [] = []
routes_in (line ∷ lines) = add (after (codes "ip route 0.0.0.0/0 ") line) (routes_in lines)

-- The default routes of a text, in the order of its lines.
abbrev pub default_routes : String → List (List ℕ)
default_routes text = routes_in (lines_from [] (codes text))

-- No line feed.
abbrev one_line : List ℕ → Bool
one_line [] = true
one_line (c ∷ cs) = not (c == 10) && one_line cs

abbrev pub IsOneLine : String → Type 0
IsOneLine s = one_line (codes s) ≡ true

pub codes-append : (s t : String) → codes (String.◌++◌ s t) ≡ codes s ++ codes t
codes-append String.[] t = rw (nil-append t) refl
codes-append (String.◌∷◌ c s) t = rw (cons-append c s t, codes-append s t) refl

one_line-append : (xs ys : List ℕ) → one_line (xs ++ ys) ≡ (one_line xs && one_line ys)
one_line-append [] ys = refl
one_line-append (c ∷ xs) ys = ground (arith, one_line-append xs ys)

pub IsOneLine-append : (s t : String) → IsOneLine s → IsOneLine t → IsOneLine (String.◌++◌ s t)
IsOneLine-append s t h k = rw (codes-append s t, one_line-append (codes s) (codes t), h, k) refl

pub IsOneLine-if :
    (b : Bool) (s t : String) → IsOneLine s → IsOneLine t → IsOneLine (if b then s else t)
IsOneLine-if true s t h k = h
IsOneLine-if false s t h k = k

digit-IsOneLine : (d : ℕ) → IsOneLine (digit d)
digit-IsOneLine d = IsOneLine-if (d == 0) "0" _ refl (
    IsOneLine-if (d == 1) "1" _ refl (
      IsOneLine-if (d == 2) "2" _ refl (
        IsOneLine-if (d == 3) "3" _ refl (
          IsOneLine-if (d == 4) "4" _ refl (
            IsOneLine-if (d == 5) "5" _ refl (
              IsOneLine-if (d == 6) "6" _ refl
                (IsOneLine-if (d == 7) "7" _ refl (IsOneLine-if (d == 8) "8" "9" refl refl))))))))

show_digits-IsOneLine : (fuel n : ℕ) → IsOneLine (show_digits fuel n)
unfolding show_digits
show_digits-IsOneLine zero n = refl
show_digits-IsOneLine (suc fuel) n = elim (Bool-cases (ltb n 10)) [
  | inl small ↦ rw small (digit-IsOneLine n)
  | inr large ↦ rw large (
      IsOneLine-append (show_digits fuel (n / 10)) (digit (n % 10))
        (show_digits-IsOneLine fuel (n / 10)) (digit-IsOneLine (n % 10)))
]

pub show_nat-IsOneLine : (n : ℕ) → IsOneLine (show_nat n)
unfolding show_nat
show_nat-IsOneLine n = show_digits-IsOneLine 20 n

-- The routes of the lines that are still to come, after the part of a line that has been read.
abbrev pub routes_from : List ℕ → List ℕ → List (List ℕ)
routes_from line cs = routes_in (lines_from line cs)

pub routes_from-one_line :
    (line xs cs : List ℕ)
    → one_line xs ≡ true
    → routes_from line (xs ++ cs) ≡ routes_from (line ++ xs) cs
routes_from-one_line line [] cs h = rw (append-nil line) refl
routes_from-one_line line (x ∷ xs) cs h =
    let other : (x == 10) ≡ false = ground arith in
    rw (other, lines_from)
      (routes_from-one_line (line ++ x ∷ []) xs cs (ground arith)
        ∙ ap (λ (l : List ℕ). routes_from l cs) (append_assoc line (x ∷ []) xs))

-- A text that is empty or begins a line of its own.
abbrev pub begins_line : List ℕ → Bool
begins_line [] = true
begins_line (c ∷ cs) = c == 10

-- The routes of such a text.
abbrev pub routes_below : List ℕ → List (List ℕ)
routes_below [] = []
routes_below (_ ∷ cs) = routes_from [] cs

pub routes_from-begins_line :
    (line cs : List ℕ)
    → begins_line cs ≡ true
    → routes_from line cs ≡ add (after (codes "ip route 0.0.0.0/0 ") line) (routes_below cs)
routes_from-begins_line line [] h = refl
routes_from-begins_line line (c ∷ cs) h =
    let found : (c == 10) ≡ true = h in rw (found, lines_from) refl

-- A line that is no default route.
pub routes_from-other :
    (line cs : List ℕ)
    → after (codes "ip route 0.0.0.0/0 ") line ≡ none
    → begins_line cs ≡ true
    → routes_from line cs ≡ routes_below cs
routes_from-other line cs e h =
    routes_from-begins_line line cs h ∙ ap (λ (o : Option (List ℕ)). add o (routes_below cs)) e

-- A piece of text made of whole lines, each after its line feed, with these default routes.
pub record IsBlock (text : String) (routes : List (List ℕ)) : Type 0 where
  pub begins : (cs : List ℕ) → begins_line cs ≡ true → begins_line (codes text ++ cs) ≡ true
  pub writes :
      (cs : List ℕ)
      → begins_line cs ≡ true
      → routes_below (codes text ++ cs) ≡ routes ++ routes_below cs

pub IsBlock-append :
    (s t : String) (rs qs : List (List ℕ))
    → IsBlock s rs
    → IsBlock t qs
    → IsBlock (String.◌++◌ s t) (rs ++ qs)
IsBlock-append s t rs qs b d = record {
  begins = λ cs h.
      rw (codes-append s t, append_assoc (codes s) (codes t) cs)
        (b.begins (codes t ++ cs) (d.begins cs h));
  writes = λ cs h.
      rw
        (
          codes-append s t,
          append_assoc (codes s) (codes t) cs,
          b.writes (codes t ++ cs) (d.begins cs h),
          d.writes cs h,
        )
        (sym (append_assoc rs qs (routes_below cs)));
}

pub IsBlock-nil : IsBlock "" []
IsBlock-nil = record { begins = λ cs h. h; writes = λ cs h. refl }

pub IsBlock-concat_map {ℓ} :
    {A : Type ℓ} (P : A → Type 0) (text : A → String) (route : A → List ℕ)
    → ((x : A) → P x → IsBlock (text x) (route x ∷ []))
    → (xs : List A) → All P xs
    → IsBlock (concat_map text xs) (map route xs)
IsBlock-concat_map P text route f [] h = IsBlock-nil
IsBlock-concat_map P text route f (x ∷ xs) (p, h) =
    IsBlock-append (text x) (concat_map text xs) (route x ∷ []) (map route xs) (f x p)
      (IsBlock-concat_map P text route f xs h)

pub IsBlock-concat_map_silent {ℓ} :
    {A : Type ℓ} (P : A → Type 0) (text : A → String)
    → ((x : A) → P x → IsBlock (text x) [])
    → (xs : List A) → All P xs
    → IsBlock (concat_map text xs) []
IsBlock-concat_map_silent P text f [] h = IsBlock-nil
IsBlock-concat_map_silent P text f (x ∷ xs) (p, h) =
    IsBlock-append (text x) (concat_map text xs) [] [] (f x p)
      (IsBlock-concat_map_silent P text f xs h)
