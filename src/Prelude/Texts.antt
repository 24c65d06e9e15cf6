-- ===== src/Prelude/Texts.antt =====
-- Texts: concatenation of pieces, for Go's Sprintf and templates, and what the program uses of
-- package strings.
use Prim.Native.String
use Prim.Native.String.{String}
use Prim.Native.Nat.{ℕ, zero, suc, ◌+◌, ◌/◌, ◌%◌}
use Prim.Native.Char.{code}
use mathlib.Core.Bool.{Bool, true, false, ◌&&◌, ◌||◌}
use mathlib.Core.List.{List, [], ◌∷◌}
use warp_router.Prelude.Int.{ℤ, pos, negsuc}
use warp_router.Prelude.Tests.{ltb, leb, nat_eq, ◌==◌, if◌then◌else◌}

-- Marked to unfold everywhere: a rendered text is computed wherever it stands.
abbrev pub concat : List String → String
concat [] = ""
concat (s ∷ ss) = String.◌++◌ s (concat ss)

-- The pieces with a separator between them.
abbrev pub join : String → List String → String
join sep [] = ""
join sep (s ∷ []) = s
join sep (s ∷ t ∷ ss) = String.◌++◌ s (String.◌++◌ sep (join sep (t ∷ ss)))

-- strings.Contains with a text of one character, by its code.
abbrev pub contains_code : ℕ → String → Bool
contains_code c String.[] = false
contains_code c (String.◌∷◌ d s) = code d == c || contains_code c s

-- strings.ToLower of the ASCII letters. The texts that the program compares the result with are
-- ASCII, and no other letter has one of their letters as its lower case.
abbrev pub lower_code : ℕ → ℕ
lower_code c = if leb b'A' c && leb c b'Z' then c + 32 else c

abbrev pub lower_codes : String → List ℕ
lower_codes String.[] = []
lower_codes (String.◌∷◌ c s) = lower_code (code c) ∷ lower_codes s

abbrev pub codes : String → List ℕ
codes String.[] = []
codes (String.◌∷◌ c s) = code c ∷ codes s

abbrev pub codes_beq : List ℕ → List ℕ → Bool
codes_beq [] [] = true
codes_beq (a ∷ xs) (b ∷ ys) = a == b && codes_beq xs ys
codes_beq _ _ = false

abbrev pub digit : ℕ → String
digit n =
    if n == 0
    then "0"
    else if n == 1
    then "1"
    else if n == 2
    then "2"
    else if n == 3
    then "3"
    else if n == 4
    then "4"
    else if n == 5
    then "5"
    else if n == 6
    then "6"
    else if n == 7
    then "7"
    else if n == 8
    then "8"
    else "9"

-- Decimal digits, at most `fuel` of them.
unfoldable pub show_digits : ℕ → ℕ → String
show_digits zero n = ""
show_digits (suc fuel) n =
    let front = show_digits fuel (n / 10) in
    if ltb n 10 then digit n else String.◌++◌ front (digit (n % 10))

-- %d of a number. A 64-bit number has at most twenty digits.
unfoldable pub show_nat : ℕ → String
unfolding show_digits
show_nat n = show_digits 20 n

unfoldable pub show_int : ℤ → String
unfolding show_nat
show_int (pos n) = show_nat n
show_int (negsuc n) = String.◌++◌ "-" (show_nat (n + 1))

-- Each item of a list through a text, one after the other: `range` in a template.
abbrev pub concat_map {ℓ} : {A : Type ℓ} → (A → String) → List A → String
concat_map f [] = ""
concat_map f (x ∷ xs) = String.◌++◌ (f x) (concat_map f xs)
