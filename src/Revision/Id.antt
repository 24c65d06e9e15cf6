-- ===== src/Revision/Id.antt =====
-- internal/revision/store.go: validRevisionID and the identifiers that Save tries.
use Prim.Native.String
use Prim.Native.Char.{code}
use warp_router.Prelude.{
  ℕ, zero, suc, ltb, leb, String, string_eq, nat_eq, Bool, false, ◌&&◌, ◌||◌, Option, none, some,
  List, [], ◌∷◌, ◌++◌, show_nat, if◌then◌else◌, ◌==◌,
}

abbrev pub is_digit : ℕ → Bool
is_digit c = leb b'0' c && leb c b'9'

abbrev pub Pattern : Type 0
Pattern = List (ℕ → Bool)

abbrev pub digits : ℕ → Pattern → Pattern
digits zero rest = rest
digits (suc n) rest = is_digit ∷ digits n rest

-- [0-9]{8}T[0-9]{6}Z
abbrev pub stamp : Pattern
stamp = digits 8 ((λ c. c == b'T') ∷ digits 6 ((λ c. c == b'Z') ∷ []))

-- -[0-9]{2}
abbrev pub suffix : Pattern
suffix = (λ c. c == b'-') ∷ digits 2 []

-- What follows the characters that a pattern accepts.
unfoldable pub strip : Pattern → String → Option String
strip [] s = some s
strip (p ∷ ps) String.[] = none
strip (p ∷ ps) (String.◌∷◌ c s) = if p (code c) then strip ps s else none

abbrev pub is_empty : Option String → Bool
is_empty none = false
is_empty (some s) = s == ""

unfoldable pub matches : Pattern → String → Bool
unfolding strip
matches ps s = is_empty (strip ps s)

-- validRevisionID.MatchString
unfoldable pub valid_revision_id : String → Bool
unfolding matches
valid_revision_id id = matches stamp id || matches (stamp ++ suffix) id

-- %02d
unfoldable pub show_padded : ℕ → String
show_padded i = if ltb i 10 then String.◌++◌ "0" (show_nat i) else show_nat i

-- The identifier that Save tries after `i` others.
unfoldable pub candidate : String → ℕ → String
candidate base zero = base
candidate base (suc i) = String.◌++◌ base (String.◌++◌ "-" (show_padded (suc i)))
