-- ===== src/Apply/Vlans/Parent.antt =====
-- internal/apply/apply.go: ParentDevice of a dotted device.
use Prim.Native.String
use Prim.Native.Char.{code}
use text.Mathlib.TextLemmas.{cons-append, nil-append}
use warp_router.Prelude.{
  nat_eq, String, true, false, none, some, ◌≡◌, refl, contains_code, arith, ◌==◌,
}
use warp_router.Apply.Vlans.{before_last_dot, parent_device}

before_last_dot-none : (s : String) → contains_code b'.' s ≡ false → before_last_dot s ≡ none
unfolding before_last_dot
before_last_dot-none String.[] h = refl
before_last_dot-none (String.◌∷◌ c s) h =
    let no_dot : (code c == b'.') ≡ false = ground arith in
    rw (before_last_dot, before_last_dot-none s (ground arith), no_dot) refl

-- A text of one dot, and another.
abbrev IsDot : String → Type 0
IsDot String.[] = ⊥
IsDot (String.◌∷◌ c s) = (code c ≡ b'.') × (s ≡ "")

dotted :
    (d v : String)
    → IsDot d
    → contains_code b'.' v ≡ false
    → before_last_dot (String.◌++◌ d v) ≡ some ""
unfolding before_last_dot
dotted String.[] v dot h = absurd dot
dotted (String.◌∷◌ c s) v (dot, empty) h =
    let no_dot : (code c == b'.') ≡ true = ground (arith, dot) in
    rw (cons-append c s v, empty, nil-append v, before_last_dot, before_last_dot-none v h, no_dot)
      refl

before_last_dot-append :
    (p v : String)
    → contains_code b'.' v ≡ false
    → before_last_dot (String.◌++◌ p (String.◌++◌ "." v)) ≡ some p
unfolding before_last_dot
before_last_dot-append String.[] v h =
    rw (nil-append (String.◌++◌ "." v)) (dotted "." v (refl, refl) h)
before_last_dot-append (String.◌∷◌ c p) v h =
    rw (cons-append c p (String.◌++◌ "." v), before_last_dot, before_last_dot-append p v h) refl

-- ParentDevice of a parent, a dot and a text without a dot is the parent.
pub parent_device-append :
    (p v : String)
    → contains_code b'.' v ≡ false
    → parent_device (String.◌++◌ p (String.◌++◌ "." v)) ≡ p
unfolding parent_device
parent_device-append p v h = rw (parent_device, before_last_dot-append p v h) refl
