-- ===== src/Prelude/Digits.antt =====
-- What %d prints is read back: two numbers with the same digits are equal.
use Prim.Native.String
use Prim.Native.Char.{code}
use Prim.Native.Nat.{ℕ, zero, suc, ◌+◌, ◌-◌, ◌*◌, ◌/◌, ◌%◌, ◌<◌}
use Prim.Native.String.{String}
use mathlib.Core.Path.{◌≡◌, refl, ◌∙◌}
use mathlib.Core.Logic.{inl, inr}
use text.Mathlib.TextLemmas.{cons-append, nil-append}
use native.Mathlib.Omega.{arith}
use warp_router.Prelude.Tests.{ltb, nat_eq, Bool-cases}
use warp_router.Prelude.Texts.{digit, show_digits, show_nat}

-- The number with the given digits, after those of `acc`.
unfoldable pub number : ℕ → String → ℕ
number acc String.[] = acc
number acc (String.◌∷◌ c s) = number (acc * 10 + (code c - 48)) s

number-append : (acc : ℕ) (s t : String) → number acc (String.◌++◌ s t) ≡ number (number acc s) t
unfolding number
number-append acc String.[] t = rw (nil-append t) refl
number-append acc (String.◌∷◌ c s) t =
    rw (cons-append c s t) (number-append (acc * 10 + (code c - 48)) s t)

number-digit : (acc d : ℕ) → d < 10 → number acc (digit d) ≡ acc * 10 + d
unfolding number
number-digit acc zero h = omega arith
number-digit acc (suc zero) h = omega arith
number-digit acc (suc (suc zero)) h = omega arith
number-digit acc (suc (suc (suc zero))) h = omega arith
number-digit acc (suc (suc (suc (suc zero)))) h = omega arith
number-digit acc (suc (suc (suc (suc (suc zero))))) h = omega arith
number-digit acc (suc (suc (suc (suc (suc (suc zero)))))) h = omega arith
number-digit acc (suc (suc (suc (suc (suc (suc (suc zero))))))) h = omega arith
number-digit acc (suc (suc (suc (suc (suc (suc (suc (suc zero)))))))) h = omega arith
number-digit acc (suc (suc (suc (suc (suc (suc (suc (suc (suc zero))))))))) h = omega arith
number-digit acc (suc (suc (suc (suc (suc (suc (suc (suc (suc (suc d)))))))))) h = omega (arith, h)

abbrev pub tens : ℕ → ℕ
tens zero = 1
tens (suc n) = 10 * tens n

number-show_digits : (fuel n : ℕ) → n < tens fuel → number 0 (show_digits fuel n) ≡ n
unfolding show_digits number
number-show_digits zero n h = omega (arith, h)
number-show_digits (suc fuel) n h = elim (Bool-cases (ltb n 10)) [
  | inl small ↦ rw small (number-digit 0 n (ground arith) ∙ omega arith)
  | inr large ↦
      rw
        (
          large,
          number-append 0 (show_digits fuel (n / 10)) (digit (n % 10)),
          number-show_digits fuel (n / 10) (omega (arith, h)),
          number-digit (n / 10) (n % 10) (omega arith),
        )
        (omega arith)
]

-- A number of at most twenty digits is read back, with a zero in front too.
pub number-show_nat : (n : ℕ) → n < tens 20 → number 0 (show_nat n) ≡ n
unfolding show_nat
number-show_nat n h = number-show_digits 20 n h

pub number_zero_front : (s : String) → number 0 (String.◌++◌ "0" s) ≡ number 0 s
unfolding number
number_zero_front s = number-append 0 "0" s
