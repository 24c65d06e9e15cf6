-- ===== src/Config/Valid/Checks.antt =====
-- internal/config/validate.go: lists of errors that are empty, put together from their parts.
use warp_router.Prelude.{
  ℕ, ◌+◌, String, string_eq, Bool, true, false, is_some, Option, none, some, ◌⊎◌, inl, inr, List,
  [], ◌∷◌, ◌++◌, ◌≡◌, ◌↔◌, refl, append-eq-nil_iff, All, arith,
}
use warp_router.Config.Errors.{ConfigError}
use warp_router.Config.Validate.Interfaces.{error_if, parses_ip, parses_cidr}
use warp_router.Config.Validate.Services.{each}
use warp_router.Net.{Ip, IpNet, Net}

-- Package net reads the text as an IP address.
abbrev pub IsIp : Net → String → Type 0
IsIp net s = (ip : Ip) × (net.parse_ip s ≡ some ip)

-- Package net reads the text as an address with its network.
abbrev pub IsCidr : Net → String → Type 0
IsCidr net s = (parsed : Ip × IpNet) × (net.parse_cidr s ≡ some parsed)

is_some_iff {ℓ} : {A : Type ℓ} (o : Option A) → (is_some o ≡ true) ↔ ((a : A) × (o ≡ some a))
is_some_iff none = (λ h. cc, λ (a, e). cc)
is_some_iff (some a) = (λ _. (a, refl), λ _. refl)

pub parses_ip_iff : (net : Net) (s : String) → (parses_ip net s ≡ true) ↔ IsIp net s
parses_ip_iff net s = is_some_iff (net.parse_ip s)

pub parses_cidr_iff : (net : Net) (s : String) → (parses_cidr net s ≡ true) ↔ IsCidr net s
parses_cidr_iff net s = is_some_iff (net.parse_cidr s)

pub iff_trans : {P Q R : Type 0} → P ↔ Q → Q ↔ R → P ↔ R
iff_trans p q = (λ h. q.0 (p.0 h), λ h. p.1 (q.1 h))

pub or_iff : {P Q R : Type 0} → Q ↔ R → (P ⊎ Q) ↔ (P ⊎ R)
or_iff q =
    (elim [ inl p ↦ inl p | inr h ↦ inr (q.0 h) ], elim [ inl p ↦ inl p | inr h ↦ inr (q.1 h) ])

pub and_iff : {P Q R : Type 0} → Q ↔ R → (P × Q) ↔ (P × R)
and_iff q = (λ (p, h). (p, q.0 h), λ (p, h). (p, q.1 h))

-- No error.
abbrev pub Passes : List ConfigError → Type 0
Passes errs = errs ≡ []

pub Passes-error_if :
    (failed : Bool) (e : ConfigError) → Passes (error_if failed e) ↔ (failed ≡ false)
Passes-error_if failed e = ground arith

pub Passes-append :
    {P Q : Type 0} {xs ys : List ConfigError}
    → Passes xs ↔ P
    → Passes ys ↔ Q
    → Passes (xs ++ ys) ↔ (P × Q)
Passes-append {xs} {ys} p q = (
  λ h. let (a, b) = (append-eq-nil_iff xs ys).0 h in (p.0 a, q.0 b),
  λ h. (append-eq-nil_iff xs ys).1 (p.1 h.0, q.1 h.1),
)

pub Passes-each {ℓ} :
    {A : Type ℓ} {P : A → Type 0} (body : ℕ → A → List ConfigError)
    → ((i : ℕ) (x : A) → Passes (body i x) ↔ P x)
    → (i : ℕ) (xs : List A) → Passes (each body i xs) ↔ All P xs
Passes-each body h i [] = (λ _. tt, λ _. refl)
Passes-each body h i (x ∷ xs) = Passes-append (h i x) (Passes-each body h (i + 1) xs)
