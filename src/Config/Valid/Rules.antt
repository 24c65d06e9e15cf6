-- ===== src/Config/Valid/Rules.antt =====
-- internal/config/validate.go: which PBR rules pass.
use warp_router.Prelude.{
  ℕ, ◌+◌, ℤ, int_eq, int_beq_iff, String, string_eq, true, not, ◌&&◌, Option, none, some, List, [],
  ◌∷◌, map, ◌≡◌, ◌≢◌, ◌↔◌, ◌⊎◌, refl, lookup, insert, lookup-insert, All, Distinct, arith, text_iff,
  ◌==◌,
}
use warp_router.Config.{Interface, PbrRule}
use warp_router.Config.Errors
use warp_router.Config.Errors.{ConfigError}
use warp_router.Config.Validate.Interfaces.{error_if, parses_cidr}
use warp_router.Config.Validate.Services.{
  Priorities, interface_names, pbr_errors, pbr_from, note_priority, priority_errors, validate_pbr,
}
use warp_router.Config.Valid.Checks.{
  IsCidr, parses_cidr_iff, iff_trans, or_iff, Passes, Passes-append,
}
use warp_router.Config.Valid.Services.{IsDefined, optional_iff}
use warp_router.Config.Valid.Policies.{named_iff}
use warp_router.Net.{Net}

-- What each rule needs by itself.
pub record IsValidRule (net : Net) (ifaces : List Interface) (rule : PbrRule) : Type 0 where
  pub named : rule.name ≢ ""
  pub valid_interface : (rule.interface ≡ "") ⊎ IsDefined ifaces rule.interface
  pub valid_source : (rule.source ≡ "") ⊎ IsCidr net rule.source

source_iff :
    (net : Net) (s : String) (e : ConfigError)
    → Passes (error_if (not (s == "") && not (parses_cidr net s)) e) ↔ ((s ≡ "") ⊎ IsCidr net s)
source_iff net s e =
    let checks : Passes (error_if (not (s == "") && not (parses_cidr net s)) e)
        ↔ ((s ≡ "") ⊎ (parses_cidr net s ≡ true)) =
      ground (arith, text_iff s "") in
    iff_trans checks (or_iff (parses_cidr_iff net s))

priority_iff :
    (i : ℕ) (rule : PbrRule) (o : Option String) → Passes (priority_errors i rule o) ↔ (o ≡ none)
priority_iff i rule none = (λ _. refl, λ _. refl)
priority_iff i rule (some existing) = (λ h. cc, λ h. cc)

abbrev AreNew : Priorities → List PbrRule → Type 0
AreNew seen = All (λ rule. lookup rule.priority seen ≡ none)

abbrev priorities : List PbrRule → List ℤ
priorities = map (λ rule. rule.priority)

AreNew-insert :
    (p : ℤ) (name : String) (seen : Priorities) (rules : List PbrRule)
    → AreNew (insert p name seen) rules ↔ (All (λ q. p ≢ q) (priorities rules) × AreNew seen rules)
AreNew-insert p name seen [] = (λ _. (tt, tt), λ _. tt)
AreNew-insert p name seen (rule ∷ rules) =
    let (to, from) = AreNew-insert p name seen rules in
    let entry = lookup-insert p rule.priority name seen in
    (
      λ (h, hs).
          let (others, news) = to hs in
          (
            (λ e. ground (arith, entry, int_beq_iff p rule.priority), others),
            (ground (arith, entry), news),
          ),
      λ ((differs, others), (h, hs)).
          (ground (arith, entry, int_beq_iff p rule.priority), from (others, hs)),
    )

AreNew-nil : (rules : List PbrRule) → AreNew [] rules
unfolding lookup
AreNew-nil [] = tt
AreNew-nil (rule ∷ rules) = (refl, AreNew-nil rules)

module _ (net : Net) (ifaces : List Interface) where
  abbrev RulesFrom : Priorities → List PbrRule → Type 0
  RulesFrom seen rules =
      All (IsValidRule net ifaces) rules × (Distinct (priorities rules) × AreNew seen rules)

  rule_iff :
      (seen : Priorities) (i : ℕ) (rule : PbrRule)
      → Passes (pbr_errors net (interface_names ifaces []) seen i rule)
        ↔ (IsValidRule net ifaces rule × (lookup rule.priority seen ≡ none))
  unfolding pbr_errors
  rule_iff seen i rule =
      let (to, from) = Passes-append (named_iff rule.name (Errors.pbr_name_required i)) (
        Passes-append
          (optional_iff ifaces rule.interface
            (Errors.pbr_interface_undefined i rule.name rule.interface))
          (Passes-append
            (source_iff net rule.source (Errors.pbr_source_invalid i rule.name rule.source))
            (priority_iff i rule (lookup rule.priority seen)))) in
      (
        λ h.
            let (n, (d, (s, p))) = to h in
            (record { named = n; valid_interface = d; valid_source = s }, p),
        λ (v, p). from (v.named, (v.valid_interface, (v.valid_source, p))),
      )

  pbr_from_iff :
      (seen : Priorities) (i : ℕ) (rules : List PbrRule)
      → Passes (pbr_from net (interface_names ifaces []) seen i rules) ↔ RulesFrom seen rules
  unfolding pbr_from
  pbr_from_iff seen i [] = (λ _. (tt, (tt, tt)), λ _. refl)
  pbr_from_iff seen i (rule ∷ rules) =
      let next = note_priority rule (lookup rule.priority seen) seen in
      let (to, from) = Passes-append (rule_iff seen i rule) (pbr_from_iff next (i + 1) rules) in
      let (apart, join) = AreNew-insert rule.priority rule.name seen rules in
      (
        λ h.
            let ((v, new), (vs, (d, ns))) = to h in
            let (others, news) = apart (rw (new, note_priority) at ns) in
            ((v, vs), ((others, d), (new, news))),
        λ ((v, vs), ((others, d), (new, news))).
            from ((v, new), (vs, (d, rw new (join (others, news))))),
      )

  -- validatePBR.
  pub validate_pbr_iff :
      (rules : List PbrRule)
      → Passes (validate_pbr net ifaces rules)
        ↔ (All (IsValidRule net ifaces) rules × Distinct (map (λ rule. rule.priority) rules))
  unfolding validate_pbr
  validate_pbr_iff rules =
      let (to, from) = pbr_from_iff [] 0 rules in
      (λ h. let (vs, (d, news)) = to h in (vs, d), λ (vs, d). from (vs, (d, AreNew-nil rules)))
