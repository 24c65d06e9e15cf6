-- ===== src/Config/Valid/Policies.antt =====
-- internal/config/validate.go: which firewall and PBR settings pass, and which subnets.
use Prim.Native.Char.{code}
use warp_router.Prelude.{
  ℕ, int_eq, String, string_eq, true, not, ◌&&◌, ◌||◌, Option, none, some, List, [], ◌∷◌, map, ◌≡◌,
  ◌≢◌, ◌↔◌, ◌⊎◌, refl, lookup, insert, has, lookup-insert, member, nat_eq, nat_beq_iff, lower_code,
  lower_codes, Any, inl, inr, ◌+◌, ◌≤◌, codes, codes_beq, All, arith, text_iff, ◌==◌,
}
use warp_router.Config.{Interface, FirewallZone, Firewall}
use warp_router.Config.Errors
use warp_router.Config.Errors.{ConfigError}
use warp_router.Config.Validate.Interfaces.{error_if}
use warp_router.Config.Validate.Services.{
  Names, interface_names, action_ok, zone_errors, zone_names, forward_errors, input_errors,
  validate_firewall,
}
use warp_router.Config.Valid.Checks.{iff_trans, and_iff, Passes, Passes-append, Passes-each}
use warp_router.Config.Valid.Services.{IsDefined, IsDefined-iff, member-map_iff, not_iff}

-- A text spells a word of small letters, with any of them as a capital.
abbrev Spells : List ℕ → List ℕ → Type 0
Spells [] [] = Unit
Spells [] (c ∷ cs) = ⊥
Spells (d ∷ ds) [] = ⊥
Spells (d ∷ ds) (c ∷ cs) = ((c ≡ d) ⊎ (c + 32 ≡ d)) × Spells ds cs

-- The action is accept or drop, in any case of its letters.
abbrev pub IsAction : String → Type 0
IsAction action = Spells (codes "accept") (codes action) ⊎ Spells (codes "drop") (codes action)

abbrev AreSmall : List ℕ → Type 0
AreSmall = All (λ d. (b'a' ≤ d) × (d ≤ b'z'))

letter_iff : (c d : ℕ) → b'a' ≤ d → d ≤ b'z' → (lower_code c ≡ d) ↔ ((c ≡ d) ⊎ (c + 32 ≡ d))
letter_iff c d h k = ground arith

Spells-iff : (ds : List ℕ) (s : String) → AreSmall ds → (lower_codes s ≡ ds) ↔ Spells ds (codes s)
Spells-iff [] String.[] h = (λ _. tt, λ _. refl)
Spells-iff [] (String.◌∷◌ c s) h = (λ e. cc, λ e. absurd e)
Spells-iff (d ∷ ds) String.[] h = (λ e. cc, λ e. absurd e)
Spells-iff (d ∷ ds) (String.◌∷◌ c s) ((low, high), h) =
    let (to, from) = letter_iff (code c) d low high in
    let (all_to, all_from) = Spells-iff ds s h in
    (
      λ e.
          let first : lower_code (code c) ≡ d = cc in
          let others : lower_codes s ≡ ds = cc in (to first, all_to others),
      λ (first, others).
          let e : lower_code (code c) ≡ d = from first in
          let es : lower_codes s ≡ ds = all_from others in rw (e, es) refl,
    )

codes_beq_iff : (xs ys : List ℕ) → (codes_beq xs ys ≡ true) ↔ (xs ≡ ys)
codes_beq_iff [] [] = (λ _. refl, λ _. refl)
codes_beq_iff [] (b ∷ ys) = (λ h. cc, λ h. cc)
codes_beq_iff (a ∷ xs) [] = (λ h. cc, λ h. cc)
codes_beq_iff (a ∷ xs) (b ∷ ys) = ground (arith, codes_beq_iff xs ys, nat_beq_iff a b)

action_checks :
    (action : String) (e : ConfigError)
    → Passes (error_if (not (action_ok action)) e)
      ↔ ((lower_codes action ≡ codes "accept") ⊎ (lower_codes action ≡ codes "drop"))
unfolding action_ok
action_checks action e = ground (
  arith,
  codes_beq_iff (lower_codes action) (codes "accept"),
  codes_beq_iff (lower_codes action) (codes "drop"),
)

action_iff :
    (action : String) (e : ConfigError)
    → Passes (error_if (not (action_ok action)) e) ↔ IsAction action
action_iff action e =
    let accept = Spells-iff (codes "accept") action (omega arith) in
    let drop = Spells-iff (codes "drop") action (omega arith) in
    iff_trans (action_checks action e) (
      elim [ inl p ↦ inl (accept.0 p) | inr p ↦ inr (drop.0 p) ],
      elim [ inl p ↦ inl (accept.1 p) | inr p ↦ inr (drop.1 p) ],
    )

-- A zone of the firewall has the name.
abbrev pub IsZone : List FirewallZone → String → Type 0
IsZone zones name = (name ≢ "") × Any (λ zone. zone.name ≡ name) zones

zone_names-member :
    (name : String) (zones : List FirewallZone) (names : Names)
    → has name (zone_names zones names)
      ≡ (has name names || (not (name == "") && member name (map (λ zone. zone.name) zones)))
unfolding zone_names
zone_names-member name [] names = ground arith
zone_names-member name (zone ∷ zones) names = ground (
  arith,
  zone_names-member name zones names,
  zone_names-member name zones (insert zone.name true names),
  lookup-insert zone.name name true names,
  text_iff zone.name "",
  text_iff zone.name name,
  text_iff name "",
)

zone_checks :
    (zones : List FirewallZone) (name : String) (e : ConfigError)
    → Passes (error_if (not (has name (zone_names zones []))) e)
      ↔ ((name ≢ "") × (member name (map (λ zone. zone.name) zones) ≡ true))
unfolding lookup
zone_checks zones name e = ground (arith, zone_names-member name zones [], text_iff name "")

zone_iff :
    (zones : List FirewallZone) (name : String) (e : ConfigError)
    → Passes (error_if (not (has name (zone_names zones []))) e) ↔ IsZone zones name
zone_iff zones name e =
    iff_trans (zone_checks zones name e) (and_iff (member-map_iff (λ zone. zone.name) name zones))

-- A firewall whose zones are named and hold defined interfaces, and whose rules name zones and have
-- an action.
pub record IsValidFirewall (ifaces : List Interface) (fw : Firewall) : Type 0 where
  pub zones : All (λ zone. (zone.name ≢ "") × All (IsDefined ifaces) zone.interfaces) fw.zones
  pub forward_rules :
      All
        (λ rule. IsZone fw.zones rule.from × (IsZone fw.zones rule.to × IsAction rule.action))
        fw.forward_rules
  pub input_rules : All (λ rule. IsZone fw.zones rule.zone × IsAction rule.action) fw.input_rules

pub named_iff : (s : String) (e : ConfigError) → Passes (error_if (s == "") e) ↔ (s ≢ "")
named_iff s e = ground (arith, text_iff s "")

IsDefined-error_iff :
    (ifaces : List Interface) (name : String) (e : ConfigError)
    → Passes (error_if (not (has name (interface_names ifaces []))) e) ↔ IsDefined ifaces name
IsDefined-error_iff ifaces name e =
    iff_trans (not_iff (has name (interface_names ifaces [])) e) (IsDefined-iff ifaces name)

abbrev pub IsValidFirewallOption : List Interface → Option Firewall → Type 0
IsValidFirewallOption ifaces none = Unit
IsValidFirewallOption ifaces (some fw) = IsValidFirewall ifaces fw

pub validate_firewall_iff :
    (ifaces : List Interface) (fw : Option Firewall)
    → Passes (validate_firewall ifaces fw) ↔ IsValidFirewallOption ifaces fw
unfolding validate_firewall
validate_firewall_iff ifaces none = (λ h. tt, λ h. refl)
validate_firewall_iff ifaces (some fw) =
    let names = interface_names ifaces [] in
    let zones = zone_names fw.zones [] in
    let (to, from) =
      Passes-append
        (Passes-each (zone_errors names)
          (λ i zone. Passes-append (named_iff zone.name (Errors.zone_name_required i)) (
            Passes-each {P = IsDefined ifaces}
              (λ j name. error_if (not (has name names)) (Errors.zone_interface_undefined i j name))
              (λ j name. IsDefined-error_iff ifaces name (Errors.zone_interface_undefined i j name))
              0 zone.interfaces))
          0 fw.zones)
        (Passes-append
          (Passes-each (forward_errors zones)
            (λ i rule.
              Passes-append (zone_iff fw.zones rule.from (Errors.from_zone_undefined i rule.from)) (
                Passes-append (zone_iff fw.zones rule.to (Errors.to_zone_undefined i rule.to))
                  (action_iff rule.action (Errors.bad_forward_action i rule.action))))
            0 fw.forward_rules)
          (Passes-each (input_errors zones)
            (λ i rule.
              Passes-append (zone_iff fw.zones rule.zone (Errors.input_zone_undefined i rule.zone))
                (action_iff rule.action (Errors.bad_input_action i rule.action)))
            0 fw.input_rules)) in
    (
      λ h. let (z, (f, i)) = to h in record { zones = z; forward_rules = f; input_rules = i },
      λ v. from (v.zones, (v.forward_rules, v.input_rules)),
    )
