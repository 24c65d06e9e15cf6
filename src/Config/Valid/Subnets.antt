-- ===== src/Config/Valid/Subnets.antt =====
-- internal/config/validate.go: which networks of the interfaces pass validateSubnetOverlaps.
use mathlib.Core.Path.{subst}
use warp_router.Prelude.{
  string_eq, false, Option, none, some, List, [], ◌∷◌, ◌≡◌, ◌≢◌, ◌↔◌, refl, inl, inr, All,
  Bool-cases, Option-cases, arith, text_iff, ◌==◌,
}
use warp_router.Config.{Interface}
use warp_router.Config.Errors
use warp_router.Config.Validate.Interfaces.{
  NamedNet, keep, named_net, named_nets, overlaps, overlaps_with, overlap_errors,
  validate_subnet_overlaps,
}
use warp_router.Config.Valid.Checks.{iff_trans, Passes, Passes-append, Passes-error_if}
use warp_router.Net.{Ip, IpNet, Net, contains}

-- The interface has an address of its own, in the network.
abbrev pub IsIn : Net → Interface → IpNet → Type 0
IsIn net iface n =
    (iface.address ≢ "")
    × (iface.address ≢ "dhcp")
    × ((base : Ip) × (net.parse_cidr iface.address ≡ some (base, n)))

-- Neither network holds the other one's base address.
abbrev AreSeparate : IpNet → IpNet → Type 0
AreSeparate n m = (contains n m.ip ≡ false) × (contains m n.ip ≡ false)

-- The network `n` is separate from those of the interfaces.
abbrev IsSeparate : Net → IpNet → List Interface → Type 0
IsSeparate net n = All (λ b. (m : IpNet) → IsIn net b m → AreSeparate n m)

-- The networks of any two interfaces are separate.
abbrev pub AreApart : Net → List Interface → Type 0
AreApart net [] = Unit
AreApart net (a ∷ ifaces) =
    ((n : IpNet) → IsIn net a n → IsSeparate net n ifaces) × AreApart net ifaces

-- The code's test, on the networks that it has collected.
abbrev AreNetsApart : List NamedNet → Type 0
AreNetsApart [] = Unit
AreNetsApart (a ∷ ns) = All (λ b. overlaps a b ≡ false) ns × AreNetsApart ns

overlaps_with_iff :
    (a : NamedNet) (ns : List NamedNet)
    → Passes (overlaps_with a ns) ↔ All (λ b. overlaps a b ≡ false) ns
unfolding overlaps_with
overlaps_with_iff a [] = (λ _. tt, λ _. refl)
overlaps_with_iff a (b ∷ ns) =
    Passes-append
      (Passes-error_if (overlaps a b) (Errors.overlapping_subnets a.name a.net b.name b.net))
      (overlaps_with_iff a ns)

overlap_errors_iff : (ns : List NamedNet) → Passes (overlap_errors ns) ↔ AreNetsApart ns
unfolding overlap_errors
overlap_errors_iff [] = (λ _. tt, λ _. refl)
overlap_errors_iff (a ∷ ns) = Passes-append (overlaps_with_iff a ns) (overlap_errors_iff ns)

overlaps_iff : (a b : NamedNet) → (overlaps a b ≡ false) ↔ AreSeparate a.net b.net
overlaps_iff a b = ground arith

module _ (net : Net) where
  -- Whether the code collects a network of an interface, and which.
  data Collected (iface : Interface) : Option NamedNet → Type 0 where
    skipped : ((n : IpNet) → ¬ IsIn net iface n) → Collected iface none
    taken : (x : NamedNet) → IsIn net iface x.net → Collected iface (some x)

  named_net-Collected : (iface : Interface) → Collected iface (named_net net iface)
  named_net-Collected iface = elim (Bool-cases (iface.address == "")) [
    | inl empty ↦ rw empty (skipped (λ n (h, _, _). h ((text_iff iface.address "").0 empty)))
    | inr given ↦ elim (Bool-cases (iface.address == "dhcp")) [
      | inl dhcp ↦
          rw (given, dhcp) (skipped (λ n (_, h, _). h ((text_iff iface.address "dhcp").0 dhcp)))
      | inr static ↦ elim (Option-cases (net.parse_cidr iface.address)) [
        | inl unread ↦ rw (given, static, unread, named_net) (skipped (λ n (_, _, (base, e)). cc))
        | inr ((base, n), read) ↦
            rw (given, static, read, named_net)
              (taken (record { name = iface.name; net = n })
                (
                  λ e. ground (arith, text_iff iface.address "", given, e),
                  λ e. ground (arith, text_iff iface.address "dhcp", static, e),
                  (base, read),
                ))
      ]
    ]
  ]

  IsIn-unique : (iface : Interface) (n m : IpNet) → IsIn net iface n → IsIn net iface m → n ≡ m
  IsIn-unique iface n m (_, _, (base, e)) (_, _, (base', e')) = cc

  with_cons :
      (x : NamedNet) (b : Interface) (ifaces : List Interface) (o : Option NamedNet)
      → Collected b o
      → All (λ y. overlaps x y ≡ false) (named_nets net ifaces) ↔ IsSeparate net x.net ifaces
      → All (λ y. overlaps x y ≡ false) (keep o (named_nets net ifaces))
        ↔ IsSeparate net x.net (b ∷ ifaces)
  with_cons x b ifaces _ (skipped never) (to, from) =
      (λ h. (λ m is. absurd (never m is), to h), λ (_, h). from h)
  with_cons x b ifaces _ (taken y is) (to, from) = (
    λ (e, h). (
      λ m is'.
          subst (λ (k : IpNet). AreSeparate x.net k) (IsIn-unique b y.net m is is')
            ((overlaps_iff x y).0 e),
      to h,
    ),
    λ (f, h). ((overlaps_iff x y).1 (f y.net is), from h),
  )

  with_iff :
      (x : NamedNet) (ifaces : List Interface)
      → All (λ y. overlaps x y ≡ false) (named_nets net ifaces) ↔ IsSeparate net x.net ifaces
  unfolding named_nets
  with_iff x [] = (λ _. tt, λ _. tt)
  with_iff x (b ∷ ifaces) =
      with_cons x b ifaces (named_net net b) (named_net-Collected b) (with_iff x ifaces)

  apart_cons :
      (a : Interface) (ifaces : List Interface) (o : Option NamedNet)
      → Collected a o
      → AreNetsApart (named_nets net ifaces) ↔ AreApart net ifaces
      → AreNetsApart (keep o (named_nets net ifaces)) ↔ AreApart net (a ∷ ifaces)
  apart_cons a ifaces _ (skipped never) (to, from) =
      (λ h. (λ n is. absurd (never n is), to h), λ (_, h). from h)
  apart_cons a ifaces _ (taken x is) (to, from) =
      let (with_to, with_from) = with_iff x ifaces in
      (
        λ (e, h). (
          λ n is'.
              subst (λ (k : IpNet). IsSeparate net k ifaces) (IsIn-unique a x.net n is is')
                (with_to e),
          to h,
        ),
        λ (f, h). (with_from (f x.net is), from h),
      )

  apart_iff : (ifaces : List Interface) → AreNetsApart (named_nets net ifaces) ↔ AreApart net ifaces
  unfolding named_nets
  apart_iff [] = (λ _. tt, λ _. tt)
  apart_iff (a ∷ ifaces) =
      apart_cons a ifaces (named_net net a) (named_net-Collected a) (apart_iff ifaces)

  pub validate_subnet_overlaps_iff :
      (ifaces : List Interface) → Passes (validate_subnet_overlaps net ifaces) ↔ AreApart net ifaces
  unfolding validate_subnet_overlaps
  validate_subnet_overlaps_iff ifaces =
      iff_trans (overlap_errors_iff (named_nets net ifaces)) (apart_iff ifaces)
