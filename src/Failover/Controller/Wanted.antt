-- ===== src/Failover/Controller/Wanted.antt =====
-- internal/failover/controller.go: the routes that the active uplinks ask for.
use warp_router.Prelude.{
  String, string_eq, Bool, true, false, ◌&&◌, ◌||◌, some, List, [], ◌∷◌, ◌≡◌, ◌≢◌, inl, inr, refl,
  sym, ◌∙◌, lookup, insert, has, lookup-insert, keys_of, member-keys_of, Distinct, IsRange,
  member_of_All-ne, All, bool_ext, Bool-cases, arith, text_iff, ◌==◌,
}
use warp_router.Net.{Net}
use warp_router.Failover.Routes.{nh_key}
use warp_router.Failover.Vtysh.Replace.{wants}
use warp_router.Failover.Controller.{UplinkInfo, Uplinks, nexthop_of, active_nexthops}

abbrev pub info_key : Net → UplinkInfo → String
info_key net info = nh_key net (nexthop_of info)

-- An active uplink has the route `k`.
abbrev pub is_wanted : Net → List (String × Bool) → String → Uplinks → Bool
is_wanted net active k [] = false
is_wanted net active k ((name, info) ∷ us) =
    (has name active && info_key net info == k) || is_wanted net active k us

pub active_nexthops-wants :
    (net : Net) (active : List (String × Bool)) (k : String) (us : Uplinks)
    → wants net k (active_nexthops active us) ≡ is_wanted net active k us
unfolding active_nexthops
active_nexthops-wants net active k [] = refl
active_nexthops-wants net active k ((name, info) ∷ us) =
    ground (arith, active_nexthops-wants net active k us)

-- The uplink that asks for the route.
record Source (net : Net) (active : List (String × Bool)) (k : String) (us : Uplinks) : Type 0 where
  name : String
  info : UplinkInfo
  found : lookup name us ≡ some info
  is_active : has name active ≡ true
  key_eq : (info_key net info == k) ≡ true

module _ (net : Net) (active : List (String × Bool)) (k : String) where
  lookup-cons_ne :
      (name j : String) (i info : UplinkInfo) (us : Uplinks)
      → All (λ y. j ≢ y) (keys_of us)
      → lookup name us ≡ some info
      → lookup name ((j, i) ∷ us) ≡ some info
  unfolding lookup
  lookup-cons_ne name j i info us fresh e =
      ground (arith, text_iff j name, member_of_All-ne j (keys_of us) fresh, member-keys_of j us, e)

  Source-of_wanted :
      (us : Uplinks)
      → Distinct (keys_of us)
      → is_wanted net active k us ≡ true
      → Source net active k us
  Source-of_wanted [] h w = cc
  Source-of_wanted ((j, i) ∷ us) (fresh, h) w =
      elim (Bool-cases (has j active && info_key net i == k)) [
        | inl here ↦ record {
          name = j;
          info = i;
          found = unfold lookup in rw ((text_iff j j).1 refl) refl;
          is_active = ground arith;
          key_eq = ground arith;
        }
        | inr elsewhere ↦
            let s = Source-of_wanted us h (ground arith) in
            record {
              name = s.name;
              info = s.info;
              found = lookup-cons_ne s.name j i s.info us fresh s.found;
              is_active = s.is_active;
              key_eq = s.key_eq;
            }
      ]

  wanted_of_lookup :
      (us : Uplinks) (name : String) (info : UplinkInfo)
      → lookup name us ≡ some info
      → has name active ≡ true
      → (info_key net info == k) ≡ true
      → is_wanted net active k us ≡ true
  unfolding lookup
  wanted_of_lookup [] name info e a b = cc
  wanted_of_lookup ((j, i) ∷ us) name info e a b =
      ground (arith, text_iff j name, wanted_of_lookup us name info)

  -- The order in which the uplinks are visited does not matter.
  pub wanted-visit :
      (visit : Uplinks → Uplinks) (us : Uplinks)
      → IsRange visit
      → Distinct (keys_of us)
      → is_wanted net active k (visit us) ≡ is_wanted net active k us
  wanted-visit visit us r h =
      bool_ext (is_wanted net active k (visit us)) (is_wanted net active k us)
        (λ w.
          let s = Source-of_wanted (visit us) (r.once us h) w in
          wanted_of_lookup us s.name s.info (sym (r.finds s.name us h) ∙ s.found) s.is_active
            s.key_eq)
        (λ w.
          let s = Source-of_wanted us h w in
          wanted_of_lookup (visit us) s.name s.info (r.finds s.name us h ∙ s.found) s.is_active
            s.key_eq)

  -- A change of one uplink's entry matters only for that uplink's own route.
  pub wanted-insert_ne :
      (name : String) (b : Bool) (us : Uplinks)
      → Distinct (keys_of us)
      → ((info : UplinkInfo) → lookup name us ≡ some info → (info_key net info == k) ≡ false)
      → is_wanted net (insert name b active) k us ≡ is_wanted net active k us
  wanted-insert_ne name b [] h other = refl
  wanted-insert_ne name b ((j, i) ∷ us) (fresh, h) other =
      let later =
        wanted-insert_ne name b us h
          (λ info e. other info (lookup-cons_ne name j i info us fresh e)) in
      elim (Bool-cases (j == name)) [
        | inl same ↦
            let mine : (info_key net i == k) ≡ false = other i (unfold lookup in rw same refl) in
            ground (arith, later, mine)
        | inr differs ↦
            ground (arith, later, lookup-insert name j b active, text_iff j name, text_iff name j)
      ]

-- Only what each uplink's entry reads as matters.
pub wanted_congr :
    (net : Net) (a b : List (String × Bool)) (k : String) (us : Uplinks)
    → ((name : String) → has name a ≡ has name b)
    → is_wanted net a k us ≡ is_wanted net b k us
wanted_congr net a b k [] h = refl
wanted_congr net a b k ((name, info) ∷ us) h = ground (arith, h name, wanted_congr net a b k us h)
