-- ===== src/Config/Valid/Interfaces.antt =====
-- internal/config/validate.go: which interfaces validateInterfaces accepts.
use Prim.Native.Nat.{ℕ}
use warp_router.Prelude.{
  ◌+◌, String, string_eq, Bool, true, false, not, List, [], ◌∷◌, map, ◌≡◌, ◌≢◌, ◌↔◌, ◌⊎◌, inl, inr,
  refl, lookup, has, lookup-insert, All, Any, Distinct, arith, text_iff, if◌then◌else◌, ◌==◌,
}
use warp_router.Config.{Interface}
use warp_router.Config.Errors.{wan_required, lan_required}
use warp_router.Config.Validate.Interfaces.{
  Scan, remember, next_scan, validate_from, validate_interfaces,
}
use warp_router.Config.Valid.Checks.{Passes, Passes-append, Passes-error_if}
use warp_router.Net.{Net}
use warp_router.Config.Valid.OneInterface.{IsValidInterface, interface_iff}

abbrev IsNew : List (String × Bool) → List String → Type 0
IsNew seen = All (λ s. has s seen ≡ false)

-- What the rest of the loop needs: `scan` tells what came before.
record AreValid (net : Net) (ifaces : List Interface) (scan : Scan) : Type 0 where
  each : All (IsValidInterface net) ifaces
  names : Distinct (map (λ iface. iface.name) ifaces)
  devices : Distinct (map (λ iface. iface.device) ifaces)
  new_names : IsNew scan.names (map (λ iface. iface.name) ifaces)
  new_devices : IsNew scan.devices (map (λ iface. iface.device) ifaces)
  wan : (scan.has_wan ≡ true) ⊎ Any (λ iface. iface.role ≡ "wan") ifaces
  lan : (scan.has_lan ≡ true) ⊎ Any (λ iface. iface.role ≡ "lan") ifaces

has-remember :
    (s t : String) (seen : List (String × Bool))
    → s ≢ ""
    → has s seen ≡ false
    → has t (remember s seen) ≡ (if s == t then true else has t seen)
has-remember s t seen ne new = ground (arith, text_iff s "", lookup-insert s t true seen)

-- New after one more name: new before, and another name.
IsNew-remember :
    (s : String) (seen : List (String × Bool)) (ss : List String)
    → s ≢ ""
    → has s seen ≡ false
    → IsNew (remember s seen) ss ↔ (All (λ t. s ≢ t) ss × IsNew seen ss)
IsNew-remember s seen [] ne new = (λ _. (tt, tt), λ _. tt)
IsNew-remember s seen (t ∷ ss) ne new =
    let entry = has-remember s t seen ne new in
    let (to, from) = IsNew-remember s seen ss ne new in
    (
      λ (h, hs).
          let (others, news) = to hs in
          ((λ e. ground (arith, entry, text_iff s t), others), (ground (arith, entry), news)),
      λ ((differs, others), (h, hs)). (ground (arith, entry, text_iff s t), from (others, hs)),
    )

module _ (net : Net) (iface : Interface) (ifaces : List Interface) (scan : Scan) where
  abbrev Parts : Type 0
  Parts =
      (IsValidInterface net iface
        × (has iface.name scan.names ≡ false)
        × (has iface.device scan.devices ≡ false))
      × AreValid net ifaces (next_scan iface scan)

  AreValid-cons : Parts → AreValid net (iface ∷ ifaces) scan
  unfolding next_scan
  AreValid-cons ((v, fresh, new), vs) =
      let (other_names, new_names) =
        (IsNew-remember iface.name scan.names (map (λ j. j.name) ifaces) v.named fresh).0
          vs.new_names in
      let (other_devices, new_devices) =
        (IsNew-remember iface.device scan.devices (map (λ j. j.device) ifaces) v.on_device new).0
          vs.new_devices in
      record {
        each = (v, vs.each);
        names = (other_names, vs.names);
        devices = (other_devices, vs.devices);
        new_names = (fresh, new_names);
        new_devices = (new, new_devices);
        wan = ground (arith, vs.wan, text_iff iface.role "wan");
        lan = ground (arith, vs.lan, text_iff iface.role "lan");
      }

  AreValid-uncons : AreValid net (iface ∷ ifaces) scan → Parts
  unfolding next_scan
  AreValid-uncons a =
      let v = a.each.0 in
      (
        (v, a.new_names.0, a.new_devices.0),
        record {
          each = a.each.1;
          names = a.names.1;
          devices = a.devices.1;
          new_names =
              (IsNew-remember iface.name scan.names (map (λ j. j.name) ifaces) v.named
                  a.new_names.0).1
                (a.names.0, a.new_names.1);
          new_devices =
              (IsNew-remember iface.device scan.devices (map (λ j. j.device) ifaces) v.on_device
                  a.new_devices.0).1
                (a.devices.0, a.new_devices.1);
          wan = ground (arith, a.wan, text_iff iface.role "wan");
          lan = ground (arith, a.lan, text_iff iface.role "lan");
        },
      )

module _ (net : Net) where
  validate_from_iff :
      (i : ℕ) (ifaces : List Interface) (scan : Scan)
      → Passes (validate_from net i ifaces scan) ↔ AreValid net ifaces scan
  unfolding validate_from
  validate_from_iff i [] scan =
      let (to, from) =
        Passes-append (Passes-error_if (not scan.has_wan) wan_required)
          (Passes-error_if (not scan.has_lan) lan_required) in
      (
        λ h. record {
          each = tt;
          names = tt;
          devices = tt;
          new_names = tt;
          new_devices = tt;
          wan = inl (ground (arith, (to h).0));
          lan = inl (ground (arith, (to h).1));
        },
        λ v. from (ground (arith, v.wan), ground (arith, v.lan)),
      )
  validate_from_iff i (iface ∷ ifaces) scan =
      let (to, from) =
        Passes-append (interface_iff net i iface scan)
          (validate_from_iff (i + 1) ifaces (next_scan iface scan)) in
      (
        λ h. AreValid-cons net iface ifaces scan (to h),
        λ v. from (AreValid-uncons net iface ifaces scan v),
      )

-- What validateInterfaces wants of all interfaces.
pub record AreValidInterfaces (net : Net) (ifaces : List Interface) : Type 0 where
  pub each : All (IsValidInterface net) ifaces
  pub names : Distinct (map (λ iface. iface.name) ifaces)
  pub devices : Distinct (map (λ iface. iface.device) ifaces)
  pub wan : Any (λ iface. iface.role ≡ "wan") ifaces
  pub lan : Any (λ iface. iface.role ≡ "lan") ifaces

IsNew-nil : (ss : List String) → IsNew [] ss
unfolding lookup
IsNew-nil [] = tt
IsNew-nil (s ∷ ss) = (refl, IsNew-nil ss)

some_later : {P : Type 0} → (false ≡ true) ⊎ P → P
some_later (inl e) = cc
some_later (inr p) = p

-- validateInterfaces returns no error exactly for valid interfaces: each is valid by itself, names
-- and devices stand once each, and there is a WAN and a LAN interface.
pub validate_interfaces_iff :
    (net : Net) (ifaces : List Interface)
    → (validate_interfaces net ifaces ≡ []) ↔ AreValidInterfaces net ifaces
unfolding validate_interfaces
validate_interfaces_iff net ifaces =
    let (to, from) =
      validate_from_iff net 0 ifaces
        (record { names = []; devices = []; has_wan = false; has_lan = false }) in
    (
      λ h.
          let v = to h in
          record {
            each = v.each;
            names = v.names;
            devices = v.devices;
            wan = some_later v.wan;
            lan = some_later v.lan;
          },
      λ v. from (record {
        each = v.each;
        names = v.names;
        devices = v.devices;
        new_names = IsNew-nil (map (λ iface. iface.name) ifaces);
        new_devices = IsNew-nil (map (λ iface. iface.device) ifaces);
        wan = inr v.wan;
        lan = inr v.lan;
      }),
    )
