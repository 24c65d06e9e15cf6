-- ===== src/Config/Valid/OneInterface.antt =====
-- internal/config/validate.go: what validateInterfaces asks of one interface.
use Prim.Native.Nat.{ℕ}
use warp_router.Prelude.{
  ◌≤◌, ◌<◌, ℤ, pos, negsuc, ltb_ℤ, String, string_eq, true, false, not, ◌&&◌, ◌||◌, ◌++◌, ◌≡◌, ◌≢◌,
  ◌↔◌, ◌⊎◌, inl, inr, has, contains_code, Any, codes, Bool-cases, arith, text_iff,
}
use warp_router.Config.{Interface}
use warp_router.Config.Errors.{ConfigError, vlan_out_of_range, vlan_device_not_dotted}
use warp_router.Config.Validate.Interfaces.{
  error_if, Scan, parses_cidr, parses_ip, name_errors, device_errors, role_errors, address_errors,
  gateway_errors, vlan_errors, interface_errors,
}
use warp_router.Config.Valid.Checks.{
  IsIp, IsCidr, parses_ip_iff, parses_cidr_iff, iff_trans, or_iff, and_iff, Passes, Passes-append,
}
use warp_router.Net.{Net}

-- A VLAN ID in range; a tagged interface has a dotted device name.
abbrev pub IsValidVlan : ℤ → String → Type 0
IsValidVlan (pos n) device = (n ≤ 4094) × (0 < n → Any (λ c. c ≡ b'.') (codes device))
IsValidVlan (negsuc n) device = ⊥

-- What each interface needs by itself.
pub record IsValidInterface (net : Net) (iface : Interface) : Type 0 where
  pub named : iface.name ≢ ""
  pub on_device : iface.device ≢ ""
  pub has_role : (iface.role ≡ "wan") ⊎ (iface.role ≡ "lan")
  pub has_address : (iface.address ≡ "dhcp") ⊎ ((iface.address ≢ "") × IsCidr net iface.address)
  pub valid_gateway : (iface.gateway ≡ "") ⊎ IsIp net iface.gateway
  pub valid_vlan : IsValidVlan iface.vlan iface.device

contains_code_iff : (c : ℕ) (s : String) → (contains_code c s ≡ true) ↔ Any (λ d. d ≡ c) (codes s)
contains_code_iff c String.[] = (λ h. cc, λ h. absurd h)
contains_code_iff c (String.◌∷◌ d s) = ground (arith, contains_code_iff c s)

-- The same by the code's test for a dot.
abbrev IsCheckedVlan : ℤ → String → Type 0
IsCheckedVlan (pos n) device = (n ≤ 4094) × (0 < n → contains_code b'.' device ≡ true)
IsCheckedVlan (negsuc n) device = ⊥

IsCheckedVlan-iff : (v : ℤ) (device : String) → IsCheckedVlan v device ↔ IsValidVlan v device
IsCheckedVlan-iff (pos n) device =
    let (to, from) = contains_code_iff b'.' device in
    (λ (le, dot). (le, λ p. to (dot p)), λ (le, dot). (le, λ p. from (dot p)))
IsCheckedVlan-iff (negsuc n) device = (λ h. h, λ h. h)

vlan_checks :
    (v : ℤ) (device : String) (e f : ConfigError)
    → Passes (
        error_if (ltb_ℤ v (pos 0) || ltb_ℤ (pos 4094) v) e
        ++ error_if (ltb_ℤ (pos 0) v && not (contains_code b'.' device)) f)
      ↔ IsCheckedVlan v device
vlan_checks (pos n) device e f = (
  λ h. (ground arith, λ p. ground arith),
  λ h. elim (Bool-cases (contains_code b'.' device)) [
    | inl dotted ↦ ground arith
    | inr undotted ↦ let none_tagged : ¬ (0 < n) = λ p. cc (h.1 p) in ground arith
  ],
)
vlan_checks (negsuc n) device e f = (λ h. ground arith, λ h. absurd h)

module _ (net : Net) (i : ℕ) (iface : Interface) (scan : Scan) where
  name_iff :
      Passes (name_errors i iface scan) ↔ ((iface.name ≢ "") × (has iface.name scan.names ≡ false))
  unfolding name_errors
  name_iff = ground (arith, text_iff iface.name "")

  device_iff :
      Passes (device_errors i iface scan)
      ↔ ((iface.device ≢ "") × (has iface.device scan.devices ≡ false))
  unfolding device_errors
  device_iff = ground (arith, text_iff iface.device "")

  role_iff : Passes (role_errors i iface) ↔ ((iface.role ≡ "wan") ⊎ (iface.role ≡ "lan"))
  unfolding role_errors
  role_iff = ground (arith, text_iff iface.role "wan", text_iff iface.role "lan")

  address_checks :
      Passes (address_errors net i iface)
      ↔ ((iface.address ≡ "dhcp") ⊎ ((iface.address ≢ "") × (parses_cidr net iface.address ≡ true)))
  unfolding address_errors
  address_checks =
      ground (arith, text_iff iface.address "", text_iff iface.address "dhcp", text_iff "dhcp" "")

  address_iff :
      Passes (address_errors net i iface)
      ↔ ((iface.address ≡ "dhcp") ⊎ ((iface.address ≢ "") × IsCidr net iface.address))
  address_iff = iff_trans address_checks (or_iff (and_iff (parses_cidr_iff net iface.address)))

  gateway_checks :
      Passes (gateway_errors net i iface)
      ↔ ((iface.gateway ≡ "") ⊎ (parses_ip net iface.gateway ≡ true))
  unfolding gateway_errors
  gateway_checks = ground (arith, text_iff iface.gateway "")

  gateway_iff :
      Passes (gateway_errors net i iface) ↔ ((iface.gateway ≡ "") ⊎ IsIp net iface.gateway)
  gateway_iff = iff_trans gateway_checks (or_iff (parses_ip_iff net iface.gateway))

  vlan_iff : Passes (vlan_errors i iface) ↔ IsValidVlan iface.vlan iface.device
  unfolding vlan_errors
  vlan_iff =
      iff_trans
        (vlan_checks iface.vlan iface.device (vlan_out_of_range i iface.name iface.vlan)
          (vlan_device_not_dotted i iface.name iface.vlan))
        (IsCheckedVlan-iff iface.vlan iface.device)

  -- The body of the loop passes exactly a valid interface with a new name and a new device.
  pub interface_iff : Passes (interface_errors net i iface scan) ↔ (
      IsValidInterface net iface
      × (has iface.name scan.names ≡ false)
      × (has iface.device scan.devices ≡ false))
  unfolding interface_errors
  interface_iff =
      let all = Passes-append name_iff (
        Passes-append device_iff (
          Passes-append role_iff
            (Passes-append address_iff (Passes-append gateway_iff vlan_iff)))) in
      (
        λ h.
            let ((n, fresh), ((d, new), (r, (a, (g, v))))) = all.0 h in
            (
              record {
                named = n;
                on_device = d;
                has_role = r;
                has_address = a;
                valid_gateway = g;
                valid_vlan = v;
              },
              fresh,
              new,
            ),
        λ (v, fresh, new). all.1 (
          (v.named, fresh),
          ((v.on_device, new), (v.has_role, (v.has_address, (v.valid_gateway, v.valid_vlan)))),
        ),
      )
