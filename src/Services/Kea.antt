-- ===== src/Services/Kea.antt =====
-- internal/services/kea/kea.go: the configuration that Render writes as JSON. The writing of the
-- text is package encoding/json's; it writes a nil slice as null.
use warp_router.Prelude.{
  ℕ, ◌+◌, ◌*◌, ◌/◌, ℤ, pos, ltb_ℤ, String, string_eq, not, Option, none, some, List, [], ◌∷◌, ◌++◌,
  lookup, insert, concat, join, if◌then◌else◌, ◌==◌,
}
use warp_router.Config.{Interface, DhcpSubnet, DhcpConfig, SiteConfig}

-- A Go slice, which may be nil.
pub data Slice (A : Type 0) : Type 0 where
  nil_slice : Slice A
  items : List A → Slice A

-- append(s, a), of one element.
abbrev pub append : {A : Type 0} → Slice A → A → Slice A
append nil_slice a = items (a ∷ [])
append (items xs) a = items (xs ++ a ∷ [])

pub record OptionData : Type 0 where
  pub name : String
  pub value : String

-- A subnet has one pool. A lifetime of 0 and an empty interface are left out of the JSON.
pub record Subnet4 : Type 0 where
  pub id : ℕ
  pub subnet : String
  pub pool : String
  pub option_data : List OptionData
  pub valid_lifetime : ℤ
  pub interface : String

-- Dhcp4Config. The control socket, the lease database and the loggers are fixed values, equal in
-- both configurations, and are left out.
pub record Dhcp4Config : Type 0 where
  pub interfaces : Slice String
  pub valid_lifetime : ℕ
  pub renew_timer : ℕ
  pub rebind_timer : ℕ
  pub subnet4 : Slice Subnet4

-- The device of each interface name: the last interface of a name counts.
unfoldable pub iface_device : List Interface → List (String × String) → List (String × String)
iface_device [] m = m
iface_device (iface ∷ ifaces) m = iface_device ifaces (insert iface.name iface.device m)

abbrev listen_on : Option String → Slice String → Slice String
listen_on none s = s
listen_on (some dev) s = append s dev

-- The loop that collects the devices to listen on.
unfoldable pub listen_interfaces :
    List (String × String) → List DhcpSubnet → Slice String → Slice String
listen_interfaces devices [] s = s
listen_interfaces devices (sub ∷ subs) s =
    listen_interfaces devices subs (listen_on (lookup sub.interface devices) s)

abbrev or_empty : Option String → String
or_empty none = ""
or_empty (some s) = s

abbrev router_option : String → List OptionData
router_option gateway =
    if gateway == "" then [] else record { name = "routers"; value = gateway } ∷ []

abbrev dns_option : List String → List OptionData
dns_option [] = []
dns_option (s ∷ ss) = record { name = "domain-name-servers"; value = join ", " (s ∷ ss) } ∷ []

-- The body of the loop over the subnets.
unfoldable pub subnet_entry : List (String × String) → ℕ → DhcpSubnet → Subnet4
subnet_entry devices i sub = record {
  id = i + 1;
  subnet = sub.subnet;
  pool = concat (sub.pool_start ∷ " - " ∷ sub.pool_end ∷ []);
  option_data = router_option sub.gateway ++ dns_option sub.dns_servers;
  valid_lifetime = if ltb_ℤ (pos 0) sub.lease_time then sub.lease_time else pos 0;
  interface = or_empty (lookup sub.interface devices);
}

unfoldable pub subnets_from :
    List (String × String) → ℕ → List DhcpSubnet → Slice Subnet4 → Slice Subnet4
unfolding subnet_entry
subnets_from devices i [] s = s
subnets_from devices i (sub ∷ subs) s =
    subnets_from devices (i + 1) subs (append s (subnet_entry devices i sub))

abbrev default_lease_time : ℕ
default_lease_time = 3600

-- renderDefault
unfoldable pub render_default : Dhcp4Config
render_default = record {
  interfaces = items [];
  valid_lifetime = 3600;
  renew_timer = 1800;
  rebind_timer = 3150;
  subnet4 = items [];
}

unfoldable pub render_enabled : List Interface → List DhcpSubnet → Dhcp4Config
unfolding iface_device listen_interfaces subnets_from
render_enabled ifaces subs =
    let devices = iface_device ifaces [] in
    record {
      interfaces = listen_interfaces devices subs nil_slice;
      valid_lifetime = default_lease_time;
      renew_timer = default_lease_time / 2;
      rebind_timer = default_lease_time * 7 / 8;
      subnet4 = subnets_from devices 0 subs nil_slice;
    }

-- Render, before the JSON is written.
unfoldable pub render_dhcp : List Interface → Option DhcpConfig → Dhcp4Config
unfolding render_default render_enabled
render_dhcp ifaces none = render_default
render_dhcp ifaces (some dhcp) =
    if not dhcp.enabled then render_default else render_enabled ifaces dhcp.subnets

unfoldable pub render : SiteConfig → Dhcp4Config
unfolding render_dhcp
render cfg = render_dhcp cfg.interfaces cfg.dhcp
