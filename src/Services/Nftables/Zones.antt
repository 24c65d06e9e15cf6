-- ===== src/Services/Nftables/Zones.antt =====
-- internal/services/nftables/nftables.go: the devices that Render finds for a firewall zone.
use warp_router.Prelude.{
  String, string_eq, none, some, List, [], ◌∷◌, ◌++◌, lookup, if◌then◌else◌, ◌==◌,
}
use warp_router.Config.{Interface, FirewallZone}

-- The devices of the names that are interfaces.
abbrev pub known_devices : List (String × Interface) → List String → List String
known_devices by_name [] = []
known_devices by_name (name ∷ names) =
    elim (lookup name by_name) [ none ↦ [] | some iface ↦ iface.device ∷ [] ]
    ++ known_devices by_name names

-- The devices of the zones of one name, in the order of the configuration.
abbrev pub devices_of : List (String × Interface) → String → List FirewallZone → List String
devices_of by_name zone [] = []
devices_of by_name zone (z ∷ zones) =
    (if z.name == zone then known_devices by_name z.interfaces else [])
    ++ devices_of by_name zone zones
