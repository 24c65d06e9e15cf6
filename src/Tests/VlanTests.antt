-- ===== src/Tests/VlanTests.antt =====
-- Tests of ProvisionVLANs: a parent with one device of the configuration and one that is stale.
use warp_router.Prelude.{pos, string_eq, none, some, [], ◌∷◌, ◌≡◌, refl, lookup, insert, map}
use warp_router.Config.{SiteConfig}
use warp_router.Os.{World, Machine}
use warp_router.Apply.Vlans.{parent_device, list_vlan_subinterfaces, provision_vlans}
use warp_router.Apply.Vlans.Parent.{parent_device-append}
use warp_router.Apply.Vlans.Spares.{Spares, deleted, provision_vlans-Spares}
use warp_router.Tests.Fixtures.{lan1, site}
use warp_router.Tests.ApplyTests.{machine, works, vlan_orders}

abbrev tagged : SiteConfig
tagged = record site { interfaces = record lan1 { device = "eth1.100"; vlan = pos 100 } ∷ [] }

abbrev os : Machine
os = record (machine works) {
  prints = λ log args. "5: eth1.100@eth1: <UP>\n6: eth1.200@eth1: <UP>\n7: eth2.5@eth2: <UP>";
}

abbrev start : World
start = record { files = []; log = [] }

lists_vlans : (list_vlan_subinterfaces os "eth1" start).1 ≡ some ("eth1.100" ∷ "eth1.200" ∷ [])
unfolding list_vlan_subinterfaces
lists_vlans = refl

deletes_stale :
    map (λ e. deleted e.call) (provision_vlans os vlan_orders tagged start).0.log
    ≡ none ∷ none ∷ none ∷ some "eth1.200" ∷ none ∷ []
unfolding provision_vlans lookup insert
deletes_stale = refl

provision_vlans-Spares_example :
    Spares tagged.interfaces (provision_vlans os vlan_orders tagged start).0.log
provision_vlans-Spares_example = provision_vlans-Spares os vlan_orders tagged start tt

parent_device-append_example : parent_device "eth0.100" ≡ "eth0"
parent_device-append_example = parent_device-append "eth0" "100" refl
