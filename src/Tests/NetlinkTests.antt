-- ===== src/Tests/NetlinkTests.antt =====
-- Tests of internal/failover/netlink.go: a kernel with one link, whose state is its nexthops.
use warp_router.Prelude.{
  pos, String, string_eq, none, some, List, [], ◌∷◌, ◌≡◌, ◌⊎◌, refl, arith, if◌then◌else◌, ◌==◌,
}
use warp_router.Failover.Routes.{Nexthop}
use warp_router.Failover.Netlink.{
  NexthopInfo, Netlink, replace_ecmp_route, wanted, given, replace_ecmp_route-calls,
}

abbrev kernel : Netlink (List NexthopInfo) String
kernel = record {
  link_by_name = λ device l. if device == "eth0" then some (pos 2) else none;
  no_link = λ device. device;
  route_del = λ l. ([], none);
  route_replace = λ is l. (is, none);
  rule_add = λ rule l. (l, none);
  rule_del = λ rule l. (l, none);
}

abbrev hop : Nexthop
hop = record { gateway = some (10 ∷ 0 ∷ 0 ∷ 1 ∷ []); device = "eth0"; weight = pos 1 }

installs :
    replace_ecmp_route kernel (hop ∷ []) []
    ≡ (record { link_index = pos 2; hops = pos 0; gw = hop.gateway } ∷ [], none)
unfolding replace_ecmp_route
installs = refl

-- An unknown device: the route stays.
stops : replace_ecmp_route kernel (hop ∷ record hop { device = "eth9" } ∷ []) [] ≡ ([], some "eth9")
unfolding replace_ecmp_route
stops = refl

replace_ecmp_route-calls_example :
    ((is : List NexthopInfo) × ((given kernel [] is ≡ wanted kernel [] (hop ∷ []))
        × (replace_ecmp_route kernel (hop ∷ []) [] ≡ kernel.route_replace is [])))
    ⊎ ((device : String) × ((kernel.link_by_name device [] ≡ none)
          × (replace_ecmp_route kernel (hop ∷ []) [] ≡ ([], some (kernel.no_link device)))))
replace_ecmp_route-calls_example = replace_ecmp_route-calls kernel [] hop [] (omega arith, tt)
