-- ===== src/Tests/ServicesTests.antt =====
-- Tests of internal/services: the file testdata/dual-wan-ecmp.golden of its frr package, and the
-- zones of a firewall.
use warp_router.Prelude.{
  String, none, List, [], ◌∷◌, ◌≡◌, refl, concat, show_nat, string_eq, codes, arith, text_iff,
}
use warp_router.Config.{FirewallZone, Interface, SiteConfig}
use warp_router.Failover.Routes.{nh_key}
use warp_router.Cli.Monitor.{monitor_plan}
use warp_router.Services.Frr.Template.{render}
use warp_router.Services.Frr.Lines.{default_routes}
use warp_router.Services.Frr.Printable.{IsPrintable}
use warp_router.Services.Frr.Routes.{render-monitor_plan}
use warp_router.Tests.Fixtures.{net, site, wan1, wan2, lan1}

abbrev dual : SiteConfig
dual = record site { dhcp = none; dns = none; firewall = none; pbr = [] }

abbrev bfd_timers : String
bfd_timers = "  detect-multiplier 3\n  receive-interval 300\n  transmit-interval 300\n !\n"

dual_golden :
    render dual
    ≡ concat (
        "! Warp Router — FRR configuration\n! Generated by 'warp apply'. Do not edit manually.\n\n"
        ∷ "frr version 10\nfrr defaults traditional\n\nhostname gw-dual\nlog syslog informational\n"
        ∷ "service integrated-vtysh-config\n!\n!\n"
        ∷ "! ECMP default routes (FRR merges equal-cost routes automatically)\n"
        ∷ "ip route 0.0.0.0/0 10.0.0.1 eth0\nip route 0.0.0.0/0 203.0.113.1 eth1\n!\n!\n"
        ∷ "! BFD peers for WAN health\nbfd\n peer 10.0.0.1\n" ∷ bfd_timers ∷ " peer 203.0.113.1\n"
        ∷ bfd_timers ∷ "!\nline vty\n!\n" ∷ [])
unfolding render
dual_golden = refl

wan1-IsPrintable : IsPrintable net wan1
unfolding show_nat
wan1-IsPrintable = record {
  canonical = λ given. refl;
  on_device = λ e. ground (arith, text_iff "eth0" "", e);
  gateway = refl;
  device = refl;
}

wan2-IsPrintable : IsPrintable net wan2
unfolding show_nat
wan2-IsPrintable = record {
  canonical = λ given. refl;
  on_device = λ e. ground (arith, text_iff "eth1" "", e);
  gateway = refl;
  device = refl;
}

lan1-IsPrintable : IsPrintable net lan1
lan1-IsPrintable = record {
  canonical = λ given. absurd (given refl);
  on_device = λ e. ground (arith, text_iff lan1.device "", e);
  gateway = refl;
  device = refl;
}

render-monitor_plan_example :
    default_routes (render dual) ≡ codes "10.0.0.1 eth0" ∷ codes "203.0.113.1 eth1" ∷ []
unfolding nh_key monitor_plan show_nat
render-monitor_plan_example =
    render-monitor_plan net dual refl (wan1-IsPrintable, (wan2-IsPrintable, (lan1-IsPrintable, tt)))
      tt

abbrev single : SiteConfig
single = record dual { interfaces = wan1 ∷ lan1 ∷ [] }

routes_of_single : default_routes (render single) ≡ codes "10.0.0.1 eth0" ∷ []
unfolding render show_nat
routes_of_single = refl

abbrev zones : List FirewallZone
zones =
    record { name = "outside"; interfaces = "wan1" ∷ [] }
    ∷ record { name = "inside"; interfaces = "lan1" ∷ "lan2" ∷ [] }
    ∷ record { name = "outside"; interfaces = "wan2" ∷ [] }
    ∷ []

abbrev by_name : List (String × Interface)
by_name = ("wan1", wan1) ∷ ("wan2", wan2) ∷ ("lan1", lan1) ∷ []
