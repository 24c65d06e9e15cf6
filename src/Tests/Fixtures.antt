-- ===== src/Tests/Fixtures.antt =====
-- A site with two WAN uplinks and a LAN, and a package net that reads its addresses.
use warp_router.Prelude.{
  false, map, Distinct, arith, text_iff, pos, join, concat, show_nat, String, string_eq, true,
  Option, none, some, [], ◌∷◌, refl, IsRange, if◌then◌else◌, ◌==◌,
}
use warp_router.Config.{Interface, SiteConfig}
use warp_router.Net.{Ip, IpNet, Net}
use warp_router.Failover.Vtysh
use warp_router.Failover.Vtysh.{Runner, Vtysh, new_vtysh}
use warp_router.Failover.Vtysh.Replace.{AreRanges}
use warp_router.Failover.Controller
use warp_router.Failover.Controller.{Controller, new_controller}
use warp_router.Cli.Monitor.{monitor_plan}

abbrev parse_ip : String → Option Ip
parse_ip s =
    if s == "10.0.0.1"
    then some (10 ∷ 0 ∷ 0 ∷ 1 ∷ [])
    else if s == "203.0.113.1"
    then some (203 ∷ 0 ∷ 113 ∷ 1 ∷ [])
    else if s == "192.168.1.1"
    then some (192 ∷ 168 ∷ 1 ∷ 1 ∷ [])
    else if s == "192.168.1.100"
    then some (192 ∷ 168 ∷ 1 ∷ 100 ∷ [])
    else if s == "192.168.1.199"
    then some (192 ∷ 168 ∷ 1 ∷ 199 ∷ [])
    else none

abbrev parse_cidr : String → Option (Ip × IpNet)
parse_cidr s =
    if s == "203.0.113.2/30"
    then some (
      203 ∷ 0 ∷ 113 ∷ 2 ∷ [],
      record { ip = 203 ∷ 0 ∷ 113 ∷ 0 ∷ []; mask = 255 ∷ 255 ∷ 255 ∷ 252 ∷ [] },
    )
    else if s == "192.168.1.1/24"
    then some (
      192 ∷ 168 ∷ 1 ∷ 1 ∷ [],
      record { ip = 192 ∷ 168 ∷ 1 ∷ 0 ∷ []; mask = 255 ∷ 255 ∷ 255 ∷ 0 ∷ [] },
    )
    else if s == "192.168.1.0/24"
    then some (
      192 ∷ 168 ∷ 1 ∷ 0 ∷ [],
      record { ip = 192 ∷ 168 ∷ 1 ∷ 0 ∷ []; mask = 255 ∷ 255 ∷ 255 ∷ 0 ∷ [] },
    )
    else none

abbrev ip_to_string : Ip → String
ip_to_string (a ∷ b ∷ c ∷ d ∷ []) =
    join "." (show_nat a ∷ show_nat b ∷ show_nat c ∷ show_nat d ∷ [])
ip_to_string _ = "?"

abbrev pub net : Net
net = record {
  parse_ip = parse_ip;
  parse_cidr = parse_cidr;
  ip_to_string = ip_to_string;
  net_to_string = λ n. concat (ip_to_string n.ip ∷ "/" ∷ ip_to_string n.mask ∷ []);
}

abbrev pub wan1 : Interface
wan1 = record {
  name = "wan1";
  role = "wan";
  device = "eth0";
  address = "dhcp";
  gateway = "10.0.0.1";
  vlan = pos 0;
  health_check = none;
}

abbrev pub wan2 : Interface
wan2 = record {
  name = "wan2";
  role = "wan";
  device = "eth1";
  address = "203.0.113.2/30";
  gateway = "203.0.113.1";
  vlan = pos 0;
  health_check = none;
}

abbrev pub lan1 : Interface
lan1 = record {
  name = "lan1";
  role = "lan";
  device = "eth2.100";
  address = "192.168.1.1/24";
  gateway = "";
  vlan = pos 100;
  health_check = none;
}

abbrev pub site : SiteConfig
site = record {
  hostname = "gw-dual";
  interfaces = wan1 ∷ wan2 ∷ lan1 ∷ [];
  dhcp = some (record {
    enabled = true;
    subnets =
        record {
          subnet = "192.168.1.0/24";
          interface = "lan1";
          pool_start = "192.168.1.100";
          pool_end = "192.168.1.199";
          gateway = "192.168.1.1";
          dns_servers = "192.168.1.1" ∷ [];
          lease_time = pos 0;
          options = [];
        }
        ∷ [];
  });
  dns =
      some (record { enabled = true; listen = []; forwarders = "10.0.0.1" ∷ []; allow_from = [] });
  firewall = some (record {
    zones =
        record { name = "inside"; interfaces = "lan1" ∷ [] }
        ∷ record { name = "outside"; interfaces = "wan1" ∷ "wan2" ∷ [] }
        ∷ [];
    forward_rules =
        record {
          from = "inside";
          to = "outside";
          action = "ACCEPT";
          protocol = "tcp";
          port = "443";
          source = "";
          dest = "";
        }
        ∷ [];
    input_rules = [];
  });
  ecmp = some (record { enabled = true });
  pbr =
      record { name = "voip"; priority = pos 10; source = "192.168.1.0/24"; interface = "wan2" }
      ∷ [];
  sysctl = none;
}

-- A `range` that visits a map in its own order.
pub range_in_order {ℓ} : {V : Type ℓ} → IsRange {V = V} (λ m. m)
range_in_order = record { finds = λ k m h. refl; once = λ m h. h }

abbrev pub vorders : Vtysh.Orders
vorders = record { visit_installed = λ m. m; visit_desired = λ m. m }

abbrev pub orders : Controller.Orders
orders = record { visit_uplinks = λ m. m; visit_pbr_rules = λ m. m; visit_active = λ m. m }

pub in_order : AreRanges vorders
in_order = record { installed = range_in_order; desired = range_in_order }

abbrev pub accepts : Runner
accepts log command = true

abbrev pub refuses : Runner
refuses log command = false

abbrev pub initial : Vtysh
initial = new_vtysh net (monitor_plan net site.interfaces).1

abbrev pub controller : Controller
controller = new_controller net site

pub names_distinct : Distinct (map (λ iface. iface.name) site.interfaces)
names_distinct = (
  (
    (λ e. ground (arith, text_iff "wan1" "wan2", e)),
    ((λ e. ground (arith, text_iff "wan1" "lan1", e)), tt),
  ),
  (((λ e. ground (arith, text_iff "wan2" "lan1", e)), tt), (tt, tt)),
)
