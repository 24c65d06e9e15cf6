-- ===== src/Failover/Controller.antt =====
-- internal/failover/controller.go: Controller. The mutex makes each method one step. The calls of
-- log.Printf are left out: an error of the manager that is only logged changes nothing else.
pub mod Wanted
pub mod Sync
pub mod Sound
pub mod Active
pub mod Idle
pub mod Keeps
use warp_router.Prelude.{
  String, string_eq, Bool, true, false, not, ◌&&◌, pos, Option, none, some, List, [], ◌∷◌, lookup,
  insert, has, if◌then◌else◌, ◌==◌,
}
use warp_router.Config.{Interface, PbrRule, SiteConfig}
use warp_router.Net.{Ip, Net}
use warp_router.Health.Status.{Status, unknown, healthy, degraded, down}
use warp_router.Failover.Routes.{Nexthop, PbrRoute, RouteManager}

pub record UplinkInfo : Type 0 where
  pub name : String
  pub gateway : Option Ip
  pub device : String

abbrev pub Uplinks : Type 0
Uplinks = List (String × UplinkInfo)

-- The configuration and the prober, which the methods do not use, are left out.
pub record Controller : Type 0 where
  pub uplinks : Uplinks
  pub pbr_rules : List (String × PbrRoute)
  pub active : List (String × Bool)

-- The orders in which the maps are ranged over.
pub record Orders : Type 0 where
  pub visit_uplinks : Uplinks → Uplinks
  pub visit_pbr_rules : List (String × PbrRoute) → List (String × PbrRoute)
  pub visit_active : List (String × Bool) → List (String × Bool)

abbrev pub is_uplink : Interface → Bool
is_uplink iface = iface.role == "wan" && not (iface.gateway == "")

-- The first loop of NewController: index the WAN uplinks, each of which starts as active.
unfoldable pub index_uplinks : Net → List Interface → Controller → Controller
index_uplinks net [] c = c
index_uplinks net (iface ∷ ifaces) c = index_uplinks net ifaces (
    if is_uplink iface
    then record c {
      uplinks =
          insert iface.name
            (record {
              name = iface.name;
              gateway = net.parse_ip iface.gateway;
              device = iface.device;
            })
            c.uplinks;
      active = insert iface.name true c.active;
    }
    else c)

unfoldable pub interfaces_by_name :
    List Interface → List (String × Interface) → List (String × Interface)
interfaces_by_name [] m = m
interfaces_by_name (iface ∷ ifaces) m = interfaces_by_name ifaces (insert iface.name iface m)

-- One round of the last loop of NewController; none is its `continue`.
unfoldable pub pbr_route : Net → List (String × Interface) → PbrRule → Option PbrRoute
pbr_route net by_name rule = elim (lookup rule.interface by_name) [
  | none ↦ none
  | some target ↦ if target.gateway == "" then none else elim (net.parse_cidr rule.source) [
    | none ↦ none
    | some (_, source) ↦ some (record {
      name = rule.name;
      priority = rule.priority;
      source = source;
      gateway = net.parse_ip target.gateway;
      device = target.device;
    })
  ]
]

abbrev insert_rule : Option PbrRoute → List (String × PbrRoute) → List (String × PbrRoute)
insert_rule none m = m
insert_rule (some rule) m = insert rule.name rule m

unfoldable pub build_pbr_rules :
    Net
    → List (String × Interface)
    → List PbrRule
    → List (String × PbrRoute)
    → List (String × PbrRoute)
unfolding pbr_route
build_pbr_rules net by_name [] m = m
build_pbr_rules net by_name (rule ∷ rules) m =
    build_pbr_rules net by_name rules (insert_rule (pbr_route net by_name rule) m)

-- NewController
unfoldable pub new_controller : Net → SiteConfig → Controller
unfolding index_uplinks interfaces_by_name build_pbr_rules
new_controller net cfg =
    let c =
      index_uplinks net cfg.interfaces (record { uplinks = []; pbr_rules = []; active = [] }) in
    record c { pbr_rules = build_pbr_rules net (interfaces_by_name cfg.interfaces []) cfg.pbr [] }

abbrev pub nexthop_of : UplinkInfo → Nexthop
nexthop_of info = record { gateway = info.gateway; device = info.device; weight = pos 1 }

-- The nexthops that updateECMP collects.
unfoldable pub active_nexthops : List (String × Bool) → Uplinks → List Nexthop
active_nexthops active [] = []
active_nexthops active ((name, info) ∷ uplinks) =
    let rest = active_nexthops active uplinks in
    if has name active then nexthop_of info ∷ rest else rest

module _ {M E : Type 0} (rm : RouteManager M E) (orders : Orders) where
  -- updateECMP
  unfoldable pub update_ecmp : Controller → M → M × Option E
  unfolding active_nexthops
  update_ecmp c m =
      rm.replace_ecmp_route (active_nexthops c.active (orders.visit_uplinks c.uplinks)) m

  -- The loops over the rules of an uplink's device. An error is only logged.
  unfoldable pub del_rules : String → List (String × PbrRoute) → M → M
  del_rules device [] m = m
  del_rules device ((_, rule) ∷ rules) m =
      del_rules device rules (if rule.device == device then (rm.del_pbr_rule rule m).0 else m)

  unfoldable pub add_rules : String → List (String × PbrRoute) → M → M
  add_rules device [] m = m
  add_rules device ((_, rule) ∷ rules) m =
      add_rules device rules (if rule.device == device then (rm.add_pbr_rule rule m).0 else m)

  -- deactivateUplink
  unfoldable pub deactivate_uplink : String → Controller → M → Controller × M
  unfolding update_ecmp del_rules
  deactivate_uplink name c m =
      if not (has name c.active)
      then (c, m)
      else let c' = record c { active = insert name false c.active } in
        let (m', failed) = update_ecmp c' m in
        elim failed [
          | some _ ↦ (record c' { active = insert name true c'.active }, m')
          | none ↦ elim (lookup name c'.uplinks) [
            | none ↦ (c', m')
            | some info ↦ (c', del_rules info.device (orders.visit_pbr_rules c'.pbr_rules) m')
          ]
        ]

  -- activateUplink
  unfoldable pub activate_uplink : String → Controller → M → Controller × M
  unfolding update_ecmp add_rules
  activate_uplink name c m =
      if has name c.active
      then (c, m)
      else let c' = record c { active = insert name true c.active } in
        let (m', failed) = update_ecmp c' m in
        elim failed [
          | some _ ↦ (record c' { active = insert name false c'.active }, m')
          | none ↦ elim (lookup name c'.uplinks) [
            | none ↦ (c', m')
            | some info ↦ (c', add_rules info.device (orders.visit_pbr_rules c'.pbr_rules) m')
          ]
        ]

  -- HandleStateChange, whose switch looks at the new status alone.
  unfoldable pub handle_state_change : String → Status → Status → Controller → M → Controller × M
  unfolding deactivate_uplink activate_uplink
  handle_state_change name old down c m = deactivate_uplink name c m
  handle_state_change name old healthy c m = activate_uplink name c m
  handle_state_change name old unknown c m = (c, m)
  handle_state_change name old degraded c m = (c, m)

-- Why InstallInitialRoutes failed.
pub data InitialError (E : Type 0) : Type 0 where
  initial_ecmp : E → InitialError E
  initial_pbr_rule : (name : String) → E → InitialError E

module _ {M E : Type 0} (rm : RouteManager M E) (orders : Orders) where
  unfoldable pub add_initial_rules : List (String × PbrRoute) → M → M × Option (InitialError E)
  add_initial_rules [] m = (m, none)
  add_initial_rules ((_, rule) ∷ rules) m =
      let (m', failed) = rm.add_pbr_rule rule m in
      elim failed [
        | none ↦ add_initial_rules rules m'
        | some error ↦ (m', some (initial_pbr_rule rule.name error))
      ]

  -- InstallInitialRoutes
  unfoldable pub install_initial_routes : Controller → M → M × Option (InitialError E)
  unfolding update_ecmp add_initial_rules
  install_initial_routes c m =
      let (m', failed) = update_ecmp rm orders c m in
      elim failed [
        | some error ↦ (m', some (initial_ecmp error))
        | none ↦ add_initial_rules (orders.visit_pbr_rules c.pbr_rules) m'
      ]

active_names : List (String × Bool) → List String
active_names [] = []
active_names ((name, active) ∷ entries) =
    let rest = active_names entries in if active then name ∷ rest else rest

-- ActiveUplinks
unfoldable pub active_uplinks : Orders → Controller → List String
unfolding active_names
active_uplinks orders c = active_names (orders.visit_active c.active)
