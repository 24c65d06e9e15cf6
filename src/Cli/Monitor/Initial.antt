-- ===== src/Cli/Monitor/Initial.antt =====
-- cmd/warp/main.go: the controller and the route manager that cmdMonitor starts with.
use warp_router.Prelude.{
  String, string_eq, Bool, true, false, ◌||◌, none, List, [], ◌∷◌, ◌++◌, ◌≡◌, ◌≢◌, inl, inr, refl,
  map, lookup, insert, has, lookup-insert, member, keys_of, insert_fresh, member-keys_of-insert,
  IsRange, Distinct, Distinct-insert, All, Bool-cases, arith, text_iff, if◌then◌else◌, ◌==◌,
}
use warp_router.Config.{Interface, SiteConfig}
use warp_router.Net.{Net}
use warp_router.Failover.Routes.{Nexthop, nh_key}
use warp_router.Failover.Vtysh
use warp_router.Failover.Vtysh.{Installed, Runner, Vtysh, mark_installed, new_vtysh, vtysh_manager}
use warp_router.Failover.Vtysh.Replace.{IsTracked, AreRanges, wants}
use warp_router.Failover.Controller.{
  UplinkInfo, Uplinks, Controller, Orders, install_initial_routes, is_uplink, index_uplinks,
  new_controller,
}
use warp_router.Failover.Controller.Wanted.{info_key, is_wanted}
use warp_router.Failover.Controller.Idle.{install_initial_routes_idle}
use warp_router.Failover.Controller.Sync.{IsSound}
use warp_router.Cli.Monitor.{monitor_plan}

mark_installed-wants :
    (net : Net) (k : String) (nhs : List Nexthop) (installed : Installed)
    → has k (mark_installed net nhs installed) ≡ (wants net k nhs || has k installed)
unfolding mark_installed
mark_installed-wants net k [] installed = refl
mark_installed-wants net k (nh ∷ nhs) installed = ground (
  arith,
  mark_installed-wants net k nhs (insert (nh_key net nh) true installed),
  lookup-insert (nh_key net nh) k true installed,
)

wanted-append :
    (net : Net) (active : List (String × Bool)) (k : String) (us vs : Uplinks)
    → is_wanted net active k (us ++ vs) ≡ (is_wanted net active k us || is_wanted net active k vs)
wanted-append net active k [] vs = refl
wanted-append net active k ((name, info) ∷ us) vs = ground (arith, wanted-append net active k us vs)

wanted-insert_absent :
    (net : Net) (active : List (String × Bool)) (k name : String) (us : Uplinks)
    → member name (keys_of us) ≡ false
    → is_wanted net (insert name true active) k us ≡ is_wanted net active k us
wanted-insert_absent net active k name [] h = refl
wanted-insert_absent net active k name ((j, i) ∷ us) h = ground (
  arith,
  wanted-insert_absent net active k name us,
  lookup-insert name j true active,
  text_iff j name,
  text_iff name j,
)

-- An uplink with a new name adds its own route.
wanted-insert_fresh :
    (net : Net) (active : List (String × Bool)) (k name : String) (info : UplinkInfo) (us : Uplinks)
    → member name (keys_of us) ≡ false
    → is_wanted net (insert name true active) k (insert name info us)
      ≡ (is_wanted net active k us || info_key net info == k)
wanted-insert_fresh net active k name info us h =
    rw (insert_fresh name info us h, wanted-append)
      (ground (
        arith,
        wanted-insert_absent net active k name us h,
        lookup-insert name name true active,
        text_iff name name,
      ))

abbrev NewNames : List Interface → Uplinks → Type 0
NewNames ifaces us = All (λ iface. member iface.name (keys_of us) ≡ false) ifaces

NewNames-insert :
    (name : String) (info : UplinkInfo) (us : Uplinks) (ifaces : List Interface)
    → All (λ other. name ≢ other) (map (λ iface. iface.name) ifaces)
    → NewNames ifaces us
    → NewNames ifaces (insert name info us)
NewNames-insert name info us [] ne h = tt
NewNames-insert name info us (iface ∷ ifaces) (ne, nes) (h, hs) = (
  ground (arith, member-keys_of-insert name iface.name info us, text_iff name iface.name),
  NewNames-insert name info us ifaces nes hs,
)

-- The uplink that NewController indexes for an interface, and the controller with it.
abbrev info_of : Net → Interface → UplinkInfo
info_of net iface = record {
  name = iface.name;
  gateway = net.parse_ip iface.gateway;
  device = iface.device;
}

abbrev with_uplink : Net → Interface → Controller → Controller
with_uplink net iface c = record c {
  uplinks = insert iface.name (info_of net iface) c.uplinks;
  active = insert iface.name true c.active;
}

index-cons :
    (net : Net) (iface : Interface) (ifaces : List Interface) (c : Controller)
    → index_uplinks net (iface ∷ ifaces) c
      ≡ index_uplinks net ifaces (if is_uplink iface then with_uplink net iface c else c)
unfolding index_uplinks
index-cons net iface ifaces c = refl

plan-cons :
    (net : Net) (k : String) (iface : Interface) (ifaces : List Interface)
    → wants net k (monitor_plan net (iface ∷ ifaces)).1 ≡ (
        if is_uplink iface
        then info_key net (info_of net iface) == k || wants net k (monitor_plan net ifaces).1
        else wants net k (monitor_plan net ifaces).1)
unfolding monitor_plan
plan-cons net k iface ifaces = ground arith

index-wants :
    (net : Net) (k : String) (ifaces : List Interface) (c : Controller)
    → Distinct (map (λ iface. iface.name) ifaces)
    → NewNames ifaces c.uplinks
    → let c' = index_uplinks net ifaces c in
      is_wanted net c'.active k c'.uplinks
      ≡ (is_wanted net c.active k c.uplinks || wants net k (monitor_plan net ifaces).1)
index-wants net k [] c d h = unfold index_uplinks monitor_plan in ground arith
index-wants net k (iface ∷ ifaces) c (fresh, d) (h, hs) = elim (Bool-cases (is_uplink iface)) [
  | inl uplink ↦
      rw (index-cons, plan-cons, uplink)
        (ground (
          arith,
          index-wants net k ifaces (with_uplink net iface c) d
              (NewNames-insert iface.name (info_of net iface) c.uplinks ifaces fresh hs),
          wanted-insert_fresh net c.active k iface.name (info_of net iface) c.uplinks h,
        ))
  | inr other ↦ rw (index-cons, plan-cons, other) (index-wants net k ifaces c d hs)
]

index-Distinct :
    (net : Net) (ifaces : List Interface) (c : Controller)
    → Distinct (keys_of c.uplinks)
    → Distinct (keys_of (index_uplinks net ifaces c).uplinks)
index-Distinct net [] c h = unfold index_uplinks in h
index-Distinct net (iface ∷ ifaces) c h = elim (Bool-cases (is_uplink iface)) [
  | inl uplink ↦
      rw (index-cons, uplink)
        (index-Distinct net ifaces (with_uplink net iface c)
          (Distinct-insert iface.name (info_of net iface) c.uplinks h))
  | inr other ↦ rw (index-cons, other) (index-Distinct net ifaces c h)
]

mark_installed-IsTracked :
    (net : Net) (nhs : List Nexthop) (m : Vtysh)
    → IsTracked m
    → IsTracked (record m { installed = mark_installed net nhs m.installed })
unfolding mark_installed
mark_installed-IsTracked net [] m t = t
mark_installed-IsTracked net (nh ∷ nhs) m t =
    mark_installed-IsTracked net nhs
      (record m { installed = insert (nh_key net nh) true m.installed })
      (record {
        distinct = Distinct-insert (nh_key net nh) true m.installed t.distinct;
        all_true = λ k. ground (
          arith,
          t.all_true k,
          lookup-insert (nh_key net nh) k true m.installed,
          member-keys_of-insert (nh_key net nh) k true m.installed,
        );
      })

NewNames-nil : (ifaces : List Interface) → NewNames ifaces []
NewNames-nil [] = tt
NewNames-nil (iface ∷ ifaces) = (refl, NewNames-nil ifaces)

abbrev no_uplinks : Controller
no_uplinks = record { uplinks = []; pbr_rules = []; active = [] }

-- With interface names that stand once, the controller and the route manager that cmdMonitor makes
-- from the configuration agree: the tracked routes are those of the active uplinks.
pub monitor-IsSound :
    (net : Net) (cfg : SiteConfig)
    → Distinct (map (λ iface. iface.name) cfg.interfaces)
    → IsSound net (new_controller net cfg) (new_vtysh net (monitor_plan net cfg.interfaces).1)
unfolding new_controller new_vtysh lookup
monitor-IsSound net cfg d =
    let ifaces = cfg.interfaces in
    let routes = (monitor_plan net ifaces).1 in
    record {
      uplinks_distinct = index-Distinct net ifaces no_uplinks tt;
      tracked =
          mark_installed-IsTracked net routes (record { installed = []; log = [] })
            (record { distinct = tt; all_true = λ k. refl });
      in_sync = λ k. ground (
        arith,
        mark_installed-wants net k routes [],
        index-wants net k ifaces no_uplinks d (NewNames-nil ifaces),
      );
    }

-- With interface names that stand once, the first InstallInitialRoutes of cmdMonitor runs no
-- command: the manager stays as it is, and there is no error, whatever vtysh would answer and in
-- whatever order the maps are visited.
pub monitor-install_idle :
    (net : Net) (cfg : SiteConfig) (run : Runner) (vorders : Vtysh.Orders) (orders : Orders)
    → AreRanges vorders
    → IsRange orders.visit_uplinks
    → Distinct (map (λ iface. iface.name) cfg.interfaces)
    → let m = new_vtysh net (monitor_plan net cfg.interfaces).1 in
      install_initial_routes (vtysh_manager net run vorders) orders (new_controller net cfg) m
      ≡ (m, none)
monitor-install_idle net cfg run vorders orders ranges uplinks_range d =
    install_initial_routes_idle net run vorders orders (new_controller net cfg)
      (new_vtysh net (monitor_plan net cfg.interfaces).1) ranges uplinks_range
      (monitor-IsSound net cfg d)
