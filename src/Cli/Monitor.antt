-- ===== src/Cli/Monitor.antt =====
-- cmd/warp/main.go: what cmdMonitor prepares from the configuration, before it starts probing.
pub mod Initial
pub mod Loop
use warp_router.Prelude.{
  ℤ, pos, negsuc, ltb_ℤ, wrap64, ◌*◌, string_eq, not, ◌||◌, Option, none, some, List, [], ◌∷◌,
  if◌then◌else◌, ◌==◌,
}
use warp_router.Config.{HealthCheck, Interface}
use warp_router.Net.{Net}
use warp_router.Health.Status.{ProbeConfig}
use warp_router.Failover.Routes.{Nexthop}

-- time.Duration(n) * time.Second, for the positive numbers that the code converts: 64 bits.
abbrev seconds : ℤ → ℤ
seconds (pos n) = wrap64 (n * 1_000_000_000)
seconds (negsuc n) = negsuc n

-- The probe of an uplink: the gateway, with what the health check overrides. A zero is replaced by
-- the default in probeLoop.
unfoldable pub with_health_check : Option HealthCheck → ProbeConfig → ProbeConfig
with_health_check none pc = pc
with_health_check (some hc) pc = record pc {
  target = if hc.target == "" then pc.target else hc.target;
  interval = if ltb_ℤ (pos 0) hc.interval then seconds hc.interval else pc.interval;
  timeout = if ltb_ℤ (pos 0) hc.timeout then seconds hc.timeout else pc.timeout;
  failures = if ltb_ℤ (pos 0) hc.failures then hc.failures else pc.failures;
}

unfoldable pub probe_config : Interface → ProbeConfig
unfolding with_health_check
probe_config iface = with_health_check iface.health_check (record {
  name = iface.name;
  target = iface.gateway;
  interval = pos 0;
  timeout = pos 0;
  failures = pos 0;
})

-- The loop over the interfaces: the probe configs and the routes that `warp apply` has installed.
unfoldable pub monitor_plan : Net → List Interface → List ProbeConfig × List Nexthop
unfolding probe_config
monitor_plan net [] = ([], [])
monitor_plan net (iface ∷ ifaces) =
    let (probes, routes) = monitor_plan net ifaces in
    if not (iface.role == "wan") || iface.gateway == "" then (probes, routes) else (
      probe_config iface ∷ probes,
      record { gateway = net.parse_ip iface.gateway; device = iface.device; weight = pos 1 }
          ∷ routes,
    )
