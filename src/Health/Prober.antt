-- ===== src/Health/Prober.antt =====
-- internal/health/probe.go: Prober.
use warp_router.Prelude.{
  ℤ, pos, ltb_ℤ, inc64, String, string_eq, Bool, not, ◌&&◌, Option, none, some, List, [], ◌∷◌,
  lookup, insert, if◌then◌else◌, ◌==◌,
}
use warp_router.Health.Status.{
  Status, unknown, healthy, degraded, down, status_eq, UplinkState, ProbeConfig,
}

abbrev pub States : Type 0
States = List (String × UplinkState)

-- A call of OnStateChange: the name, the old status and the new one.
pub record Change : Type 0 where
  pub name : String
  pub old : Status
  pub new : Status

-- What one ping returns: the latency, with the time that the clock shows when it is noted, or an
-- error.
pub data PingResult : Type 0 where
  reply : (latency noted : ℤ) → PingResult
  failure : PingResult

-- The registration part of Start: each uplink begins as unknown. The rest starts the goroutines.
unfoldable pub register : States → List ProbeConfig → States
register states [] = states
register states (cfg ∷ cfgs) =
    register
      (insert cfg.name
        (record {
          name = cfg.name;
          target = cfg.target;
          status = unknown;
          consecutive_fails = pos 0;
          last_probe_time = pos 0;
          last_success_time = pos 0;
          last_latency = pos 0;
          total_probes = pos 0;
          total_failures = pos 0;
        })
        states)
      cfgs

abbrev second : ℤ
second = pos 1_000_000_000

-- x <= 0
abbrev not_positive : ℤ → Bool
not_positive x = not (ltb_ℤ (pos 0) x)

-- The defaults that probeLoop sets before its first tick.
unfoldable pub with_defaults : ProbeConfig → ProbeConfig
with_defaults cfg = record cfg {
  interval = if not_positive cfg.interval then second else cfg.interval;
  timeout = if not_positive cfg.timeout then pos 2_000_000_000 else cfg.timeout;
  failures = if not_positive cfg.failures then pos 3 else cfg.failures;
}

-- The status that doPing sets after a failed ping: `fails` is the counter after its increment.
unfoldable pub failed_status : ℤ → ℤ → Status → Status
failed_status fails threshold old =
    if not (ltb_ℤ fails threshold)
    then down
    else if not (ltb_ℤ fails (pos 1))
    then degraded
    else old

-- doPing's update of the state, between Lock and Unlock.
unfoldable pub record_ping : ℤ → ℤ → PingResult → UplinkState → UplinkState
unfolding failed_status
record_ping threshold now (reply latency noted) s = record s {
  last_probe_time = now;
  total_probes = inc64 s.total_probes;
  consecutive_fails = pos 0;
  last_success_time = noted;
  last_latency = latency;
  status = healthy;
}
record_ping threshold now failure s =
    let fails = inc64 s.consecutive_fails in
    record s {
      last_probe_time = now;
      total_probes = inc64 s.total_probes;
      total_failures = inc64 s.total_failures;
      consecutive_fails = fails;
      status = failed_status fails threshold s.status;
    }

-- The callback that doPing makes after Unlock, if the status changed and a callback is set.
unfoldable pub callback : Bool → String → Status → Status → Option Change
callback listening name old new =
    if not (old == new) && listening
    then some (record { name = name; old = old; new = new })
    else none

-- doPing on the map of states; `listening` says that OnStateChange is set. A name with no state
-- is a nil pointer, and the program stops: none.
unfoldable pub do_ping :
    Bool → ProbeConfig → ℤ → PingResult → States → Option (States × Option Change)
unfolding record_ping callback
do_ping listening cfg now result states = elim (lookup cfg.name states) [
  | none ↦ none
  | some s ↦
      let s' = record_ping cfg.failures now result s in
      some (insert cfg.name s' states, callback listening cfg.name s.status s'.status)
]

-- GetState
unfoldable pub get_state : String → States → Option UplinkState
get_state name states = lookup name states

-- GetAllStates
unfoldable pub get_all_states : States → List UplinkState
get_all_states [] = []
get_all_states ((_, s) ∷ states) = s ∷ get_all_states states

-- HealthyUplinks
unfoldable pub healthy_uplinks : States → List String
healthy_uplinks [] = []
healthy_uplinks ((name, s) ∷ states) =
    let rest = healthy_uplinks states in if s.status == healthy then name ∷ rest else rest
