-- ===== src/Tests/HealthTests.antt =====
-- Tests of internal/health: an uplink with the default threshold of three failures.
use warp_router.Prelude.{
  ℤ, pos, string_eq, lookup, insert, some, List, [], ◌∷◌, ◌++◌, ◌≡◌, true, refl, arith,
}
use warp_router.Health.Status.{unknown, down, UplinkState, ProbeConfig}
use warp_router.Health.Prober.{
  States, reply, failure, record_ping, do_ping, with_defaults, register,
}
use warp_router.Health.History.{Pings, run_pings, failures_at, status-after_reply}
use warp_router.Health.Counters.{IsTallied, run_pings-IsTallied}
use warp_router.Health.Callbacks.{Probe, Outcome, run_probes-chains}

abbrev fresh : UplinkState
fresh = record {
  name = "wan1";
  target = "10.0.0.1";
  status = unknown;
  consecutive_fails = pos 0;
  last_probe_time = pos 0;
  last_success_time = pos 0;
  last_latency = pos 0;
  total_probes = pos 0;
  total_failures = pos 0;
}

abbrev times : List ℤ
times = pos 5 ∷ pos 6 ∷ pos 7 ∷ []

goes_down : (run_pings (pos 3) (failures_at times) fresh).status ≡ down
unfolding run_pings record_ping
goes_down = refl

status-after_reply_example :
    let s' =
      run_pings
        (pos 3)
        (failures_at times ++ (pos 8, reply (pos 1) (pos 9)) ∷ failures_at times)
        fresh in
    (s'.status ≡ down) × (s'.consecutive_fails ≡ pos 3)
status-after_reply_example =
    status-after_reply (failures_at times) (pos 8) (pos 1) (pos 9) times 3 fresh (omega arith)

abbrev mixed : Pings
mixed = failures_at times ++ (pos 8, reply (pos 1) (pos 9)) ∷ failures_at (pos 10 ∷ pos 11 ∷ [])

run_pings-IsTallied_example : IsTallied 3 6 5 2 (run_pings (pos 3) mixed fresh)
run_pings-IsTallied_example =
    run_pings-IsTallied 3 mixed fresh (omega arith)
      (record { status = refl; fails = refl; failures = refl; probes = refl })

abbrev uplink : ProbeConfig
uplink = record {
  name = "wan1";
  target = "10.0.0.1";
  interval = pos 0;
  timeout = pos 0;
  failures = pos 1;
}

abbrev probes : List Probe
probes =
    record { cfg = uplink; now = pos 5; result = failure }
    ∷ record { cfg = uplink; now = pos 6; result = failure }
    ∷ record { cfg = uplink; now = pos 7; result = reply (pos 1) (pos 8) }
    ∷ []

abbrev registered : States
registered = ("wan1", fresh) ∷ []

registers : register [] (uplink ∷ []) ≡ registered
unfolding register insert
registers = refl

two_changes :
    (do_ping true uplink (pos 5) failure registered)
    ≡ some (
      (
        "wan1",
        record fresh {
          status = down;
          consecutive_fails = pos 1;
          last_probe_time = pos 5;
          total_probes = pos 1;
          total_failures = pos 1;
        },
      )
          ∷ [],
      some (record { name = "wan1"; old = unknown; new = down }),
    )
unfolding do_ping lookup insert
two_changes = refl

run_probes-chains_example : Outcome probes registered
run_probes-chains_example =
    run_probes-chains probes registered ((fresh, found), ((fresh, found), ((fresh, found), tt)))
  where
    found : lookup "wan1" registered ≡ some fresh
    found = unfold lookup in refl

defaults : (with_defaults uplink).interval ≡ pos 1_000_000_000
unfolding with_defaults
defaults = refl
