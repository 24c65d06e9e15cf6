-- ===== src/Health/History.antt =====
-- internal/health/probe.go: what a sequence of pings of one uplink does to its state.
use Prim.Native.Nat.{◌^◌}
use native.Mathlib.Nat.{zero-add}
use warp_router.Prelude.{
  ℕ, zero, suc, ◌+◌, ◌<◌, ℤ, pos, inc64, ltb, ◌≡◌, refl, List, [], ◌∷◌, ◌++◌, length, arith,
  if◌then◌else◌,
}
use warp_router.Health.Status.{Status, healthy, degraded, down, UplinkState}
use warp_router.Health.Prober.{PingResult, reply, failure, record_ping, failed_status}

abbrev pub Pings : Type 0
Pings = List (ℤ × PingResult)

-- The pings of one uplink, oldest first.
unfoldable pub run_pings : ℤ → Pings → UplinkState → UplinkState
run_pings threshold [] s = s
run_pings threshold ((now, result) ∷ rest) s =
    run_pings threshold rest (record_ping threshold now result s)

-- Failed pings at the given times.
abbrev pub failures_at : List ℤ → Pings
failures_at [] = []
failures_at (t ∷ ts) = (t, failure) ∷ failures_at ts

-- The status that `fails` failed pings in a row lead to, from a status `start`.
abbrev pub status_for : ℕ → ℕ → Status → Status
status_for zero threshold start = start
status_for (suc n) threshold start = if ltb (suc n) threshold then degraded else down

pub run_pings-append :
    (threshold : ℤ) (xs ys : Pings) (s : UplinkState)
    → run_pings threshold (xs ++ ys) s ≡ run_pings threshold ys (run_pings threshold xs s)
unfolding run_pings
run_pings-append threshold [] ys s = refl
run_pings-append threshold ((now, r) ∷ xs) ys s =
    run_pings-append threshold xs ys (record_ping threshold now r s)

-- n + 1 failures in all lead to the status for n + 1.
pub failed_status-pos :
    (n threshold : ℕ) (old : Status)
    → failed_status (pos (suc n)) (pos threshold) old
      ≡ (if ltb (suc n) threshold then degraded else down)
unfolding failed_status
failed_status-pos n threshold old = ground arith

pub inc64-pos : (n : ℕ) → n + 1 < 2 ^ 63 → inc64 (pos n) ≡ pos (suc n)
inc64-pos n h = ground arith

-- Failures in a row, from a state that already counts `c` of them.
failures-run :
    (ts : List ℤ) (c threshold : ℕ) (start : Status) (s : UplinkState)
    → s.consecutive_fails ≡ pos c
    → s.status ≡ status_for c threshold start
    → c + length ts < 2 ^ 63
    → ((run_pings (pos threshold) (failures_at ts) s).status
        ≡ status_for (c + length ts) threshold start)
      × ((run_pings (pos threshold) (failures_at ts) s).consecutive_fails ≡ pos (c + length ts))
unfolding run_pings
failures-run [] c threshold start s hc hs h = let e : c + 0 ≡ c = omega arith in rw e (hs, hc)
failures-run (t ∷ ts) c threshold start s hc hs h =
    let e : c + suc (length ts) ≡ suc c + length ts = omega arith in
    rw e (
      failures-run ts (suc c) threshold start (record_ping (pos threshold) t failure s)
        (unfold record_ping in rw (hc, inc64-pos c (omega arith)))
        (unfold record_ping in
          rw (hc, inc64-pos c (omega arith)) (failed_status-pos c threshold s.status))
        (omega arith))

-- Whatever came before, a ping that answers and then failed pings, one at each time of `ts`, leave
-- the uplink healthy with no failure, degraded below the threshold, and down from the threshold on;
-- the consecutive failures are counted exactly. The failures are fewer than 2^63.
pub status-after_reply :
    (before : Pings) (now latency noted : ℤ) (ts : List ℤ) (threshold : ℕ) (s : UplinkState)
    → length ts < 2 ^ 63
    → let s' =
        run_pings (pos threshold) (before ++ (now, reply latency noted) ∷ failures_at ts) s in
      (s'.status ≡ status_for (length ts) threshold healthy)
      × (s'.consecutive_fails ≡ pos (length ts))
unfolding run_pings
status-after_reply before now latency noted ts threshold s h =
    let answered =
      record_ping (pos threshold) now (reply latency noted) (run_pings (pos threshold) before s) in
    rw (run_pings-append, ← zero-add (length ts))
      (failures-run ts 0 threshold healthy answered (unfold record_ping in refl)
        (unfold record_ping in refl) (omega arith))
