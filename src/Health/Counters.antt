-- ===== src/Health/Counters.antt =====
-- internal/health/probe.go: the counters of an uplink agree with its pings and with its status.
use Prim.Native.Nat.{◌^◌}
use native.Mathlib.Nat.{zero-add}
use warp_router.Prelude.{
  ℕ, suc, ◌+◌, ◌≤◌, ◌<◌, ℤ, pos, Bool, true, false, ◌≡◌, ◌⊎◌, ◌∙◌, inl, inr, refl, [], ◌∷◌, length,
  arith, if◌then◌else◌,
}
use warp_router.Health.Status.{unknown, healthy, degraded, down, UplinkState}
use warp_router.Health.Prober.{reply, failure, record_ping}
use warp_router.Health.History.{Pings, run_pings, inc64-pos, failed_status-pos}

-- How many of the pings failed.
abbrev pub failed_pings : Pings → ℕ
failed_pings [] = 0
failed_pings ((_, failure) ∷ pings) = suc (failed_pings pings)
failed_pings ((_, reply _ _) ∷ pings) = failed_pings pings

abbrev all_failed : Pings → Bool
all_failed [] = true
all_failed ((_, failure) ∷ pings) = all_failed pings
all_failed ((_, reply _ _) ∷ pings) = false

-- How many pings failed since the last reply: the length of the longest end without a reply.
abbrev pub failed_at_end : Pings → ℕ
failed_at_end [] = 0
failed_at_end (ping ∷ pings) =
    let shorter = failed_at_end pings in
    if all_failed (ping ∷ pings) then length (ping ∷ pings) else shorter

-- The counters of a state are `n` probes, `failed` failures and `run` failures in a row. The status
-- tells the run: healthy or, before the first ping, unknown without one, degraded below the
-- threshold, down from it on.
pub record IsTallied (threshold n failed run : ℕ) (s : UplinkState) : Type 0 where
  pub probes : s.total_probes ≡ pos n
  pub failures : s.total_failures ≡ pos failed
  pub in_row : s.consecutive_fails ≡ pos run
  pub calm : run ≡ 0 → ((0 < n) × (s.status ≡ healthy)) ⊎ ((n ≡ 0) × (s.status ≡ unknown))
  pub few : 0 < run → run < threshold → s.status ≡ degraded
  pub many : 0 < run → threshold ≤ run → s.status ≡ down

reply-IsTallied :
    (threshold n failed run : ℕ) (now latency noted : ℤ) (s : UplinkState)
    → n + 1 < 2 ^ 63
    → IsTallied threshold n failed run s
    → IsTallied threshold (suc n) failed 0 (record_ping (pos threshold) now (reply latency noted) s)
unfolding record_ping
reply-IsTallied threshold n failed run now latency noted s h t = record {
  probes = rw t.probes (inc64-pos n h);
  failures = t.failures;
  in_row = refl;
  calm = λ _. inl (omega arith, refl);
  few = λ p _. absurd (omega arith);
  many = λ p _. absurd (omega arith);
}

failure-IsTallied :
    (threshold n failed run : ℕ) (now : ℤ) (s : UplinkState)
    → n + 1 < 2 ^ 63
    → failed ≤ n
    → run ≤ n
    → IsTallied threshold n failed run s
    → IsTallied threshold (suc n) (suc failed) (suc run) (record_ping (pos threshold) now failure s)
unfolding record_ping
failure-IsTallied threshold n failed run now s h f r t = record {
  probes = rw t.probes (inc64-pos n h);
  failures = rw t.failures (inc64-pos failed (omega arith));
  in_row = rw t.in_row (inc64-pos run (omega arith));
  calm = λ e. absurd (omega arith);
  few = λ _ p.
      rw (t.in_row, inc64-pos run (omega arith))
        (failed_status-pos run threshold s.status ∙ ground arith);
  many = λ _ p.
      rw (t.in_row, inc64-pos run (omega arith))
        (failed_status-pos run threshold s.status ∙ ground arith);
}

-- An uplink as Start registers it, before any ping.
pub record IsFresh (s : UplinkState) : Type 0 where
  pub status : s.status ≡ unknown
  pub fails : s.consecutive_fails ≡ pos 0
  pub failures : s.total_failures ≡ pos 0
  pub probes : s.total_probes ≡ pos 0

IsFresh-IsTallied : (threshold : ℕ) (s : UplinkState) → IsFresh s → IsTallied threshold 0 0 0 s
IsFresh-IsTallied threshold s f = record {
  probes = f.probes;
  failures = f.failures;
  in_row = f.fails;
  calm = λ _. inr (refl, f.status);
  few = λ p _. absurd (omega arith);
  many = λ p _. absurd (omega arith);
}

-- The run after more pings: it goes on if all of them failed.
abbrev run_after : ℕ → Pings → ℕ
run_after run pings = if all_failed pings then run + length pings else failed_at_end pings

run_after-failure :
    (run : ℕ) (now : ℤ) (pings : Pings)
    → run_after (suc run) pings ≡ run_after run ((now, failure) ∷ pings)
run_after-failure run now pings = ground arith

run_after_none : (pings : Pings) → run_after 0 pings ≡ failed_at_end pings
run_after_none [] = refl
run_after_none (ping ∷ pings) = ground arith

run_pings-IsTallied_from :
    (threshold n failed run : ℕ) (pings : Pings) (s : UplinkState)
    → n + length pings < 2 ^ 63
    → failed ≤ n
    → run ≤ n
    → IsTallied threshold n failed run s
    → IsTallied threshold
        (n + length pings)
        (failed + failed_pings pings)
        (run_after run pings)
        (run_pings (pos threshold) pings s)
unfolding run_pings
run_pings-IsTallied_from threshold n failed run [] s h f r t =
    let e : (m : ℕ) → m + 0 ≡ m = λ m. omega arith in rw (e n, e failed, e run) t
run_pings-IsTallied_from threshold n failed run ((now, failure) ∷ pings) s h f r t =
    let e : (m k : ℕ) → m + suc k ≡ suc m + k = λ m k. omega arith in
    rw (e n (length pings), e failed (failed_pings pings), ← run_after-failure run now pings)
      (run_pings-IsTallied_from threshold (suc n) (suc failed) (suc run) pings
        (record_ping (pos threshold) now failure s) (omega arith) (omega arith) (omega arith)
        (failure-IsTallied threshold n failed run now s (omega arith) f r t))
run_pings-IsTallied_from threshold n failed run ((now, reply latency noted) ∷ pings) s h f r t =
    let e : n + suc (length pings) ≡ suc n + length pings = omega arith in
    rw (e, ← run_after_none pings)
      (run_pings-IsTallied_from threshold (suc n) failed 0 pings
        (record_ping (pos threshold) now (reply latency noted) s) (omega arith) (omega arith)
        (omega arith) (reply-IsTallied threshold n failed run now latency noted s (omega arith) t))

-- After fewer than 2^63 pings of an uplink as Start registers it, whatever their results, the
-- probes are all pings, the failures are the pings that failed, and the failures in a row are
-- those since the last reply. The status is unknown before the first ping, healthy without a
-- failure since the last reply, degraded with fewer than the threshold, and down from it on.
pub run_pings-IsTallied :
    (threshold : ℕ) (pings : Pings) (s : UplinkState)
    → length pings < 2 ^ 63
    → IsFresh s
    → IsTallied threshold
        (length pings)
        (failed_pings pings)
        (failed_at_end pings)
        (run_pings (pos threshold) pings s)
run_pings-IsTallied threshold pings s h f =
    rw (← zero-add (length pings), ← zero-add (failed_pings pings), ← run_after_none pings)
      (run_pings-IsTallied_from threshold 0 0 0 pings s (omega arith) (omega arith) (omega arith)
        (IsFresh-IsTallied threshold s f))
