-- ===== src/Tests/StatusTests.antt =====
-- Tests of internal/health/status.go: two uplinks, and latencies kept in nanoseconds.
use warp_router.Prelude.{
  ℤ, pos, String, string_eq, Option, none, some, [], ◌∷◌, ◌≡◌, refl, sym, ◌∙◌, ap, lookup, text_iff,
  Distinct_of_test, keys_of, ◌==◌, Bool-cases, inl, inr,
}
use warp_router.Os.{World}
use warp_router.Health.Status.{healthy, down, UplinkState}
use warp_router.Health.Prober.{States}
use warp_router.Health.StatusFile.{
  StatusReport, ReportLib, report_of, write_status_file, read_status_file, by_name, status_of,
  write_status_file-read,
}
use warp_router.Tests.ApplyTests.{machine, works}
use warp_router.Tests.Fixtures.{range_in_order}

abbrev wan1 : UplinkState
wan1 = record {
  name = "wan1";
  target = "10.0.0.1";
  status = healthy;
  consecutive_fails = pos 0;
  last_probe_time = pos 5;
  last_success_time = pos 5;
  last_latency = pos 12;
  total_probes = pos 3;
  total_failures = pos 0;
}

abbrev wan2 : UplinkState
wan2 = record wan1 { name = "wan2"; status = down }

abbrev states : States
states = ("wan1", wan1) ∷ ("wan2", wan2) ∷ []

abbrev report : StatusReport ℤ
report = record {
  timestamp = pos 9;
  uplinks =
      record {
        name = "wan1";
        target = "10.0.0.1";
        status = "healthy";
        consecutive_fails = pos 0;
        last_probe_time = pos 5;
        last_success_time = pos 5;
        last_latency_ms = pos 12;
        total_probes = pos 3;
        total_failures = pos 0;
      }
      ∷ record {
        name = "wan2";
        target = "10.0.0.1";
        status = "down";
        consecutive_fails = pos 0;
        last_probe_time = pos 5;
        last_success_time = pos 5;
        last_latency_ms = pos 12;
        total_probes = pos 3;
        total_failures = pos 0;
      }
      ∷ [];
}

abbrev lib : ReportLib ℤ
lib = record {
  milliseconds = λ latency. latency;
  marshal = λ r. some "report";
  unmarshal = λ text. some report;
}

abbrev path : String
path = "/run/warp/health.json"

abbrev start : World
start = record { files = []; log = [] }

reports : report_of lib (pos 9) states ≡ report
unfolding report_of
reports = refl

names_agree : (k : String) (s : UplinkState) → lookup k states ≡ some s → s.name ≡ k
unfolding lookup
names_agree k s e = elim (Bool-cases ("wan1" == k)) [
  | inl first ↦
      let one : ◌≡◌ {A = Option UplinkState} (some wan1) (some s) =
        sym (rw (lookup, first) refl) ∙ e in
      let same : wan1 ≡ s = cc in
      sym (ap (λ (u : UplinkState). u.name) same) ∙ (text_iff "wan1" k).0 first
  | inr other ↦ elim (Bool-cases ("wan2" == k)) [
    | inl second ↦
        let one : ◌≡◌ {A = Option UplinkState} (some wan2) (some s) =
          sym (rw (lookup, other, second) refl) ∙ e in
        let same : wan2 ≡ s = cc in
        sym (ap (λ (u : UplinkState). u.name) same) ∙ (text_iff "wan2" k).0 second
    | inr neither ↦
        let clash : ◌≡◌ {A = Option UplinkState} none (some s) =
          sym (rw (lookup, other, neither) refl) ∙ e in
        cc
  ]
]

writes : (write_status_file lib (machine works) (λ m. m) (pos 9) path states start).1 ≡ none
unfolding write_status_file
writes = refl

write_status_file-read_example :
    (r : StatusReport ℤ) × (((read_status_file lib
          (machine works)
          path
          (write_status_file lib (machine works) (λ m. m) (pos 9) path states start).0).1
        ≡ some r)
      × ((k : String) → lookup k (by_name lib r.uplinks) ≡ status_of lib (lookup k states)))
write_status_file-read_example =
    write_status_file-read lib (machine works) range_in_order (pos 9) path states start
      (Distinct_of_test (keys_of states) refl) names_agree
      (λ text e. ap (λ (r : StatusReport ℤ). some r) (sym reports)) writes refl
