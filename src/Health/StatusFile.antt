-- ===== src/Health/StatusFile.antt =====
-- internal/health/status.go: the report for the command line, written and read again. A float64
-- is a type F with the conversion to milliseconds; encoding/json is a pair of functions.
use warp_router.Prelude.{
  ℤ, String, string_eq, true, false, Option, none, some, List, [], ◌∷◌, ◌≡◌, refl, sym, ap, ◌∙◌,
  inl, inr, Bool-cases, Option-cases, map, lookup, All, All-visit, Distinct, keys_of, IsRange,
  lookup-insert, arith, text_iff, if◌then◌else◌, ◌==◌,
}
use warp_router.Os.{
  World, Machine, contents, missing, unreadable, reading, saving, write, read_file, write_file,
  attempt, perform,
}
use warp_router.Health.Status.{to_string, UplinkState}
use warp_router.Health.Prober.{States, get_all_states}

pub record UplinkStatus (F : Type 0) : Type 0 where
  pub name : String
  pub target : String
  pub status : String
  pub consecutive_fails : ℤ
  pub last_probe_time : ℤ
  pub last_success_time : ℤ
  pub last_latency_ms : F
  pub total_probes : ℤ
  pub total_failures : ℤ

pub record StatusReport (F : Type 0) : Type 0 where
  pub timestamp : ℤ
  pub uplinks : List (UplinkStatus F)

pub record ReportLib (F : Type 0) : Type 0 where
  pub milliseconds : ℤ → F
  pub marshal : StatusReport F → Option String
  pub unmarshal : String → Option (StatusReport F)

-- Why WriteStatusFile failed.
pub data StatusError : Type 0 where
  marshaling_report writing_report : StatusError

module _ {F : Type 0} (lib : ReportLib F) where
  unfoldable pub uplink_status : UplinkState → UplinkStatus F
  unfolding to_string
  uplink_status s = record {
    name = s.name;
    target = s.target;
    status = to_string s.status;
    consecutive_fails = s.consecutive_fails;
    last_probe_time = s.last_probe_time;
    last_success_time = s.last_success_time;
    last_latency_ms = lib.milliseconds s.last_latency;
    total_probes = s.total_probes;
    total_failures = s.total_failures;
  }

  -- The report of the states, in the order in which GetAllStates visits the map.
  unfoldable pub report_of : ℤ → States → StatusReport F
  unfolding uplink_status get_all_states
  report_of now states = record {
    timestamp = now;
    uplinks = map uplink_status (get_all_states states);
  }

  module _ (os : Machine) where
    -- WriteStatusFile, at the time `now`.
    unfoldable pub write_status_file :
        (States → States) → ℤ → String → States → World → World × Option StatusError
    unfolding report_of write_file
    write_status_file visit now path states w = elim (lib.marshal (report_of now (visit states))) [
      | none ↦ (w, some marshaling_report)
      | some text ↦
          let (w', written) = write_file os path text w in
          if written then (w', none) else (w', some writing_report)
    ]

    -- ReadStatusFile: none is an error.
    unfoldable pub read_status_file : String → World → World × Option (StatusReport F)
    unfolding read_file
    read_status_file path w =
        let (w', result) = read_file os path w in
        elim result [
          | contents text ↦ (w', lib.unmarshal text)
          | missing ↦ (w', none)
          | unreadable ↦ (w', none)
        ]

  -- The uplinks of a report by their names.
  abbrev pub by_name : List (UplinkStatus F) → List (String × UplinkStatus F)
  by_name [] = []
  by_name (u ∷ us) = (u.name, u) ∷ by_name us

  abbrev pub status_of : Option UplinkState → Option (UplinkStatus F)
  status_of none = none
  status_of (some s) = some (uplink_status s)

  lookup-by_name :
      (k : String) (m : States)
      → All (λ (e : String × UplinkState). e.1.name ≡ e.0) m
      → lookup k (by_name (map uplink_status (get_all_states m))) ≡ status_of (lookup k m)
  unfolding lookup get_all_states uplink_status
  lookup-by_name k [] h = refl
  lookup-by_name k ((j, s) ∷ m) (n, h) = elim (Bool-cases (j == k)) [
    | inl same ↦ rw (n, same) refl
    | inr other ↦ rw (n, other) (lookup-by_name k m h)
  ]

  module _ (os : Machine) where
    write_file-written :
        (path text : String) (w : World)
        → (write_file os path text w).1 ≡ true
        → lookup path (write_file os path text w).0.files ≡ some text
    unfolding write_file write
    write_file-written path text w h = elim (Bool-cases (os.succeeds w.log (saving path text))) [
      | inl e ↦
          rw (write_file, write, e)
            (lookup-insert path path text w.files ∙ ground (arith, text_iff path path))
      | inr e ↦
          let clash : (write_file os path text w).1 ≡ false = rw (write_file, write, e) refl in cc
    ]

    read_status_file-reads :
        (path text : String) (w : World)
        → os.succeeds w.log (reading path) ≡ true
        → lookup path w.files ≡ some text
        → (read_status_file os path w).1 ≡ lib.unmarshal text
    unfolding read_status_file read_file perform attempt
    read_status_file-reads path text w e found =
        rw (read_status_file, read_file, perform, attempt, e, found) refl

    -- What WriteStatusFile writes is what ReadStatusFile reads: each registered uplink under its name.
    pub write_status_file-read :
        {visit : States → States}
        → IsRange visit
        → (now : ℤ) (path : String) (states : States) (w : World) → Distinct (keys_of states)
        → ((k : String) (s : UplinkState) → lookup k states ≡ some s → s.name ≡ k)
        → ((text : String)
            → lib.marshal (report_of now (visit states)) ≡ some text
            → lib.unmarshal text ≡ some (report_of now (visit states)))
        → (write_status_file os visit now path states w).1 ≡ none
        → os.succeeds (write_status_file os visit now path states w).0.log (reading path) ≡ true
        → (report : StatusReport F) × (((read_status_file os path
                (write_status_file os visit now path states w).0).1
              ≡ some report)
            × ((k : String) → lookup k (by_name report.uplinks) ≡ status_of (lookup k states)))
    unfolding write_status_file report_of
    write_status_file-read {visit} range now path states w distinct named reads h readable =
        let report = report_of now (visit states) in
        elim (Option-cases (lib.marshal report)) [
          | inl e ↦
              let clash : ◌≡◌ {A = Option StatusError} (some marshaling_report) none =
                sym (rw (write_status_file, e) refl) ∙ h in
              cc
          | inr (text, e) ↦
              let x = write_file os path text w in
              elim (Bool-cases x.1) [
                | inr unwritten ↦
                    let clash : ◌≡◌ {A = Option StatusError} (some writing_report) none =
                      sym (rw (write_status_file, e, unwritten) refl) ∙ h in
                    cc
                | inl written ↦
                    let after : write_status_file os visit now path states w ≡ (x.0, none) =
                      rw (write_status_file, e, written) refl in
                    let can_read : os.succeeds x.0.log (reading path) ≡ true =
                      ap (λ (y : World × Option StatusError). os.succeeds y.0.log (reading path))
                        (sym after)
                      ∙ readable in
                    (
                      report,
                      (
                        rw after (
                            read_status_file-reads path text x.0 can_read
                              (write_file-written path text w written)
                            ∙ reads text e),
                        λ k.
                            lookup-by_name k (visit states)
                              (All-visit (λ j s. s.name ≡ j) range states distinct named)
                            ∙ ap status_of (range.finds k states distinct),
                      ),
                    )
              ]
        ]
