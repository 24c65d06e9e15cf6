-- ===== src/Tests/ApplyTests.antt =====
-- Tests of internal/apply: a machine on which systemctl fails for Kea.
use warp_router.Prelude.{
  String, string_eq, Bool, true, false, none, some, List, [], ◌∷◌, ◌≡◌, ◌≢◌, refl, lookup, insert,
  erase, map, arith, text_iff, if◌then◌else◌, ◌==◌, All, All-map, All-both, sym, All-ne_of_member,
}
use warp_router.Os.{Call, running, Log, World, Machine}
use warp_router.Os.Quiet.{IsApart}
use warp_router.Apply.{backup_path, atomic_write}
use warp_router.Apply.Atomic.{Atomic, atomic_write-Atomic}
use warp_router.Apply.Vlans
use warp_router.Apply.Vlans.{provision_vlans}
use warp_router.Apply.Pipeline.{Step, StepError, reload_failed, execute, new_pipeline}
use warp_router.Apply.BackUp.{paths_of}
use warp_router.Apply.Steps.{AreWritten}
use warp_router.Apply.Execute.{
  IsPipeline, Report, execute-Report, execute-other, execute-AreWritten, execute-restores,
}
use warp_router.Apply.NewPipeline.{new_pipeline-IsPipeline, map_ne}
use warp_router.Tests.Fixtures.{net, site, range_in_order}

abbrev pub works : Log → Call → Bool
works log call = true

abbrev is_kea_reload : Call → Bool
is_kea_reload (running (a ∷ b ∷ service ∷ [])) = service == "kea-dhcp4-server"
is_kea_reload call = false

abbrev pub fails_at_kea : Log → Call → Bool
fails_at_kea log call = if is_kea_reload call then false else true

abbrev pub machine : (Log → Call → Bool) → Machine
machine succeeds = record {
  succeeds = succeeds;
  temp_path = λ log dir. "/.warp-0.tmp";
  remains = λ log call. none;
  prints = λ log args. "";
  dir_of = λ path. "/";
}

abbrev pub vlan_orders : Vlans.Orders
vlan_orders = record { visit_desired = λ m. m; visit_parents = λ m. m }

abbrev pub steps : List Step
steps = new_pipeline net (λ config. some "{}")

abbrev pub before : World
before = record { files = ("/etc/frr/frr.conf", "old") ∷ ("/etc/hosts", "hosts") ∷ []; log = [] }

paths-IsApart : (succeeds : Log → Call → Bool) → All (IsApart (machine succeeds)) (paths_of steps)
unfolding new_pipeline
paths-IsApart succeeds =
    All-map (λ k. ◌≢◌ {A = String} "/.warp-0.tmp" k) (IsApart (machine succeeds)) (λ k n log dir. n)
      (paths_of steps) (All-ne_of_member "/.warp-0.tmp" (paths_of steps) refl)

backups-IsApart :
    (succeeds : Log → Call → Bool)
    → All (λ p. IsApart (machine succeeds) (backup_path p)) (paths_of steps)
unfolding new_pipeline
backups-IsApart succeeds =
    map_back (paths_of steps)
      (All-ne_of_member "/.warp-0.tmp" (map backup_path (paths_of steps)) refl)
  where
    map_back :
        (ps : List String)
        → All (λ k. ◌≢◌ {A = String} "/.warp-0.tmp" k) (map backup_path ps)
        → All (λ p. IsApart (machine succeeds) (backup_path p)) ps
    map_back [] h = tt
    map_back (p ∷ ps) (n, h) = ((λ log dir. n), map_back ps h)

pub good : (succeeds : Log → Call → Bool) → IsPipeline (machine succeeds) steps
good succeeds =
    new_pipeline-IsPipeline net (λ config. some "{}") (machine succeeds) (paths-IsApart succeeds)
      (backups-IsApart succeeds)

-- The run stops at Kea, after three steps, and frr.conf has its old text again.
stops_at_kea :
    let (w, r) = execute (machine fails_at_kea) vlan_orders (λ m. m) steps site before in
    (r.completed ≡ "sysctl" ∷ "frr" ∷ "nftables" ∷ [])
    × (lookup "/etc/frr/frr.conf" w.files ≡ some "old")
unfolding execute new_pipeline lookup insert erase
stops_at_kea = (refl, refl)

abbrev pub failure : String × StepError
failure = ("kea", reload_failed "kea-dhcp4-server")

execute-restores_example :
    lookup "/etc/frr/frr.conf"
      (execute (machine fails_at_kea) vlan_orders (λ m. m) steps site before).0.files
    ≡ some "old"
unfolding new_pipeline lookup execute insert erase
execute-restores_example =
    execute-restores (machine fails_at_kea) vlan_orders (λ m. m) range_in_order steps site before
      (good fails_at_kea) (record { reads = λ w path. refl; saves = λ w path content. refl })
      "/etc/frr/frr.conf" "old" failure refl refl refl

execute-AreWritten_example :
    AreWritten
      (machine works)
      site
      (execute (machine works) vlan_orders (λ m. m) steps site before).0.files
      steps
unfolding execute new_pipeline lookup insert erase
execute-AreWritten_example =
    execute-AreWritten (machine works) vlan_orders (λ m. m) range_in_order steps site before
      (good works) refl

execute-Report_example :
    Report steps (execute (machine fails_at_kea) vlan_orders (λ m. m) steps site before).1
execute-Report_example =
    execute-Report (machine fails_at_kea) vlan_orders (λ m. m) range_in_order steps site before

hosts-IsApart : IsApart (machine works) "/etc/hosts"
hosts-IsApart log dir eq = ground (arith, text_iff "/.warp-0.tmp" "/etc/hosts", eq)

pub other_paths : All (λ p. (p ≢ "/etc/hosts") × (backup_path p ≢ "/etc/hosts")) (paths_of steps)
unfolding new_pipeline
other_paths =
    All-both (λ p. p ≢ "/etc/hosts") (λ p. backup_path p ≢ "/etc/hosts") (paths_of steps)
      (All-map (λ p. ◌≢◌ {A = String} "/etc/hosts" p) (λ p. p ≢ "/etc/hosts") (λ p n e. n (sym e))
        (paths_of steps) (All-ne_of_member "/etc/hosts" (paths_of steps) refl))
      (map_ne "/etc/hosts" (paths_of steps) refl)

execute-other_example :
    lookup "/etc/hosts" (execute (machine works) vlan_orders (λ m. m) steps site before).0.files
    ≡ some "hosts"
unfolding lookup
execute-other_example =
    execute-other (machine works) vlan_orders (λ m. m) range_in_order steps site before "/etc/hosts"
      hosts-IsApart other_paths

atomic_write-Atomic_example :
    Atomic
      (machine works)
      "/etc/hosts"
      "new"
      before
      (atomic_write (machine works) "/etc/hosts" "new" before)
atomic_write-Atomic_example = atomic_write-Atomic (machine works) "/etc/hosts" "new" before
