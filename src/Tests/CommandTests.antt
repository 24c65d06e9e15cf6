-- ===== src/Tests/CommandTests.antt =====
-- Tests of the commands of cmd/warp: a machine, a store with two revisions, and one configuration.
use warp_router.Prelude.{
  pos, String, string_eq, true, false, Option, none, some, List, [], ◌∷◌, ◌≡◌, ◌≢◌, refl, sym, ap,
  ◌∙◌, lookup, insert, erase, show_nat, arith, text_iff, All, All-both, All-map, All-ne_of_member,
  ◌||◌, if◌then◌else◌, ◌==◌,
}
use warp_router.Config.{SiteConfig}
use warp_router.Config.Validate.{validate}
use warp_router.Net.{contains}
use warp_router.Os.{Machine}
use warp_router.Apply.{backup_path}
use warp_router.Apply.BackUp.{paths_of}
use warp_router.Apply.Pipeline.{reload_failed, new_pipeline}
use warp_router.Apply.NewPipeline.{map_ne}
use warp_router.Apply.Lock.{lock_path}
use warp_router.Revision.{Metadata, folder, link, Lib, read_file}
use warp_router.Revision.Id.{strip, show_padded, candidate}
use warp_router.Revision.Store.{saved, Dir, got, metadata, get}
use warp_router.Cli.Commands.{
  Env, System, invocation, run_apply, run_monitor, step_failed, applied, not_applied, rolled_back,
  cmd_apply, cmd_rollback, cmd_revisions, cmd_status, shows,
}
use warp_router.Cli.Commands.Pipeline.{IsForeign}
use warp_router.Cli.Commands.Load.{IsConfigOf}
use warp_router.Cli.Commands.Apply.{
  IsApplied, comment_of, cmd_apply-refuses, cmd_apply-restores, cmd_apply-get,
}
use warp_router.Cli.Commands.Rollback.{IsSource, IsRolledBack, cmd_rollback-IsRolledBack}
use warp_router.Tests.Fixtures.{net, site, range_in_order}
use warp_router.Tests.ApplyTests
use warp_router.Tests.RevisionTests
use warp_router.Tests.RevisionTests.{stamp_text, first, second, first_files, stamp_fits}

abbrev path : String
path = "/etc/warp/site.yaml"

abbrev third_id : String
third_id = "20260102T150405Z-02"

abbrev third : Metadata
third = record {
  id = third_id;
  timestamp = pos 6;
  sha256 = "cc";
  comment = "apply from /etc/warp/site.yaml";
}

abbrev decode : String → Option SiteConfig
decode text = if text == "site" || text == "old" then some site else none

abbrev read_metadata : String → Option Metadata
read_metadata s =
    if s == "first" then some first else if s == "second" then some second else some third

abbrev lib : Lib
lib = record {
  format_time = λ t. stamp_text;
  sha256_hex = λ s. "cc";
  marshal = λ m. some "third";
  unmarshal = read_metadata;
}

abbrev env : Machine → Env
env os = record {
  os = os;
  decode = decode;
  net = net;
  kea_text = λ config. some "{}";
  orders = ApplyTests.vlan_orders;
  visit = λ m. m;
  lib = lib;
  arrange = λ l. l;
  finding = RevisionTests.works;
  getting = RevisionTests.works;
  saving = RevisionTests.works;
  tries = 4;
  now = pos 6;
}

abbrev works : Env
works = env (ApplyTests.machine ApplyTests.works)

abbrev fails_at_kea : Env
fails_at_kea = env (ApplyTests.machine ApplyTests.fails_at_kea)

-- The newest revision first, as List gives them.
abbrev store : Dir
store = some (
    ("20260102T150405Z-01", folder (("site.yaml", "new") ∷ ("metadata.json", "second") ∷ []))
    ∷ (stamp_text, folder first_files)
    ∷ ("current", link "20260102T150405Z-01")
    ∷ [])

abbrev start : System
start = record {
  world = record {
    files = (path, "site") ∷ ("/etc/frr/frr.conf", "frr") ∷ ("/etc/warp/bad.yaml", "bad") ∷ [];
    log = [];
  };
  store = store;
}

abbrev all_steps : List String
all_steps = "sysctl" ∷ "frr" ∷ "nftables" ∷ "kea" ∷ "unbound" ∷ []

lists_revisions :
    cmd_revisions works store
    ≡ some (
        record {
          id = "20260102T150405Z-01";
          timestamp = pos 5;
          comment = "second";
          is_current = true;
        }
        ∷ record { id = stamp_text; timestamp = pos 4; comment = "first"; is_current = false }
        ∷ [])
unfolding cmd_revisions lookup
lists_revisions = refl

shows_current : cmd_status works store ≡ shows second
unfolding cmd_status lookup strip read_file
shows_current = refl

applies : (cmd_apply works path start).1 ≡ applied all_steps (saved third_id)
unfolding cmd_apply lookup insert erase candidate show_padded show_nat contains
applies = refl

rolls_back : (cmd_rollback works start).1 ≡ rolled_back all_steps (saved third_id)
unfolding cmd_rollback lookup insert erase candidate show_padded show_nat strip read_file validate
    contains
rolls_back = refl

stops_at_kea :
    (cmd_apply fails_at_kea path start).1
    ≡ not_applied (
        step_failed (record {
          completed = "sysctl" ∷ "frr" ∷ "nftables" ∷ [];
          failed = some ("kea", reload_failed "kea-dhcp4-server");
        }))
unfolding cmd_apply lookup insert erase contains
stops_at_kea = refl

others : All (λ p. (p ≢ path) × (backup_path p ≢ path)) (paths_of ApplyTests.steps)
unfolding new_pipeline
others =
    All-both (λ p. p ≢ path) (λ p. backup_path p ≢ path) (paths_of ApplyTests.steps)
      (All-map (λ p. ◌≢◌ {A = String} path p) (λ p. p ≢ path) (λ p n e. n (sym e))
        (paths_of ApplyTests.steps) (All-ne_of_member path (paths_of ApplyTests.steps) refl))
      (map_ne path (paths_of ApplyTests.steps) refl)

foreign : IsForeign works path
foreign = record {
  apart = λ log dir eq. ground (arith, text_iff "/.warp-0.tmp" path, eq);
  not_lock = λ eq. ground (arith, text_iff lock_path path, eq);
  not_step = others;
}

bad_has_none : (cfg : SiteConfig) → IsConfigOf works start.world.files "/etc/warp/bad.yaml" cfg → ⊥
unfolding lookup
bad_has_none cfg c =
    let one : ◌≡◌ {A = Option String} (some "bad") (some c.text) = c.found in
    let equal : "bad" ≡ c.text = cc in
    let clash : ◌≡◌ {A = Option SiteConfig} none (some cfg) = ap decode equal ∙ c.decoded in cc

cmd_apply-refuses_example :
    ((cmd_apply works "/etc/warp/bad.yaml" start).0.world.files ≡ start.world.files)
    × ((cmd_apply works "/etc/warp/bad.yaml" start).0.store ≡ store)
cmd_apply-refuses_example = cmd_apply-refuses works "/etc/warp/bad.yaml" start bad_has_none

cmd_apply-restores_example :
    (lookup "/etc/frr/frr.conf" (cmd_apply fails_at_kea path start).0.world.files ≡ some "frr")
    × ((cmd_apply fails_at_kea path start).0.store ≡ store)
unfolding lookup new_pipeline
cmd_apply-restores_example =
    cmd_apply-restores fails_at_kea path start range_in_order
      (ApplyTests.good ApplyTests.fails_at_kea)
      (record { reads = λ w p. refl; saves = λ w p content. refl }) "/etc/frr/frr.conf" "frr" _ refl
      refl stops_at_kea

cmd_apply-get_example :
    (text : String) × ((cfg : SiteConfig) × (IsApplied works path start text cfg third_id
        × (get lib RevisionTests.works third_id (cmd_apply works path start).0.store
            ≡ got text (metadata lib (pos 6) third_id text (comment_of path)))))
unfolding metadata
cmd_apply-get_example =
    cmd_apply-get works path start range_in_order (ApplyTests.good ApplyTests.works) (λ id. refl)
      stamp_fits (omega arith) (omega arith) (omega arith) all_steps third_id RevisionTests.works
      foreign (λ call. refl)
      (λ text t e.
        let one : ◌≡◌ {A = Option String} (some "third") (some t) = e in
        let equal : "third" ≡ t = cc in rw (← equal) refl)
      applies

cmd_rollback-IsRolledBack_example :
    (id : String) × ((content : String) × ((cfg : SiteConfig) × (IsSource works start id content cfg
          × IsRolledBack works start (cmd_rollback works start) id content cfg (saved third_id))))
cmd_rollback-IsRolledBack_example =
    cmd_rollback-IsRolledBack works range_in_order (ApplyTests.good ApplyTests.works) start
      all_steps (saved third_id) rolls_back

reads_arguments :
    (invocation ("warp" ∷ "apply" ∷ "a.yaml" ∷ []) ≡ run_apply "a.yaml")
    × (invocation ("warp" ∷ "monitor" ∷ []) ≡ run_monitor path)
unfolding invocation
reads_arguments = (refl, refl)
