-- ===== src/Apply/NewPipeline.antt =====
-- internal/apply/apply.go: the pipeline that NewPipeline makes is one that Execute can run.
use warp_router.Prelude.{
  String, string_eq, Bool, true, false, Option, List, [], ◌∷◌, ◌≡◌, ◌≢◌, refl, map, member, All,
  Distinct_of_test, arith, text_iff, if◌then◌else◌,
}
use warp_router.Net.{Net}
use warp_router.Services.Kea.{Dhcp4Config}
use warp_router.Os.{Machine}
use warp_router.Os.Quiet.{IsApart}
use warp_router.Apply.{backup_path}
use warp_router.Apply.Pipeline.{Step, new_pipeline}
use warp_router.Apply.BackUp.{paths_of}
use warp_router.Apply.Execute.{IsPipeline}

abbrev backups_of : List String → List String
backups_of paths = map backup_path paths

abbrev none_in : List String → List String → Bool
none_in [] paths = true
none_in (q ∷ qs) paths = if member q paths then false else none_in qs paths

pub map_ne :
    (q : String) (paths : List String)
    → member q (backups_of paths) ≡ false
    → All (λ p. backup_path p ≢ q) paths
map_ne q [] e = tt
map_ne q (p ∷ paths) e =
    ((λ eq. ground (arith, text_iff (backup_path p) q, e, eq)), map_ne q paths (ground arith))

-- No path of the list is one of the others.
unmixed_of_test :
    (paths qs : List String)
    → none_in qs (backups_of paths) ≡ true
    → All (λ q. All (λ p. backup_path p ≢ q) paths) qs
unmixed_of_test paths [] e = tt
unmixed_of_test paths (q ∷ qs) e =
    (map_ne q paths (ground arith), unmixed_of_test paths qs (ground arith))

module _ (net : Net) (kea_text : Dhcp4Config → Option String) (os : Machine) where
  abbrev steps : List Step
  steps = new_pipeline net kea_text

  -- The files of the pipeline that NewPipeline makes differ from each other and from all of their
  -- backups, so that Execute keeps them apart, if no temporary file is one of them.
  pub new_pipeline-IsPipeline :
      All (IsApart os) (paths_of (new_pipeline net kea_text))
      → All (λ p. IsApart os (backup_path p)) (paths_of (new_pipeline net kea_text))
      → IsPipeline os (new_pipeline net kea_text)
  unfolding new_pipeline
  new_pipeline-IsPipeline a b = record {
    distinct = Distinct_of_test (paths_of steps) refl;
    apart = a;
    backups_apart = b;
    unmixed = unmixed_of_test (paths_of steps) (paths_of steps) refl;
  }
