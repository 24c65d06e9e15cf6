-- ===== src/Apply/Execute.antt =====
-- internal/apply/apply.go: what Execute leaves on the disk, and what it reports.
use mathlib.Core.Path.{subst}
use warp_router.Prelude.{
  String, string_eq, true, Option, none, some, List, [], ◌∷◌, ◌≡◌, ◌≢◌, refl, sym, ◌∙◌, ap, inl,
  inr, lookup, member, All, All-map, All-both, All-member, All-visit, Distinct, IsRange,
  Option-cases,
}
use warp_router.Config.{SiteConfig}
use warp_router.Os.{World, Machine, remove}
use warp_router.Os.Quiet.{IsApart}
use warp_router.Os.Frame.{NeverFails, remove-other}
use warp_router.Apply.{backup_path, restore_backups}
use warp_router.Apply.Vlans
use warp_router.Apply.Vlans.{VlanError, provision_vlans}
use warp_router.Apply.Vlans.Quiet.{provision_vlans-files}
use warp_router.Apply.Pipeline.{
  Step, StepError, vlan_failed, Result, Backups, back_up, run_steps, remove_backups, execute,
}
use warp_router.Apply.Backups.{
  backup_path_inj, Apart, restore_backups-other, restore_backups-restores,
}
use warp_router.Apply.BackUp.{
  paths_of, back_up-other, back_up-entries, back_up-Distinct, back_up-finds, IsBackedUp,
}
use warp_router.Apply.Steps.{
  run_steps-other, AreWritten, run_steps-AreWritten, Progress, run_steps-Progress,
}

-- What Execute needs of its steps: paths that differ, and no backup or temporary file among them.
pub record IsPipeline (os : Machine) (steps : List Step) : Type 0 where
  pub distinct : Distinct (paths_of steps)
  pub apart : All (IsApart os) (paths_of steps)
  pub backups_apart : All (λ p. IsApart os (backup_path p)) (paths_of steps)
  pub unmixed : All (λ q. All (λ p. backup_path p ≢ q) (paths_of steps)) (paths_of steps)

-- The steps up to the one that failed, or all of them, are completed.
pub data Report (steps : List Step) : Result → Type 0 where
  no_vlans :
      (error : VlanError)
      → Report steps (record { completed = []; failed = some ("vlan", vlan_failed error) })
  progress : (r : Result) → Progress steps [] r → Report steps r

module _ (os : Machine) (orders : Vlans.Orders) (visit : Backups → Backups) (range : IsRange visit)
    (steps : List Step) (cfg : SiteConfig) (w : World) where
  abbrev provisioned : World × Option VlanError
  provisioned = provision_vlans os orders cfg w

  abbrev backed_up : World × Backups
  backed_up = back_up os steps [] provisioned.0

  abbrev ran : World × Result
  ran = run_steps os cfg steps [] backed_up.0

  -- The three ends of Execute.
  execute_no_vlans :
      (error : VlanError)
      → provisioned.1 ≡ some error
      → execute os orders visit steps cfg w
        ≡ (provisioned.0, record { completed = []; failed = some ("vlan", vlan_failed error) })
  unfolding execute
  execute_no_vlans error e = rw (e, execute) refl

  execute_failed :
      (failure : String × StepError)
      → provisioned.1 ≡ none
      → ran.1.failed ≡ some failure
      → execute os orders visit steps cfg w ≡ (restore_backups os (visit backed_up.1) ran.0, ran.1)
  unfolding execute
  execute_failed failure e f = rw (e, execute, f) refl

  execute_done :
      provisioned.1 ≡ none
      → ran.1.failed ≡ none
      → execute os orders visit steps cfg w ≡ (remove_backups os (visit backed_up.1) ran.0, ran.1)
  unfolding execute
  execute_done e f = rw (e, execute, f) refl

  -- Whatever fails, and in whatever order the maps are visited, Execute reports as completed exactly
  -- the steps before the one that it reports as failed, or all steps and no failure; it may fail
  -- before the first step, at the VLANs.
  pub execute-Report : Report steps (execute os orders visit steps cfg w).1
  execute-Report = elim (Option-cases provisioned.1) [
    | inr (error, e) ↦ rw (execute_no_vlans error e) (no_vlans error)
    | inl e ↦
        let p = progress ran.1 (run_steps-Progress os cfg steps [] backed_up.0) in
        elim (Option-cases ran.1.failed) [
          | inl f ↦ rw (execute_done e f) p
          | inr (failure, f) ↦ rw (execute_failed failure e f) p
        ]
  ]

  remove_backups-other :
      (k : String) (backups : Backups) (v : World)
      → All (λ (e : String × String). e.1 ≢ k) backups
      → lookup k (remove_backups os backups v).files ≡ lookup k v.files
  unfolding remove_backups
  remove_backups-other k [] v h = refl
  remove_backups-other k ((_, backup) ∷ backups) v (n, h) =
      remove_backups-other k backups (remove os backup v).0 h ∙ remove-other os backup k v n

  -- A fact of the paths and their backups holds of the entries, in the order of the `range`.
  entries_visited :
      (P : String → String → Type 0)
      → All (λ p. P p (backup_path p)) (paths_of steps)
      → All (λ (e : String × String). P e.0 e.1) (visit backed_up.1)
  unfolding lookup
  entries_visited P h =
      All-visit P range backed_up.1 (back_up-Distinct os steps [] provisioned.0 tt)
        (back_up-entries os P steps [] provisioned.0 h (λ k d e. cc))

  -- A file that is no step's, no backup and not temporary keeps its text before the last part.
  ran-other :
      (k : String)
      → IsApart os k
      → All (λ p. (p ≢ k) × (backup_path p ≢ k)) (paths_of steps)
      → lookup k ran.0.files ≡ lookup k w.files
  ran-other k a h =
      let paths = paths_of steps in
      run_steps-other os cfg k steps [] backed_up.0 a
        (All-map (λ p. (p ≢ k) × (backup_path p ≢ k)) (λ p. p ≢ k) (λ p n. n.0) paths h)
      ∙ (back_up-other os k steps [] provisioned.0 (
            All-map (λ p. (p ≢ k) × (backup_path p ≢ k)) (λ p. backup_path p ≢ k) (λ p n. n.1) paths
              h)
          ∙ ap (lookup k) (provision_vlans-files os orders cfg w))

  -- Execute changes no file but those of its steps, their backups and temporary files, whether it
  -- fails or not.
  pub execute-other :
      (k : String)
      → IsApart os k
      → All (λ p. (p ≢ k) × (backup_path p ≢ k)) (paths_of steps)
      → lookup k (execute os orders visit steps cfg w).0.files ≡ lookup k w.files
  execute-other k a h =
      let entries = entries_visited (λ p d. (p ≢ k) × (d ≢ k)) h in
      elim (Option-cases provisioned.1) [
        | inr (error, e) ↦
            rw (execute_no_vlans error e) (ap (lookup k) (provision_vlans-files os orders cfg w))
        | inl e ↦ elim (Option-cases ran.1.failed) [
          | inr (failure, f) ↦
              rw (execute_failed failure e f)
                (restore_backups-other os k (visit backed_up.1) ran.0 entries ∙ ran-other k a h)
          | inl f ↦ rw (execute_done e f) (
              remove_backups-other k (visit backed_up.1) ran.0 (
                All-map (λ (d : String × String). (d.0 ≢ k) × (d.1 ≢ k)) (λ d. d.1 ≢ k) (λ d n. n.1)
                  (visit backed_up.1) entries)
              ∙ ran-other k a h)
        ]
      ]

  module _ (good : IsPipeline os steps) where
    written_after_removal :
        (some_steps : List Step)
        → All (λ q. All (λ p. backup_path p ≢ q) (paths_of steps)) (paths_of some_steps)
        → AreWritten os cfg ran.0.files some_steps
        → AreWritten os cfg (remove_backups os (visit backed_up.1) ran.0).files some_steps
    written_after_removal [] h a = tt
    written_after_removal (step ∷ rest) (n, h) ((text, rendered, e), a) = (
      (
        text,
        rendered,
        remove_backups-other step.config_path (visit backed_up.1) ran.0
              (entries_visited (λ p d. d ≢ step.config_path) n)
            ∙ e,
      ),
      written_after_removal rest h a,
    )

    restored :
        NeverFails os
        → (path text : String) → member path (paths_of steps) ≡ true
        → lookup path w.files ≡ some text
        → lookup path (restore_backups os (visit backed_up.1) ran.0).files ≡ some text
    restored reliable path text listed found =
        let paths = paths_of steps in
        let b = backup_path path in
        let clear : All (λ p. backup_path p ≢ path) paths =
          All-member (λ q. All (λ p. backup_path p ≢ q) paths) path paths good.unmixed listed in
        let not_b : All (λ q. q ≢ b) paths =
          All-map (λ q. All (λ p. backup_path p ≢ q) paths) (λ q. q ≢ b)
            (λ q h eq. All-member (λ p. backup_path p ≢ q) path paths h listed (sym eq)) paths
            good.unmixed in
        let kept : lookup path provisioned.0.files ≡ some text =
          ap (lookup path) (provision_vlans-files os orders cfg w) ∙ found in
        let backed : IsBackedUp os reliable path text backed_up =
          back_up-finds os reliable path text steps [] provisioned.0 clear listed kept in
        let b_kept : lookup b ran.0.files ≡ some text =
          run_steps-other os cfg b steps [] backed_up.0
            (All-member (λ p. IsApart os (backup_path p)) path paths good.backups_apart listed)
            not_b
          ∙ backed.1 in
        let apart : All (Apart os path b) (visit backed_up.1) =
          entries_visited (λ q d. (q ≢ b) × (d ≢ path) × (q ≢ path → d ≢ b))
            (All-map (λ q. (q ≢ b) × (backup_path q ≢ path))
              (λ q. (q ≢ b) × (backup_path q ≢ path) × (q ≢ path → backup_path q ≢ b))
              (λ q n. (n.0, n.1, λ ne eq. ne (backup_path_inj q path eq))) paths
              (All-both (λ q. q ≢ b) (λ q. backup_path q ≢ path) paths not_b clear)) in
        let d = back_up-Distinct os steps [] provisioned.0 tt in
        restore_backups-restores os reliable path b text (visit backed_up.1) ran.0
          (range.finds path backed_up.1 d ∙ backed.0) (range.once backed_up.1 d) apart b_kept

    -- For steps whose paths differ from each other and from all backups and temporary files: if
    -- Execute reports no failure, each step's render succeeded and its file has the rendered text,
    -- also after the clean-up of the backups, whichever of its removals fail.
    pub execute-AreWritten :
        (execute os orders visit steps cfg w).1.failed ≡ none
        → AreWritten os cfg (execute os orders visit steps cfg w).0.files steps
    execute-AreWritten h = elim (Option-cases provisioned.1) [
      | inr (error, e) ↦
          let contra : ◌≡◌ {A = Option (String × StepError)} (some ("vlan", vlan_failed error))
              none =
            sym (ap (λ (y : World × Result). y.1.failed) (execute_no_vlans error e)) ∙ h in
          cc
      | inl e ↦ elim (Option-cases ran.1.failed) [
        | inr (failure, f) ↦
            let contra : ◌≡◌ {A = Option (String × StepError)} none (some failure) =
              sym h ∙ (ap (λ (y : World × Result). y.1.failed) (execute_failed failure e f) ∙ f) in
            cc
        | inl f ↦
            subst (λ (y : World × Result). AreWritten os cfg y.0.files steps)
              (sym (execute_done e f))
              (written_after_removal steps good.unmixed
                (run_steps-AreWritten os cfg steps [] backed_up.0 good.apart good.distinct f))
      ]
    ]

    -- If Execute fails, and no ReadFile of a file that is there and no WriteFile failed, each step's
    -- file that was there before has its text of before again.
    pub execute-restores :
        NeverFails os
        → (path text : String) (failure : String × StepError) → member path (paths_of steps) ≡ true
        → lookup path w.files ≡ some text
        → (execute os orders visit steps cfg w).1.failed ≡ some failure
        → lookup path (execute os orders visit steps cfg w).0.files ≡ some text
    execute-restores reliable path text failure listed found h = elim (Option-cases provisioned.1) [
      | inr (error, e) ↦
          rw (execute_no_vlans error e)
            (ap (lookup path) (provision_vlans-files os orders cfg w) ∙ found)
      | inl e ↦ elim (Option-cases ran.1.failed) [
        | inl f ↦
            let contra : ◌≡◌ {A = Option (String × StepError)} (some failure) none =
              sym h ∙ (ap (λ (y : World × Result). y.1.failed) (execute_done e f) ∙ f) in
            cc
        | inr (failure', f) ↦
            rw (execute_failed failure' e f) (restored reliable path text listed found)
      ]
    ]
