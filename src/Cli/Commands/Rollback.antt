-- ===== src/Cli/Commands/Rollback.antt =====
-- cmd/warp/main.go: cmdRollback, from the previous revision to the files of the services.
use warp_router.Prelude.{
  String, string_eq, some, List, [], ◌∷◌, concat, ◌≡◌, ◌⊎◌, refl, sym, ap, ◌∙◌, inl, inr,
  Bool-cases, Option-cases, IsRange, ◌==◌,
}
use warp_router.Config.{SiteConfig}
use warp_router.Config.Load.{parse, parsing_yaml}
use warp_router.Apply.Steps.{AreWritten}
use warp_router.Apply.Execute.{IsPipeline}
use warp_router.Revision.{Metadata}
use warp_router.Revision.Store.{GetError, Got, Saved, got, refused, save, get, previous}
use warp_router.Cli.Commands.{
  Env, System, lock_refused, step_failed, RollbackEnd, no_previous, not_got, not_parsed,
  not_rolled_back, rolled_back, steps_of, run_pipeline, roll_back, cmd_rollback,
}
use warp_router.Cli.Commands.Pipeline.{run_pipeline-AreWritten}
use warp_router.Cli.Commands.Load.{PipelineEnd-cases, release_lock-AreWritten}

Got-cases :
    (g : Got)
    → ((error : GetError) × (g ≡ refused error))
      ⊎ ((content : String) × ((meta : Metadata) × (g ≡ got content meta)))
Got-cases (refused error) = inl (error, refl)
Got-cases (got content meta) = inr (content, (meta, refl))

module _ (env : Env) where
  -- A rollback of `sys` to the revision with the content.
  pub record IsRolledBack (sys : System) (x : System × RollbackEnd) (id content : String)
      (cfg : SiteConfig) (result : Saved) : Type 0 where
    pub written : AreWritten env.os cfg x.0.world.files (steps_of env)
    pub stored :
        (save env.lib env.saving env.tries env.now content
          (concat ("rollback to " ∷ id ∷ []))
          sys.store).1
        ≡ result
    pub kept :
        x.0.store
        ≡ (save env.lib env.saving env.tries env.now content
            (concat ("rollback to " ∷ id ∷ []))
            sys.store).0

  -- Where rollback found the configuration.
  pub record IsSource (sys : System) (id content : String) (cfg : SiteConfig) : Type 0 where
    pub meta : Metadata
    pub previous_id : previous env.lib env.finding env.arrange sys.store ≡ id
    pub found : get env.lib env.getting id sys.store ≡ got content meta
    pub decoded : env.decode content ≡ some cfg

module _ (env : Env) (range : IsRange env.visit) (good : IsPipeline env.os (steps_of env)) where
  roll_back-IsRolledBack :
      (id content : String) (cfg : SiteConfig) (sys : System) (steps : List String) (result : Saved)
      → (roll_back env id content cfg sys).1 ≡ rolled_back steps result
      → IsRolledBack env sys (roll_back env id content cfg sys) id content cfg result
  unfolding roll_back
  roll_back-IsRolledBack id content cfg sys steps result h =
      let x = run_pipeline env cfg sys.world in
      elim (PipelineEnd-cases x.1) [
        | inr (inl (r, f)) ↦
            let clash : ◌≡◌ {A = RollbackEnd} (not_rolled_back (step_failed r))
                (rolled_back steps result) =
              sym (rw (roll_back, f) refl) ∙ h in
            cc
        | inr (inr (error, f)) ↦
            let clash : ◌≡◌ {A = RollbackEnd} (not_rolled_back (lock_refused error))
                (rolled_back steps result) =
              sym (rw (roll_back, f) refl) ∙ h in
            cc
        | inl (all_steps, f) ↦
            let outcome =
              save env.lib env.saving env.tries env.now content (concat ("rollback to " ∷ id ∷ []))
                sys.store in
            let same : ◌≡◌ {A = RollbackEnd} (rolled_back all_steps outcome.1)
                (rolled_back steps result) =
              sym (rw (roll_back, f) refl) ∙ h in
            record {
              written =
                  rw (roll_back, f)
                    (release_lock-AreWritten env cfg x.0
                      (run_pipeline-AreWritten env range cfg sys.world good all_steps f));
              stored = let equal : outcome.1 ≡ result = cc in equal;
              kept = rw (roll_back, f) refl;
            }
      ]

  -- If rollback succeeds, the files of the services are those rendered from the configuration that
  -- Get returns for the revision that Previous names, and that text is what it saves as a new one.
  pub cmd_rollback-IsRolledBack :
      (sys : System) (steps : List String) (result : Saved)
      → (cmd_rollback env sys).1 ≡ rolled_back steps result
      → (id : String) × ((content : String) × ((cfg : SiteConfig) × (IsSource env sys id content cfg
              × IsRolledBack env sys (cmd_rollback env sys) id content cfg result)))
  unfolding cmd_rollback parse
  cmd_rollback-IsRolledBack sys steps result h =
      let id = previous env.lib env.finding env.arrange sys.store in
      elim (Bool-cases (id == "")) [
        | inl empty ↦
            let clash : ◌≡◌ {A = RollbackEnd} no_previous (rolled_back steps result) =
              sym (rw (cmd_rollback, empty) refl) ∙ h in
            cc
        | inr named ↦ elim (Got-cases (get env.lib env.getting id sys.store)) [
          | inl (error, e) ↦
              let clash : ◌≡◌ {A = RollbackEnd} (not_got error) (rolled_back steps result) =
                sym (rw (cmd_rollback, named, e) refl) ∙ h in
              cc
          | inr (content, (meta, e)) ↦ elim (Option-cases (env.decode content)) [
            | inl f ↦
                let clash : ◌≡◌ {A = RollbackEnd} (not_parsed parsing_yaml)
                    (rolled_back steps result) =
                  sym (rw (cmd_rollback, named, e, f) refl) ∙ h in
                cc
            | inr (cfg, f) ↦
                let after : cmd_rollback env sys ≡ roll_back env id content cfg sys =
                  rw (cmd_rollback, named, e, f) refl in
                (
                  id,
                  (
                    content,
                    (
                      cfg,
                      (
                        record { meta = meta; previous_id = refl; found = e; decoded = f },
                        rw after (
                            roll_back-IsRolledBack id content cfg sys steps result
                              (ap (λ (y : System × RollbackEnd). y.1) (sym after) ∙ h)),
                      ),
                    ),
                  ),
                )
          ]
        ]
      ]
