-- ===== src/Cli/Commands/Apply.antt =====
-- cmd/warp/main.go: cmdApply, from the configuration file to the files of the services and the store.
use mathlib.Core.Path.{subst}
use warp_router.Prelude.{
  ◌<◌, ◌≤◌, String, string_eq, true, Option, none, some, List, [], ◌∷◌, ◌≡◌, ◌≢◌, refl, sym, ap,
  ◌∙◌, inl, inr, Option-cases, lookup, length, tens, member, concat, IsRange,
}
use warp_router.Config.{SiteConfig}
use warp_router.Config.Valid.{IsValidConfig}
use warp_router.Os.{Files, World, read_file}
use warp_router.Os.Quiet.{read_file-files}
use warp_router.Os.Frame.{NeverFails}
use warp_router.Apply.Pipeline.{Result}
use warp_router.Apply.BackUp.{paths_of}
use warp_router.Apply.Steps.{AreWritten}
use warp_router.Apply.Execute.{IsPipeline}
use warp_router.Apply.Lock.{release_lock}
use warp_router.Revision.{Disk, asking}
use warp_router.Revision.Id.{stamp, matches}
use warp_router.Revision.Store.{Saved, saved, got, entries_of, metadata, save, get}
use warp_router.Revision.RoundTrip.{AllAllowed, save-get}
use warp_router.Cli.Commands.{
  Env, System, ValidateEnd, PipelineEnd, lock_refused, step_failed, completed, ApplyEnd, not_valid,
  not_applied, not_read, applied, steps_of, run_pipeline, load_valid, save_applied, cmd_apply,
}
use warp_router.Cli.Commands.Pipeline.{
  IsForeign, run_pipeline-other, run_pipeline-AreWritten, run_pipeline-restores,
}
use warp_router.Cli.Commands.Load.{
  PipelineEnd-cases, ReadResult-cases, read_file-contents, IsConfigOf, load_valid-files,
  load_valid-IsConfigOf, release_lock-AreWritten,
}

abbrev pub comment_of : String → String
comment_of path = concat ("apply from " ∷ path ∷ [])

module _ (env : Env) (path : String) (sys : System) where
  abbrev pub final : System × ApplyEnd
  final = cmd_apply env path sys

  abbrev read_valid : World × ValidateEnd × Option SiteConfig
  read_valid = load_valid env path sys.world

  -- The ways through cmd_apply.
  apply_invalid :
      read_valid.2 ≡ none
      → final ≡ (record { world = read_valid.0; store = sys.store }, not_valid read_valid.1)
  unfolding cmd_apply
  apply_invalid e = rw (cmd_apply, e) refl

  apply_stops :
      (cfg : SiteConfig) (end : PipelineEnd)
      → read_valid.2 ≡ some cfg
      → (run_pipeline env cfg read_valid.0).1 ≡ end
      → ((steps : List String) → end ≢ completed steps)
      → final ≡ (
        record { world = (run_pipeline env cfg read_valid.0).0; store = sys.store },
        not_applied end,
      )
  unfolding cmd_apply
  apply_stops cfg (lock_refused error) e f n = rw (cmd_apply, e, f) refl
  apply_stops cfg (step_failed result) e f n = rw (cmd_apply, e, f) refl
  apply_stops cfg (completed steps) e f n = absurd (n steps refl)

  apply_runs :
      (cfg : SiteConfig) (steps : List String)
      → read_valid.2 ≡ some cfg
      → (run_pipeline env cfg read_valid.0).1 ≡ completed steps
      → final
        ≡ save_applied env path steps
            (record { world = (run_pipeline env cfg read_valid.0).0; store = sys.store })
  unfolding cmd_apply
  apply_runs cfg steps e f = rw (cmd_apply, e, f) refl

  -- A file without a valid configuration: apply leaves every file and the store as they are.
  pub cmd_apply-refuses :
      ((cfg : SiteConfig) → IsConfigOf env sys.world.files path cfg → ⊥)
      → (final.0.world.files ≡ sys.world.files) × (final.0.store ≡ sys.store)
  cmd_apply-refuses h = elim (Option-cases read_valid.2) [
    | inl e ↦ rw (apply_invalid e) (load_valid-files env path sys.world, refl)
    | inr (cfg, e) ↦ absurd (h cfg (load_valid-IsConfigOf env path sys.world cfg e))
  ]

  saving-ends :
      (steps : List String) (s : System) (end : PipelineEnd)
      → (save_applied env path steps s).1 ≢ not_applied end
  unfolding save_applied
  saving-ends steps s end = elim (ReadResult-cases (read_file env.os path s.world).1) [
    | inr (inl e) ↦ rw (save_applied, e) (λ eq. cc)
    | inr (inr e) ↦ rw (save_applied, e) (λ eq. cc)
    | inl (text, e) ↦ rw (save_applied, e) (λ eq. cc)
  ]

  -- What a run of apply that saved `id` has done with the text of the file.
  pub record IsApplied (text : String) (cfg : SiteConfig) (id : String) : Type 0 where
    pub found : lookup path sys.world.files ≡ some text
    pub decoded : env.decode text ≡ some cfg
    pub valid : IsValidConfig env.net cfg
    pub written : AreWritten env.os cfg final.0.world.files (steps_of env)
    pub stored :
        (save env.lib env.saving env.tries env.now text (comment_of path) sys.store).1 ≡ saved id
    pub kept :
        final.0.store
        ≡ (save env.lib env.saving env.tries env.now text (comment_of path) sys.store).0

  -- What Save was given, and made of it.
  record IsSaving (s : System) (x : System × ApplyEnd) (result : Saved) : Type 0 where
    text : String
    found : lookup path s.world.files ≡ some text
    kept : x.0.store ≡ (save env.lib env.saving env.tries env.now text (comment_of path) s.store).0
    stored : (save env.lib env.saving env.tries env.now text (comment_of path) s.store).1 ≡ result
    freed : x.0.world ≡ release_lock env.os (read_file env.os path s.world).0

  save_applied-IsSaving :
      (steps steps' : List String) (s : System) (result : Saved)
      → (save_applied env path steps s).1 ≡ applied steps' result
      → IsSaving s (save_applied env path steps s) result
  unfolding save_applied
  save_applied-IsSaving steps steps' s result h =
      elim (ReadResult-cases (read_file env.os path s.world).1) [
        | inr (inl e) ↦
            let clash : ◌≡◌ {A = ApplyEnd} not_read (applied steps' result) =
              sym (rw (save_applied, e) refl) ∙ h in
            cc
        | inr (inr e) ↦
            let clash : ◌≡◌ {A = ApplyEnd} not_read (applied steps' result) =
              sym (rw (save_applied, e) refl) ∙ h in
            cc
        | inl (text, e) ↦
            let outcome =
              save env.lib env.saving env.tries env.now text (comment_of path) s.store in
            let same : ◌≡◌ {A = ApplyEnd} (applied steps outcome.1) (applied steps' result) =
              sym (rw (save_applied, e) refl) ∙ h in
            record {
              text = text;
              found = read_file-contents env.os path text s.world e;
              kept = rw (save_applied, e) refl;
              stored = let equal : outcome.1 ≡ result = cc in equal;
              freed = rw (save_applied, e) refl;
            }
      ]

  module _ (range : IsRange env.visit) (good : IsPipeline env.os (steps_of env)) where
    -- If a step of apply fails, the store is as before, and each step's file that was there has its
    -- text of before again.
    pub cmd_apply-restores :
        NeverFails env.os
        → (file text : String) (r : Result) → member file (paths_of (steps_of env)) ≡ true
        → lookup file sys.world.files ≡ some text
        → final.1 ≡ not_applied (step_failed r)
        → (lookup file final.0.world.files ≡ some text) × (final.0.store ≡ sys.store)
    cmd_apply-restores reliable file text r listed found h = elim (Option-cases read_valid.2) [
      | inl e ↦
          let clash : ◌≡◌ {A = ApplyEnd} (not_valid read_valid.1) (not_applied (step_failed r)) =
            sym (ap (λ (y : System × ApplyEnd). y.1) (apply_invalid e)) ∙ h in
          cc
      | inr (cfg, e) ↦
          let x = run_pipeline env cfg read_valid.0 in
          elim (PipelineEnd-cases x.1) [
            | inl (steps, f) ↦ absurd (
                saving-ends steps (record { world = x.0; store = sys.store }) (step_failed r)
                  (sym (ap (λ (y : System × ApplyEnd). y.1) (apply_runs cfg steps e f)) ∙ h))
            | inr (inl (r', f)) ↦ rw (apply_stops cfg (step_failed r') e f (λ steps eq. cc)) (
              run_pipeline-restores env range cfg read_valid.0 good reliable file text r' listed
                  (ap (lookup file) (load_valid-files env path sys.world) ∙ found) f,
              refl,
            )
            | inr (inr (error, f)) ↦
                let clash : ◌≡◌ {A = ApplyEnd} (not_applied (lock_refused error))
                    (not_applied (step_failed r)) =
                  sym (
                    ap (λ (y : System × ApplyEnd). y.1)
                      (apply_stops cfg (lock_refused error) e f (λ steps eq. cc)))
                  ∙ h in
                cc
          ]
    ]

    -- If apply saves a revision, it is the text of the configuration file, which is a valid
    -- configuration, and the files of the services are those rendered from that configuration.
    pub cmd_apply-IsApplied :
        (steps : List String) (id : String)
        → IsForeign env path
        → final.1 ≡ applied steps (saved id)
        → (text : String) × ((cfg : SiteConfig) × IsApplied text cfg id)
    cmd_apply-IsApplied steps id foreign h = elim (Option-cases read_valid.2) [
      | inl e ↦
          let clash : ◌≡◌ {A = ApplyEnd} (not_valid read_valid.1) (applied steps (saved id)) =
            sym (ap (λ (y : System × ApplyEnd). y.1) (apply_invalid e)) ∙ h in
          cc
      | inr (cfg, e) ↦
          let x = run_pipeline env cfg read_valid.0 in
          elim (PipelineEnd-cases x.1) [
            | inr (inl (r, f)) ↦
                let clash : ◌≡◌ {A = ApplyEnd} (not_applied (step_failed r))
                    (applied steps (saved id)) =
                  sym (
                    ap (λ (y : System × ApplyEnd). y.1)
                      (apply_stops cfg (step_failed r) e f (λ l eq. cc)))
                  ∙ h in
                cc
            | inr (inr (error, f)) ↦
                let clash : ◌≡◌ {A = ApplyEnd} (not_applied (lock_refused error))
                    (applied steps (saved id)) =
                  sym (
                    ap (λ (y : System × ApplyEnd). y.1)
                      (apply_stops cfg (lock_refused error) e f (λ l eq. cc)))
                  ∙ h in
                cc
            | inl (all_steps, f) ↦
                let after = apply_runs cfg all_steps e f in
                let s : System = record { world = x.0; store = sys.store } in
                let saving : IsSaving s final (saved id) =
                  subst (λ (y : System × ApplyEnd). IsSaving s y (saved id)) (sym after)
                    (save_applied-IsSaving all_steps steps s (saved id)
                      (ap (λ (y : System × ApplyEnd). y.1) (sym after) ∙ h)) in
                let source = load_valid-IsConfigOf env path sys.world cfg e in
                let unchanged : lookup path x.0.files ≡ lookup path sys.world.files =
                  run_pipeline-other env range cfg read_valid.0 path foreign
                  ∙ ap (lookup path) (load_valid-files env path sys.world) in
                let one : ◌≡◌ {A = Option String} (some source.text) (some saving.text) =
                  sym source.found ∙ (sym unchanged ∙ saving.found) in
                let same : source.text ≡ saving.text = cc in
                (
                  saving.text,
                  (
                    cfg,
                    record {
                      found = rw (← same) source.found;
                      decoded = rw (← same) source.decoded;
                      valid = source.valid;
                      written = rw saving.freed (
                          release_lock-AreWritten env cfg (read_file env.os path x.0).0 (
                            subst (λ (fs : Files). AreWritten env.os cfg fs (steps_of env))
                              (sym (read_file-files env.os path x.0))
                              (run_pipeline-AreWritten env range cfg read_valid.0 good all_steps
                                f)));
                      stored = saving.stored;
                      kept = saving.kept;
                    },
                  ),
                )
          ]
    ]

module _ (env : Env) (path : String) (sys : System) (range : IsRange env.visit)
    (good : IsPipeline env.os (steps_of env))
    (stats : (id : String) → env.saving.allows (asking id) ≡ true)
    (stamped : matches stamp (env.lib.format_time env.now) ≡ true)
    (few : length (entries_of sys.store) < 100) (enough : length (entries_of sys.store) < env.tries)
    (small : env.tries ≤ tens 20) where
  -- If apply saves a revision, in a store of fewer than a hundred entries, Get of it returns a valid
  -- configuration from which the files of the services are rendered.
  pub cmd_apply-get :
      (steps : List String) (id : String) (reader : Disk)
      → IsForeign env path
      → AllAllowed reader
      → ((text t : String)
          → env.lib.marshal (metadata env.lib env.now id text (comment_of path)) ≡ some t
          → env.lib.unmarshal t ≡ some (metadata env.lib env.now id text (comment_of path)))
      → (cmd_apply env path sys).1 ≡ applied steps (saved id)
      → (text : String) × ((cfg : SiteConfig) × (IsApplied env path sys text cfg id
            × (get env.lib reader id (cmd_apply env path sys).0.store
                ≡ got text (metadata env.lib env.now id text (comment_of path)))))
  cmd_apply-get steps id reader foreign allowed reads h =
      let (text, (cfg, done)) = cmd_apply-IsApplied env path sys range good steps id foreign h in
      (
        text,
        (
          cfg,
          (
            done,
            rw done.kept (
                save-get env.lib env.saving env.tries env.now text (comment_of path) sys.store stats
                  stamped few enough small reader id allowed (reads text) done.stored),
          ),
        ),
      )
