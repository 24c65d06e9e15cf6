-- ===== src/Apply/Steps.antt =====
-- internal/apply/apply.go: what the steps of Execute do to the files, and its result.
use mathlib.Core.Path.{subst}
use mathlib.Core.List.{append-nil, append_assoc}
use warp_router.Prelude.{
  String, string_eq, Bool, true, false, Option, none, some, List, [], ◌∷◌, ◌++◌, ◌≡◌, ◌≢◌, refl,
  sym, ◌∙◌, ap, inl, inr, lookup, map, All, All-map, Distinct, Bool-cases, Option-cases, arith,
  text_iff, ◌==◌,
}
use warp_router.Config.{SiteConfig}
use warp_router.Os.{Files, World, Machine, run}
use warp_router.Os.Quiet.{IsApart, run-files}
use warp_router.Apply.{WriteError, atomic_write}
use warp_router.Apply.Atomic.{Settled, atomic_write-Atomic}
use warp_router.Apply.Pipeline.{
  Step, StepError, render_failed, write_failed, Result, refused, load_sysctl, reload, activate,
  run_step, run_steps, sysctl_command, reload_command,
}
use warp_router.Apply.BackUp.{paths_of}

module _ (os : Machine) where
  refused-files : (error : StepError) (x : World × Bool) → (refused os error x).0.files ≡ x.0.files
  refused-files error (w, true) = refl
  refused-files error (w, false) = refl

  load_sysctl-files : (step : Step) (w : World) → (load_sysctl os step w).0.files ≡ w.files
  unfolding load_sysctl
  load_sysctl-files step w = elim (Bool-cases (step.name == "sysctl")) [
    | inl it ↦ rw it (
        refused-files _ (run os (sysctl_command step.config_path) w)
        ∙ run-files os (sysctl_command step.config_path) w)
    | inr other ↦ rw other refl
  ]

  reload-files : (step : Step) (w : World) → (reload os step w).0.files ≡ w.files
  unfolding reload
  reload-files step w = elim (Bool-cases (step.service == "")) [
    | inl idle ↦ rw idle refl
    | inr busy ↦ rw busy (
        refused-files _ (run os (reload_command step.service) w)
        ∙ run-files os (reload_command step.service) w)
  ]

  activate-files : (step : Step) (w : World) → (activate os step w).0.files ≡ w.files
  unfolding activate
  activate-files step w =
      let x = load_sysctl os step w in
      elim (Option-cases x.1) [
        | inl done ↦ rw (done, activate) (reload-files step x.0 ∙ load_sysctl-files step w)
        | inr (error, failed) ↦ rw (failed, activate) (load_sysctl-files step w)
      ]

  -- Another file that is not temporary keeps its text.
  Settled-other :
      (path content k : String) (w : World) (x : World × Option WriteError)
      → Settled os path content w.files x
      → IsApart os k
      → path ≢ k
      → lookup k x.0.files ≡ lookup k w.files
  Settled-other path content k w (v, none) h a n = ground (arith, h k a, text_iff path k, n)
  Settled-other path content k w (v, some error) h a n = h k a

  Settled-own :
      (path content : String) (w : World) (x : World × Option WriteError)
      → Settled os path content w.files x
      → IsApart os path
      → x.1 ≡ none
      → lookup path x.0.files ≡ some content
  Settled-own path content w (v, none) h a e = ground (arith, h path a, text_iff path path)
  Settled-own path content w (v, some error) h a e = cc

  module _ (cfg : SiteConfig) where
    run_step-other :
        (k : String) (step : Step) (w : World)
        → IsApart os k
        → step.config_path ≢ k
        → lookup k (run_step os cfg step w).0.files ≡ lookup k w.files
    unfolding run_step
    run_step-other k step w a n = elim (Option-cases (step.render cfg)) [
      | inl unrendered ↦ rw (unrendered, run_step) refl
      | inr (content, rendered) ↦
          let path = step.config_path in
          let x = atomic_write os path content w in
          let kept =
            Settled-other path content k w x (atomic_write-Atomic os path content w).final a n in
          elim (Option-cases x.1) [
            | inl done ↦
                rw (rendered, run_step, done) (ap (lookup k) (activate-files step x.0) ∙ kept)
            | inr (error, failed) ↦ rw (rendered, run_step, failed) kept
          ]
    ]

    -- The step's render succeeded, and its file has the text.
    abbrev IsWritten : Files → Step → Type 0
    IsWritten files step =
        (text : String) × (step.render cfg ≡ some text)
        × (lookup step.config_path files ≡ some text)

    run_step-writes :
        (step : Step) (w : World)
        → IsApart os step.config_path
        → (run_step os cfg step w).1 ≡ none
        → IsWritten (run_step os cfg step w).0.files step
    unfolding run_step
    run_step-writes step w a e = elim (Option-cases (step.render cfg)) [
      | inl unrendered ↦
          let stopped : (run_step os cfg step w).1 ≡ some render_failed =
            rw (unrendered, run_step) refl in
          cc
      | inr (content, rendered) ↦
          let path = step.config_path in
          let x = atomic_write os path content w in
          elim (Option-cases x.1) [
            | inl done ↦
                let own =
                  Settled-own path content w x (atomic_write-Atomic os path content w).final a
                    done in
                let kept : lookup path (run_step os cfg step w).0.files ≡ some content =
                  rw (rendered, run_step, done)
                    (ap (lookup path) (activate-files step x.0) ∙ own) in
                (content, rendered, kept)
            | inr (error, failed) ↦
                let stopped : (run_step os cfg step w).1 ≡ some (write_failed error) =
                  rw (rendered, run_step, failed) refl in
                cc
          ]
    ]

    run_steps-next :
        (step : Step) (steps : List Step) (completed : List String) (w : World)
        → (run_step os cfg step w).1 ≡ none
        → run_steps os cfg (step ∷ steps) completed w
          ≡ run_steps os cfg steps (completed ++ step.name ∷ []) (run_step os cfg step w).0
    unfolding run_steps
    run_steps-next step steps completed w e = rw (e, run_steps) refl

    run_steps-stop :
        (step : Step) (steps : List Step) (completed : List String) (w : World) (error : StepError)
        → (run_step os cfg step w).1 ≡ some error
        → run_steps os cfg (step ∷ steps) completed w ≡ (
          (run_step os cfg step w).0,
          record { completed = completed; failed = some (step.name, error) },
        )
    unfolding run_steps
    run_steps-stop step steps completed w error e = rw (e, run_steps) refl

    -- A file that no step writes, and that is not temporary, keeps its text.
    pub run_steps-other :
        (k : String) (steps : List Step) (completed : List String) (w : World)
        → IsApart os k
        → All (λ p. p ≢ k) (paths_of steps)
        → lookup k (run_steps os cfg steps completed w).0.files ≡ lookup k w.files
    run_steps-other k [] completed w a h = unfold run_steps in refl
    run_steps-other k (step ∷ steps) completed w a (n, h) =
        let x = run_step os cfg step w in
        let kept = run_step-other k step w a n in
        elim (Option-cases x.1) [
          | inl done ↦
              rw (run_steps-next step steps completed w done)
                (run_steps-other k steps (completed ++ step.name ∷ []) x.0 a h ∙ kept)
          | inr (error, failed) ↦ rw (run_steps-stop step steps completed w error failed) kept
        ]

    -- Each step's render succeeded, and each step's file has the text that it rendered.
    abbrev pub AreWritten : Files → List Step → Type 0
    AreWritten files steps = All (IsWritten files) steps

    pub run_steps-AreWritten :
        (steps : List Step) (completed : List String) (w : World)
        → All (IsApart os) (paths_of steps)
        → Distinct (paths_of steps)
        → (run_steps os cfg steps completed w).1.failed ≡ none
        → AreWritten (run_steps os cfg steps completed w).0.files steps
    run_steps-AreWritten [] completed w a d e = tt
    run_steps-AreWritten (step ∷ steps) completed w (p, a) (n, d) e =
        let x = run_step os cfg step w in
        let path = step.config_path in
        elim (Option-cases x.1) [
          | inl done ↦
              let next = run_steps-next step steps completed w done in
              let later = run_steps os cfg steps (completed ++ step.name ∷ []) x.0 in
              let apart : All (λ q. q ≢ path) (paths_of steps) =
                All-map (λ q. path ≢ q) (λ q. q ≢ path) (λ q ne eq. ne (sym eq)) (paths_of steps)
                  n in
              let (text, rendered, written) = run_step-writes step w p done in
              let own : IsWritten later.0.files step = (
                text,
                rendered,
                run_steps-other path steps (completed ++ step.name ∷ []) x.0 p apart ∙ written,
              ) in
              subst (λ (y : World × Result). AreWritten y.0.files (step ∷ steps)) (sym next)
                (
                  own,
                  run_steps-AreWritten steps (completed ++ step.name ∷ []) x.0 a d
                      (sym (ap (λ (y : World × Result). y.1.failed) next) ∙ e),
                )
          | inr (error, failed) ↦
              let stopped = run_steps-stop step steps completed w error failed in
              let contra : ◌≡◌ {A = Option (String × StepError)} (some (step.name, error)) none =
                sym (ap (λ (y : World × Result). y.1.failed) stopped) ∙ e in
              cc
        ]

-- How far a run came: through all steps, or up to the one that failed.
pub data Progress (steps : List Step) (completed : List String) : Result → Type 0 where
  finished :
      Progress steps completed
        (record { completed = completed ++ map (λ step. step.name) steps; failed = none })
  stopped_at :
      (before after : List Step) (step : Step) (error : StepError)
      → steps ≡ before ++ step ∷ after
      → Progress steps completed (record {
        completed = completed ++ map (λ step. step.name) before;
        failed = some (step.name, error);
      })

Progress-cons :
    (step : Step) (steps : List Step) (completed : List String) (r : Result)
    → Progress steps (completed ++ step.name ∷ []) r
    → Progress (step ∷ steps) completed r
Progress-cons step steps completed _ finished =
    subst
      (λ (c : List String).
        Progress (step ∷ steps) completed (record { completed = c; failed = none }))
      (sym (append_assoc completed (step.name ∷ []) (map (λ s. s.name) steps))) finished
Progress-cons step steps completed _ (stopped_at before after failing error e) =
    subst
      (λ (c : List String).
        Progress (step ∷ steps) completed
          (record { completed = c; failed = some (failing.name, error) }))
      (sym (append_assoc completed (step.name ∷ []) (map (λ s. s.name) before)))
      (stopped_at (step ∷ before) after failing error (ap (λ ss. step ∷ ss) e))

module _ (os : Machine) (cfg : SiteConfig) where
  pub run_steps-Progress :
      (steps : List Step) (completed : List String) (w : World)
      → Progress steps completed (run_steps os cfg steps completed w).1
  run_steps-Progress [] completed w =
      unfold run_steps in
      subst (λ (c : List String). Progress [] completed (record { completed = c; failed = none }))
        (append-nil completed) finished
  run_steps-Progress (step ∷ steps) completed w =
      let x = run_step os cfg step w in
      elim (Option-cases x.1) [
        | inl done ↦ rw (run_steps-next os cfg step steps completed w done) (
            Progress-cons step steps completed _
              (run_steps-Progress steps (completed ++ step.name ∷ []) x.0))
        | inr (error, failed) ↦ rw (run_steps-stop os cfg step steps completed w error failed) (
            subst
              (λ (c : List String).
                Progress (step ∷ steps) completed
                  (record { completed = c; failed = some (step.name, error) }))
              (append-nil completed) (stopped_at [] steps step error refl))
      ]
