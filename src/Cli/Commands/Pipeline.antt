-- ===== src/Cli/Commands/Pipeline.antt =====
-- cmd/warp/main.go: what the lock and Execute, as apply and rollback call them, do to the files.
use warp_router.Prelude.{
  String, string_eq, true, Option, none, some, List, ◌≡◌, ◌≢◌, refl, sym, ap, ◌∙◌, inl, inr,
  Option-cases, lookup, member, All, All-member, All-ne_of_member, IsRange,
}
use warp_router.Config.{SiteConfig}
use warp_router.Os.{World}
use warp_router.Os.Quiet.{IsApart}
use warp_router.Os.Frame.{NeverFails}
use warp_router.Apply.{backup_path}
use warp_router.Apply.Pipeline.{StepError, Result, new_pipeline}
use warp_router.Apply.BackUp.{paths_of}
use warp_router.Apply.Steps.{AreWritten}
use warp_router.Apply.Execute.{IsPipeline, execute-other, execute-AreWritten, execute-restores}
use warp_router.Apply.Lock.{lock_path, LockError, acquire_lock, acquire_lock-other}
use warp_router.Cli.Commands.{
  Env, PipelineEnd, lock_refused, step_failed, completed, steps_of, pipeline, run_pipeline,
}

module _ (env : Env) where
  -- A file that is no step's, no backup, not temporary and not the lock.
  pub record IsForeign (k : String) : Type 0 where
    pub apart : IsApart env.os k
    pub not_lock : lock_path ≢ k
    pub not_step : All (λ p. (p ≢ k) × (backup_path p ≢ k)) (paths_of (steps_of env))

  pub lock_path-ne : All (λ p. lock_path ≢ p) (paths_of (steps_of env))
  unfolding new_pipeline
  lock_path-ne = All-ne_of_member lock_path (paths_of (steps_of env)) refl

module _ (env : Env) (range : IsRange env.visit) (cfg : SiteConfig) (w : World) where
  abbrev locked : World × Option LockError
  locked = acquire_lock env.os w

  abbrev ran : World × Result
  ran = pipeline env cfg locked.0

  run_refused :
      (error : LockError)
      → locked.1 ≡ some error
      → run_pipeline env cfg w ≡ (locked.0, lock_refused error)
  unfolding run_pipeline
  run_refused error e = rw (run_pipeline, e) refl

  run_failed :
      (failure : String × StepError)
      → locked.1 ≡ none
      → ran.1.failed ≡ some failure
      → run_pipeline env cfg w ≡ (ran.0, step_failed ran.1)
  unfolding run_pipeline
  run_failed failure e f = rw (run_pipeline, e, f) refl

  run_completed :
      locked.1 ≡ none
      → ran.1.failed ≡ none
      → run_pipeline env cfg w ≡ (ran.0, completed ran.1.completed)
  unfolding run_pipeline
  run_completed e f = rw (run_pipeline, e, f) refl

  abbrev End : Type 0
  End = World × PipelineEnd

  pub run_pipeline-other :
      (k : String) → IsForeign env k → lookup k (run_pipeline env cfg w).0.files ≡ lookup k w.files
  run_pipeline-other k foreign =
      let kept : lookup k locked.0.files ≡ lookup k w.files =
        acquire_lock-other env.os k foreign.not_lock w in
      let through : lookup k ran.0.files ≡ lookup k w.files =
        execute-other env.os env.orders env.visit range (steps_of env) cfg locked.0 k foreign.apart
          foreign.not_step
        ∙ kept in
      elim (Option-cases locked.1) [
        | inr (error, e) ↦ rw (run_refused error e) kept
        | inl e ↦ elim (Option-cases ran.1.failed) [
          | inr (failure, f) ↦ rw (run_failed failure e f) through
          | inl f ↦ rw (run_completed e f) through
        ]
      ]

  module _ (good : IsPipeline env.os (steps_of env)) where
    pub run_pipeline-AreWritten :
        (steps : List String)
        → (run_pipeline env cfg w).1 ≡ completed steps
        → AreWritten env.os cfg (run_pipeline env cfg w).0.files (steps_of env)
    run_pipeline-AreWritten steps h = elim (Option-cases locked.1) [
      | inr (error, e) ↦
          let clash : ◌≡◌ {A = PipelineEnd} (lock_refused error) (completed steps) =
            sym (ap (λ (y : End). y.1) (run_refused error e)) ∙ h in
          cc
      | inl e ↦ elim (Option-cases ran.1.failed) [
        | inr (failure, f) ↦
            let clash : ◌≡◌ {A = PipelineEnd} (step_failed ran.1) (completed steps) =
              sym (ap (λ (y : End). y.1) (run_failed failure e f)) ∙ h in
            cc
        | inl f ↦ rw (run_completed e f) (
            execute-AreWritten env.os env.orders env.visit range (steps_of env) cfg locked.0 good f)
      ]
    ]

    -- After a failure each step's file that was there has its text of before.
    pub run_pipeline-restores :
        NeverFails env.os
        → (path text : String) (r : Result) → member path (paths_of (steps_of env)) ≡ true
        → lookup path w.files ≡ some text
        → (run_pipeline env cfg w).1 ≡ step_failed r
        → lookup path (run_pipeline env cfg w).0.files ≡ some text
    run_pipeline-restores reliable path text r listed found h =
        let not_lock =
          All-member (λ p. lock_path ≢ p) path (paths_of (steps_of env)) (lock_path-ne env)
            listed in
        let kept : lookup path locked.0.files ≡ some text =
          acquire_lock-other env.os path not_lock w ∙ found in
        elim (Option-cases locked.1) [
          | inr (error, e) ↦ rw (run_refused error e) kept
          | inl e ↦ elim (Option-cases ran.1.failed) [
            | inr (failure, f) ↦ rw (run_failed failure e f) (
                execute-restores env.os env.orders env.visit range (steps_of env) cfg locked.0 good
                  reliable path text failure listed kept f)
            | inl f ↦
                let clash : ◌≡◌ {A = PipelineEnd} (completed ran.1.completed) (step_failed r) =
                  sym (ap (λ (y : End). y.1) (run_completed e f)) ∙ h in
                cc
          ]
        ]
