-- ===== src/Cli/Commands/Load.antt =====
-- cmd/warp/main.go: what the first lines of cmdValidate and cmdApply make of the file, and the unlock.
use warp_router.Prelude.{
  String, string_eq, Option, none, some, List, [], ◌∷◌, ◌≡◌, ◌≢◌, ◌⊎◌, refl, sym, ap, ◌∙◌, inl, inr,
  Option-cases, lookup, All, All-map, arith,
}
use warp_router.Config.{SiteConfig}
use warp_router.Config.Validate.{validate}
use warp_router.Config.Valid.{IsValidConfig, validate_iff}
use warp_router.Config.Load.{
  LoadError, unreadable_file, parsing_yaml, Loaded, loaded, not_loaded, parse, load_file,
}
use warp_router.Os.{
  Files, World, Machine, ReadResult, contents, missing, unreadable, attempt, perform, read_file,
}
use warp_router.Os.Quiet.{read_file-files}
use warp_router.Apply.Pipeline.{Step, Result}
use warp_router.Apply.BackUp.{paths_of}
use warp_router.Apply.Steps.{AreWritten}
use warp_router.Apply.Lock.{LockError, lock_path, release_lock, release_lock-other}
use warp_router.Cli.Commands.{
  Env, PipelineEnd, lock_refused, step_failed, completed, steps_of, load_valid,
}
use warp_router.Cli.Commands.Pipeline.{lock_path-ne}

pub read_file-contents :
    (os : Machine) (path text : String) (w : World)
    → (read_file os path w).1 ≡ contents text
    → lookup path w.files ≡ some text
unfolding read_file perform attempt
read_file-contents os path text w h = ground (arith, h)

-- To split on what a computation returns.
List-cases {ℓ} : {A : Type ℓ} (l : List A) → (l ≡ []) ⊎ ((x : A) × ((xs : List A) × (l ≡ x ∷ xs)))
List-cases [] = inl refl
List-cases (x ∷ xs) = inr (x, (xs, refl))

pub ReadResult-cases :
    (r : ReadResult) → ((text : String) × (r ≡ contents text)) ⊎ ((r ≡ missing) ⊎ (r ≡ unreadable))
ReadResult-cases (contents text) = inl (text, refl)
ReadResult-cases missing = inr (inl refl)
ReadResult-cases unreadable = inr (inr refl)

Loaded-cases :
    (l : Loaded)
    → ((error : LoadError) × (l ≡ not_loaded error)) ⊎ ((cfg : SiteConfig) × (l ≡ loaded cfg))
Loaded-cases (loaded cfg) = inr (cfg, refl)
Loaded-cases (not_loaded error) = inl (error, refl)

pub PipelineEnd-cases :
    (e : PipelineEnd)
    → ((steps : List String) × (e ≡ completed steps))
      ⊎ (((r : Result) × (e ≡ step_failed r)) ⊎ ((error : LockError) × (e ≡ lock_refused error)))
PipelineEnd-cases (completed steps) = inl (steps, refl)
PipelineEnd-cases (step_failed r) = inr (inl (r, refl))
PipelineEnd-cases (lock_refused error) = inr (inr (error, refl))

module _ (env : Env) where
  -- The configuration that the file has, if it is valid.
  pub record IsConfigOf (files : Files) (path : String) (cfg : SiteConfig) : Type 0 where
    pub text : String
    pub found : lookup path files ≡ some text
    pub decoded : env.decode text ≡ some cfg
    pub valid : IsValidConfig env.net cfg

  load_file-files :
      (path : String) (w : World) → (load_file env.decode env.os path w).0.files ≡ w.files
  unfolding load_file
  load_file-files path w = elim (ReadResult-cases (read_file env.os path w).1) [
    | inl (text, e) ↦ rw (load_file, e) (read_file-files env.os path w)
    | inr (inl e) ↦ rw (load_file, e) (read_file-files env.os path w)
    | inr (inr e) ↦ rw (load_file, e) (read_file-files env.os path w)
  ]

  load_file-loaded :
      (path : String) (w : World) (cfg : SiteConfig)
      → (load_file env.decode env.os path w).1 ≡ loaded cfg
      → (text : String) × ((lookup path w.files ≡ some text) × (env.decode text ≡ some cfg))
  unfolding load_file parse
  load_file-loaded path w cfg h = elim (ReadResult-cases (read_file env.os path w).1) [
    | inr (inl e) ↦
        let clash : ◌≡◌ {A = Loaded} (not_loaded unreadable_file) (loaded cfg) =
          sym (rw (load_file, e) refl) ∙ h in
        cc
    | inr (inr e) ↦
        let clash : ◌≡◌ {A = Loaded} (not_loaded unreadable_file) (loaded cfg) =
          sym (rw (load_file, e) refl) ∙ h in
        cc
    | inl (text, e) ↦ (
      text,
      (
        read_file-contents env.os path text w e,
        elim (Option-cases (env.decode text)) [
          | inl f ↦
              let clash : ◌≡◌ {A = Loaded} (not_loaded parsing_yaml) (loaded cfg) =
                sym (rw (load_file, e, parse, f) refl) ∙ h in
              cc
          | inr (read, f) ↦
              let same : ◌≡◌ {A = Loaded} (loaded read) (loaded cfg) =
                sym (rw (load_file, e, parse, f) refl) ∙ h in
              let equal : read ≡ cfg = cc in f ∙ ap (λ (c : SiteConfig). some c) equal
        ],
      ),
    )
  ]

  pub load_valid-files : (path : String) (w : World) → (load_valid env path w).0.files ≡ w.files
  unfolding load_valid
  load_valid-files path w =
      let x = load_file env.decode env.os path w in
      elim (Loaded-cases x.1) [
        | inl (error, e) ↦ rw (load_valid, e) (load_file-files path w)
        | inr (cfg, e) ↦ elim (List-cases (validate env.net cfg)) [
          | inl g ↦ rw (load_valid, e, g) (load_file-files path w)
          | inr (error, (errors, g)) ↦ rw (load_valid, e, g) (load_file-files path w)
        ]
      ]

  pub load_valid-IsConfigOf :
      (path : String) (w : World) (cfg : SiteConfig)
      → (load_valid env path w).2 ≡ some cfg
      → IsConfigOf w.files path cfg
  unfolding load_valid
  load_valid-IsConfigOf path w cfg h =
      let x = load_file env.decode env.os path w in
      elim (Loaded-cases x.1) [
        | inl (error, e) ↦
            let clash : ◌≡◌ {A = Option SiteConfig} none (some cfg) =
              sym (rw (load_valid, e) refl) ∙ h in
            cc
        | inr (read, e) ↦ elim (List-cases (validate env.net read)) [
          | inl g ↦
              let same : ◌≡◌ {A = Option SiteConfig} (some read) (some cfg) =
                sym (rw (load_valid, e, g) refl) ∙ h in
              let equal : read ≡ cfg = cc in
              let (text, (found, decoded)) = load_file-loaded path w read e in
              rw (← equal) (record {
                text = text;
                found = found;
                decoded = decoded;
                valid = (validate_iff env.net read).0 g;
              })
          | inr (error, (errors, g)) ↦
              let clash : ◌≡◌ {A = Option SiteConfig} none (some cfg) =
                sym (rw (load_valid, e, g) refl) ∙ h in
              cc
        ]
      ]

  -- The same files for the steps.
  AreWritten-same :
      (cfg : SiteConfig) (old new : Files) (steps : List Step)
      → All (λ p. lookup p new ≡ lookup p old) (paths_of steps)
      → AreWritten env.os cfg old steps
      → AreWritten env.os cfg new steps
  AreWritten-same cfg old new [] h a = tt
  AreWritten-same cfg old new (step ∷ steps) (e, h) ((text, rendered, b), a) =
      ((text, rendered, e ∙ b), AreWritten-same cfg old new steps h a)

  pub release_lock-AreWritten :
      (cfg : SiteConfig) (w : World)
      → AreWritten env.os cfg w.files (steps_of env)
      → AreWritten env.os cfg (release_lock env.os w).files (steps_of env)
  release_lock-AreWritten cfg w a =
      AreWritten-same cfg w.files (release_lock env.os w).files (steps_of env)
        (All-map (λ p. lock_path ≢ p)
          (λ p. lookup p (release_lock env.os w).files ≡ lookup p w.files)
          (λ p n. release_lock-other env.os p n w) (paths_of (steps_of env)) (lock_path-ne env))
        a
