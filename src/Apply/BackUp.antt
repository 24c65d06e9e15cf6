-- ===== src/Apply/BackUp.antt =====
-- internal/apply/apply.go: the backups that Execute makes before its first step.
use mathlib.Core.Path.{subst}
use warp_router.Prelude.{
  String, string_eq, true, false, Option, none, some, List, [], ◌∷◌, ◌≡◌, ◌≢◌, ◌⊎◌, refl, sym, ◌∙◌,
  inl, inr, lookup, lookup-insert, map, All, Distinct, member, keys_of, Distinct-insert, Bool-cases,
  arith, text_iff, ◌==◌,
}
use warp_router.Os.{World, Machine, read_file, write_file}
use warp_router.Os.Frame.{NeverFails, write_file_found, write_file_works, read_file_found}
use warp_router.Apply.{backup_path, backup_file}
use warp_router.Apply.Pipeline.{Step, Backups, back_up, note_backup}
use warp_router.Apply.Backups.{backup_path_inj, read_cases, backup_file-other}

abbrev pub paths_of : List Step → List String
paths_of steps = map (λ step. step.config_path) steps

note-Distinct :
    (path : String) (o : Option String) (backups : Backups)
    → Distinct (keys_of backups)
    → Distinct (keys_of (note_backup path o backups))
note-Distinct path none backups h = h
note-Distinct path (some b) backups h = Distinct-insert path b backups h

note-found :
    (path b : String) (o : Option String) (backups : Backups)
    → o ≡ some b
    → lookup path (note_backup path o backups) ≡ some b
note-found path b o backups e = rw (e, lookup-insert, (text_iff path path).1 refl) refl

note-other :
    (path k : String) (o : Option String) (backups : Backups)
    → (path == k) ≡ false
    → lookup k (note_backup path o backups) ≡ lookup k backups
note-other path k none backups h = refl
note-other path k (some b) backups h = rw (lookup-insert, h) refl

note-entries :
    (P : String → String → Type 0) (path : String) (o : Option String) (backups : Backups)
    → P path (backup_path path)
    → (o ≡ none) ⊎ (o ≡ some (backup_path path))
    → ((k d : String) → lookup k backups ≡ some d → P k d)
    → (k d : String) → lookup k (note_backup path o backups) ≡ some d
    → P k d
note-entries P path o backups p (inl absent) a k d e =
    a k d (subst (λ (r : Option String). lookup k (note_backup path r backups) ≡ some d) absent e)
note-entries P path o backups p (inr made) a k d e = elim (Bool-cases (path == k)) [
  | inl same ↦
      let path≡k : path ≡ k = (text_iff path k).0 same in
      let own : lookup k (note_backup path o backups) ≡ some (backup_path path) =
        subst (λ (n : String). lookup n (note_backup path o backups) ≡ some (backup_path path))
          path≡k (note-found path (backup_path path) o backups made) in
      let d≡ : d ≡ backup_path path = cc in rw (d≡, sym path≡k) p
  | inr other ↦ a k d (sym (note-other path k o backups other) ∙ e)
]

module _ (os : Machine) where
  backup_file-cases :
      (path : String) (w : World)
      → ((backup_file os path w).1 ≡ none) ⊎ ((backup_file os path w).1 ≡ some (backup_path path))
  unfolding backup_file
  backup_file-cases path w =
      let x = read_file os path w in
      elim (read_cases x.1) [
        | inl e ↦ inl (rw (e, backup_file) refl)
        | inr (inl e) ↦ inl (rw (e, backup_file) refl)
        | inr (inr (text, e)) ↦ elim (Bool-cases (write_file os (backup_path path) text x.0).1) [
          | inl worked ↦ inr (rw (e, backup_file, worked) refl)
          | inr failed ↦ inl (rw (e, backup_file, failed) refl)
        ]
      ]

  pub back_up-other :
      (k : String) (steps : List Step) (backups : Backups) (w : World)
      → All (λ p. backup_path p ≢ k) (paths_of steps)
      → lookup k (back_up os steps backups w).0.files ≡ lookup k w.files
  unfolding back_up
  back_up-other k [] backups w h = refl
  back_up-other k (step ∷ steps) backups w (p, h) =
      back_up-other k steps _ (backup_file os step.config_path w).0 h
      ∙ backup_file-other os step.config_path k w p

  -- Every entry of the map of the backups is a path of the steps with the path of its backup.
  pub back_up-entries :
      (P : String → String → Type 0) (steps : List Step) (backups : Backups) (w : World)
      → All (λ p. P p (backup_path p)) (paths_of steps)
      → ((k d : String) → lookup k backups ≡ some d → P k d)
      → (k d : String) → lookup k (back_up os steps backups w).1 ≡ some d
      → P k d
  unfolding back_up
  back_up-entries P [] backups w h a = a
  back_up-entries P (step ∷ steps) backups w (p, h) a =
      back_up-entries P steps _ (backup_file os step.config_path w).0 h (
        note-entries P step.config_path (backup_file os step.config_path w).1 backups p
          (backup_file-cases step.config_path w) a)

  pub back_up-Distinct :
      (steps : List Step) (backups : Backups) (w : World)
      → Distinct (keys_of backups)
      → Distinct (keys_of (back_up os steps backups w).1)
  unfolding back_up
  back_up-Distinct [] backups w h = h
  back_up-Distinct (step ∷ steps) backups w h =
      back_up-Distinct steps _ (backup_file os step.config_path w).0
        (note-Distinct step.config_path (backup_file os step.config_path w).1 backups h)

  module _ (reliable : NeverFails os) where
    backup_file_found :
        (path text : String) (w : World)
        → lookup path w.files ≡ some text
        → ((backup_file os path w).1 ≡ some (backup_path path))
          × (lookup (backup_path path) (backup_file os path w).0.files ≡ some text)
    unfolding backup_file
    backup_file_found path text w h =
        let x = read_file os path w in
        rw
          (
            read_file_found os reliable path text w h,
            backup_file,
            write_file_works os reliable (backup_path path) text x.0,
          )
          (refl, write_file_found os reliable (backup_path path) text x.0)

    -- The file has a backup in the map, with its text.
    abbrev pub IsBackedUp : String → String → World × Backups → Type 0
    IsBackedUp path text (w, backups) =
        (lookup path backups ≡ some (backup_path path))
        × (lookup (backup_path path) w.files ≡ some text)

    module _ (path text : String) where
      IsBackedUp-backup_file :
          (p : String) (backups : Backups) (w : World)
          → p ≡ path
          → lookup path w.files ≡ some text
          → let x = backup_file os p w in IsBackedUp path text (x.0, note_backup p x.1 backups)
      IsBackedUp-backup_file p backups w e found =
          let made = backup_file_found path text w found in
          rw e (note-found path (backup_path path) _ backups made.0, made.1)

      back_up-keeps :
          (steps : List Step) (backups : Backups) (w : World)
          → All (λ p. backup_path p ≢ path) (paths_of steps)
          → lookup path w.files ≡ some text
          → IsBackedUp path text (w, backups)
          → IsBackedUp path text (back_up os steps backups w)
      unfolding back_up
      back_up-keeps [] backups w a found h = h
      back_up-keeps (step ∷ steps) backups w (q, a) found (h, h') =
          let x = backup_file os step.config_path w in
          let found' = backup_file-other os step.config_path path w q ∙ found in
          elim (Bool-cases (step.config_path == path)) [
            | inl same ↦ back_up-keeps steps _ x.0 a found' (
                IsBackedUp-backup_file step.config_path backups w
                  ((text_iff step.config_path path).0 same) found)
            | inr other ↦ back_up-keeps steps _ x.0 a found' (
              note-other step.config_path path x.1 backups other ∙ h,
              backup_file-other os step.config_path (backup_path path) w (λ e.
                    let q : step.config_path ≡ path = backup_path_inj step.config_path path e in
                    ground (arith, text_iff step.config_path path))
                  ∙ h',
            )
          ]

      pub back_up-finds :
          (steps : List Step) (backups : Backups) (w : World)
          → All (λ p. backup_path p ≢ path) (paths_of steps)
          → member path (paths_of steps) ≡ true
          → lookup path w.files ≡ some text
          → IsBackedUp path text (back_up os steps backups w)
      unfolding back_up
      back_up-finds [] backups w a listed found = cc
      back_up-finds (step ∷ steps) backups w (q, a) listed found =
          let x = backup_file os step.config_path w in
          let found' = backup_file-other os step.config_path path w q ∙ found in
          elim (Bool-cases (step.config_path == path)) [
            | inl same ↦ back_up-keeps steps _ x.0 a found' (
                IsBackedUp-backup_file step.config_path backups w
                  ((text_iff step.config_path path).0 same) found)
            | inr other ↦ back_up-finds steps _ x.0 a (ground arith) found'
          ]
