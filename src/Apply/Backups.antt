-- ===== src/Apply/Backups.antt =====
-- internal/apply/apply.go: what backupFile and restoreBackups do to the files.
use text.Mathlib.TextLemmas.{append_cancel_right}
use warp_router.Prelude.{
  String, string_eq, some, [], ◌∷◌, ◌≡◌, ◌≢◌, ◌⊎◌, refl, sym, ◌∙◌, inl, inr, lookup, All, Distinct,
  keys_of, Bool-cases, arith, text_iff, ◌==◌,
}
use warp_router.Os.{
  World, Machine, ReadResult, contents, missing, unreadable, read_file, write_file,
}
use warp_router.Os.Quiet.{read_file-files}
use warp_router.Os.Frame.{
  write_file-other, remove-other, NeverFails, write_file_found, read_file_found,
}
use warp_router.Apply.{backup_path, backup_file, restore_backup, restore_backups}
use warp_router.Apply.Pipeline.{Backups}

pub backup_path_inj : (p q : String) → backup_path p ≡ backup_path q → p ≡ q
backup_path_inj p q e = append_cancel_right p q ".warp-backup" e

-- Which results ReadFile has.
pub read_cases :
    (r : ReadResult) → (r ≡ missing) ⊎ (r ≡ unreadable) ⊎ ((text : String) × (r ≡ contents text))
read_cases missing = inl refl
read_cases unreadable = inr (inl refl)
read_cases (contents text) = inr (inr (text, refl))

module _ (os : Machine) where
  pub backup_file-other :
      (path k : String) (w : World)
      → backup_path path ≢ k
      → lookup k (backup_file os path w).0.files ≡ lookup k w.files
  unfolding backup_file
  backup_file-other path k w h =
      let x = read_file os path w in
      let same : lookup k x.0.files ≡ lookup k w.files = rw (read_file-files os path w) refl in
      elim (read_cases x.1) [
        | inl e ↦ rw (e, backup_file) same
        | inr (inl e) ↦ rw (e, backup_file) same
        | inr (inr (text, e)) ↦
            let y = write_file os (backup_path path) text x.0 in
            let kept = write_file-other os (backup_path path) text k x.0 h in
            elim (Bool-cases y.1) [
              | inl worked ↦ rw (e, backup_file, worked) (kept ∙ same)
              | inr failed ↦ rw (e, backup_file, failed) (kept ∙ same)
            ]
      ]

  pub restore_backup-other :
      (config backup k : String) (w : World)
      → config ≢ k
      → backup ≢ k
      → lookup k (restore_backup os config backup w).files ≡ lookup k w.files
  unfolding restore_backup
  restore_backup-other config backup k w h j =
      let x = read_file os backup w in
      let same : lookup k x.0.files ≡ lookup k w.files = rw (read_file-files os backup w) refl in
      elim (read_cases x.1) [
        | inl e ↦ rw (e, restore_backup) same
        | inr (inl e) ↦ rw (e, restore_backup) same
        | inr (inr (text, e)) ↦
            let y = write_file os config text x.0 in
            rw (e, restore_backup)
              (remove-other os backup k y.0 j ∙ (write_file-other os config text k x.0 h ∙ same))
      ]

  -- Every file that is neither restored nor a backup is as before.
  pub restore_backups-other :
      (k : String) (backups : Backups) (w : World)
      → All (λ (e : String × String). (e.0 ≢ k) × (e.1 ≢ k)) backups
      → lookup k (restore_backups os backups w).files ≡ lookup k w.files
  unfolding restore_backups
  restore_backups-other k [] w h = refl
  restore_backups-other k ((config, backup) ∷ backups) w ((p, q), h) =
      restore_backups-other k backups (restore_backup os config backup w) h
      ∙ restore_backup-other config backup k w p q

  -- Another entry of the map of the backups stays out of the way of the entry of `p`.
  abbrev pub Apart : String → String → String × String → Type 0
  Apart p b (q, d) = (q ≢ b) × (d ≢ p) × (q ≢ p → d ≢ b)

  rest-Apart :
      (q p b : String) (backups : Backups)
      → q ≡ p
      → All (λ y. q ≢ y) (keys_of backups)
      → All (Apart p b) backups
      → All (λ (e : String × String). (e.0 ≢ p) × (e.1 ≢ p)) backups
  rest-Apart q p b [] e new a = tt
  rest-Apart q p b ((k, d) ∷ backups) e (n, new) ((k≢b, d≢p, others), a) =
      (((λ k≡p. n (e ∙ sym k≡p)), d≢p), rest-Apart q p b backups e new a)

  module _ (reliable : NeverFails os) where
    restore_backup-restores :
        (p b text : String) (w : World)
        → b ≢ p
        → lookup b w.files ≡ some text
        → lookup p (restore_backup os p b w).files ≡ some text
    unfolding restore_backup
    restore_backup-restores p b text w h found =
        let x = read_file os b w in
        let y = write_file os p text x.0 in
        rw (read_file_found os reliable b text w found, restore_backup)
          (remove-other os b p y.0 h ∙ write_file_found os reliable p text x.0)

    pub restore_backups-restores :
        (p b text : String) (backups : Backups) (w : World)
        → lookup p backups ≡ some b
        → Distinct (keys_of backups)
        → All (Apart p b) backups
        → lookup b w.files ≡ some text
        → lookup p (restore_backups os backups w).files ≡ some text
    unfolding restore_backups lookup
    restore_backups-restores p b text [] w e d a found = cc
    restore_backups-restores p b text ((q, c) ∷ backups) w e (new, d) ((q≢b, c≢p, others), a)
          found =
        elim (Bool-cases (q == p)) [
          | inl same ↦
              let q≡p : q ≡ p = (text_iff q p).0 same in
              let c≡b : c ≡ b = cc in
              let b≢p : b ≢ p = λ eq. c≢p (c≡b ∙ eq) in
              rw (q≡p, c≡b)
                (restore_backups-other p backups (restore_backup os p b w)
                    (rest-Apart q p b backups q≡p new a)
                  ∙ restore_backup-restores p b text w b≢p found)
          | inr other ↦
              let q≢p : q ≢ p = λ eq. ground (arith, text_iff q p, other, eq) in
              let e' : lookup p backups ≡ some b = ground (arith, e, other) in
              restore_backups-restores p b text backups (restore_backup os q c w) e' d a
                (restore_backup-other q c b w q≢b (others q≢p) ∙ found)
        ]
