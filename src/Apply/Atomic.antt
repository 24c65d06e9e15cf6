-- ===== src/Apply/Atomic.antt =====
-- internal/apply/apply.go: atomicWrite is all or nothing, at every moment.
use mathlib.Core.List.{append_assoc}
use warp_router.Prelude.{
  String, string_eq, Bool, true, false, Option, none, some, [], ◌∷◌, ◌++◌, ◌≡◌, ◌⊎◌, refl, sym, ap,
  ◌∙◌, inl, inr, lookup, insert, erase, lookup-insert, lookup-erase, All, All-append, All-map,
  Bool-cases, Option-cases, arith, text_iff, if◌then◌else◌, ◌==◌,
}
use warp_router.Os.{
  Files, Log, World, Machine, making, creating, syncing, closing, setting_mode, renaming, attempt,
  perform, create_temp, write_string, rename,
}
use warp_router.Os.Quiet.{
  IsApart, IsTemp, IsTemp-temp_path, Same, Quiet, Quiet-logged, perform-files, write_string-found,
  Quiet-trans, perform-Quiet, remove-Quiet, write_string-Quiet, create_temp-Quiet,
}
use warp_router.Apply.{
  WriteError, creating_directory, creating_temp, writing_temp, syncing_temp, closing_temp,
  chmod_temp, renaming_temp, give_up, fill_temp, atomic_write,
}

module _ (os : Machine) (path content : String) where
  -- The path has the content, and all other files but temporary ones are as before.
  abbrev pub Written : Files → Files → Type 0
  Written old new =
      (k : String)
      → IsApart os k
      → lookup k new ≡ (if path == k then some content else lookup k old)

  abbrev pub Settled : Files → World × Option WriteError → Type 0
  Settled old (w', none) = Written old w'.files
  Settled old (w', some error) = Same os old w'.files

  -- From a world to a result: at every moment the files are the old ones or have the new content, at
  -- the end they have it after a success, and are the old ones after an error.
  pub record Atomic (w : World) (x : World × Option WriteError) : Type 0 where
    pub added : Log
    pub grown : x.0.log ≡ added ++ w.log
    pub events : All (λ e. Same os w.files e.files ⊎ Written w.files e.files) added
    pub final : Settled w.files x

  Atomic-Quiet : (w v : World) (error : WriteError) → Quiet os w v → Atomic w (v, some error)
  Atomic-Quiet w v error q = record {
    added = q.added;
    grown = q.grown;
    events =
        All-map (λ e. Same os w.files e.files)
          (λ e. Same os w.files e.files ⊎ Written w.files e.files) (λ e s. inl s) q.added q.events;
    final = q.final;
  }

  Written-after : (u v fs : Files) → Same os u v → Written v fs → Written u fs
  Written-after u v fs s h k a = ground (arith, s k a, h k a)

  Settled-after :
      (u v : Files) (x : World × Option WriteError) → Same os u v → Settled v x → Settled u x
  Settled-after u v (x, none) s h = Written-after u v x.files s h
  Settled-after u v (x, some error) s h = λ k a. h k a ∙ s k a

  Atomic-after :
      (u v : World) (x : World × Option WriteError) → Quiet os u v → Atomic v x → Atomic u x
  Atomic-after u v x q r = record {
    added = r.added ++ q.added;
    grown = r.grown ∙ ap (λ l. r.added ++ l) q.grown ∙ sym (append_assoc r.added q.added u.log);
    events =
        All-append (λ e. Same os u.files e.files ⊎ Written u.files e.files) r.added q.added
          (All-map (λ e. Same os v.files e.files ⊎ Written v.files e.files)
            (λ e. Same os u.files e.files ⊎ Written u.files e.files)
            (λ e h. elim h [
              | inl s ↦ inl (λ k a. s k a ∙ q.final k a)
              | inr n ↦ inr (Written-after u.files v.files e.files q.final n)
            ])
            r.added r.events)
          (All-map (λ e. Same os u.files e.files)
            (λ e. Same os u.files e.files ⊎ Written u.files e.files) (λ e s. inl s) q.added
            q.events);
    final = Settled-after u.files v.files x q.final r.final;
  }

  give_up-Quiet :
      (close_it : Bool) (t : String) (error : WriteError) (w : World)
      → IsTemp os t
      → Quiet os w (give_up os close_it t error w).0
  unfolding give_up
  give_up-Quiet true t error w h =
      let w1 = (perform os (closing t) w).0 in
      Quiet-trans os w w1 _ (perform-Quiet os (closing t) w) (remove-Quiet os t w1 h)
  give_up-Quiet false t error w h = remove-Quiet os t w h

  give_up-Atomic :
      (close_it : Bool) (t : String) (error : WriteError) (w : World)
      → IsTemp os t
      → Atomic w (give_up os close_it t error w)
  unfolding give_up
  give_up-Atomic close_it t error w h = Atomic-Quiet w _ error (give_up-Quiet close_it t error w h)

  rename-Atomic :
      (t : String) (w : World)
      → IsTemp os t
      → lookup t w.files ≡ some content
      → (rename os t path w).1 ≡ true
      → Atomic w ((rename os t path w).0, none)
  unfolding rename attempt
  rename-Atomic t w h found e =
      let fs = insert path content (erase t w.files) in
      let written : Written w.files fs = λ k a. ground (
        arith,
        h k a,
        lookup-insert path k content (erase t w.files),
        lookup-erase t k w.files,
        text_iff t k,
      ) in
      elim (Bool-cases (os.succeeds w.log (renaming t path))) [
        | inl worked ↦
            rw (found, rename, worked)
              (record {
                added = record { call = renaming t path; success = true; files = fs } ∷ [];
                grown = refl;
                events = (inr written, tt);
                final = written;
              })
        | inr failed ↦
            let contra : (rename os t path w).1 ≡ false = rw (found, rename, failed) refl in cc
      ]

  rename-Quiet :
      (t : String) (w : World) → (rename os t path w).1 ≡ false → Quiet os w (rename os t path w).0
  unfolding rename attempt
  rename-Quiet t w e =
      let same : Same os w.files w.files = λ k a. refl in
      elim (Option-cases (lookup t w.files)) [
        | inl absent ↦ rw (absent, rename) (Quiet-logged os (renaming t path) false w.files w same)
        | inr (text, found) ↦ elim (Bool-cases (os.succeeds w.log (renaming t path))) [
          | inl worked ↦
              let contra : (rename os t path w).1 ≡ true = rw (found, rename, worked) refl in cc
          | inr failed ↦
              rw (found, rename, failed) (Quiet-logged os (renaming t path) false w.files w same)
        ]
      ]

  fill_temp-Atomic :
      (t : String) (w : World) → IsTemp os t → Atomic w (fill_temp os t path content w)
  unfolding fill_temp
  fill_temp-Atomic t w h =
      let x1 = write_string os t content w in
      let q1 = write_string-Quiet os t content w h in
      let x2 = perform os (syncing t) x1.0 in
      let q2 = Quiet-trans os w x1.0 x2.0 q1 (perform-Quiet os (syncing t) x1.0) in
      let x3 = perform os (closing t) x2.0 in
      let q3 = Quiet-trans os w x2.0 x3.0 q2 (perform-Quiet os (closing t) x2.0) in
      let x4 = perform os (setting_mode t) x3.0 in
      let q4 = Quiet-trans os w x3.0 x4.0 q3 (perform-Quiet os (setting_mode t) x3.0) in
      let x5 = rename os t path x4.0 in
      let kept : x1.1 ≡ true → lookup t x4.0.files ≡ some content = λ done.
        rw
          (
            perform-files os (setting_mode t) x3.0,
            perform-files os (closing t) x2.0,
            perform-files os (syncing t) x1.0,
          )
          (write_string-found os t content w done) in
      elim (Bool-cases x1.1) [
        | inr failed ↦
            rw failed (Atomic-after w x1.0 _ q1 (give_up-Atomic true t writing_temp x1.0 h))
        | inl done1 ↦ elim (Bool-cases x2.1) [
          | inr failed ↦
              rw (done1, failed)
                (Atomic-after w x2.0 _ q2 (give_up-Atomic true t syncing_temp x2.0 h))
          | inl done2 ↦ elim (Bool-cases x3.1) [
            | inr failed ↦
                rw (done1, done2, failed)
                  (Atomic-after w x3.0 _ q3 (give_up-Atomic false t closing_temp x3.0 h))
            | inl done3 ↦ elim (Bool-cases x4.1) [
              | inr failed ↦
                  rw (done1, done2, done3, failed)
                    (Atomic-after w x4.0 _ q4 (give_up-Atomic false t chmod_temp x4.0 h))
              | inl done4 ↦ elim (Bool-cases x5.1) [
                | inr failed ↦
                    rw (done1, done2, done3, done4, failed)
                      (Atomic-after w x5.0 _
                        (Quiet-trans os w x4.0 x5.0 q4 (rename-Quiet t x4.0 failed))
                        (give_up-Atomic false t renaming_temp x5.0 h))
                | inl done5 ↦
                    rw (done1, done2, done3, done4, done5)
                      (Atomic-after w x4.0 _ q4 (rename-Atomic t x4.0 h (kept done1) done5))
              ]
            ]
          ]
        ]
      ]

  create_temp-some :
      (dir : String) (w : World)
      → ((create_temp os dir w).1 ≡ none)
        ⊎ ((create_temp os dir w).1 ≡ some (os.temp_path w.log dir))
  unfolding create_temp
  create_temp-some dir w =
      elim (Bool-cases (os.succeeds w.log (creating (os.temp_path w.log dir)))) [
        | inl worked ↦ inr (rw worked refl)
        | inr failed ↦ inl (rw failed refl)
      ]

  -- atomicWrite changes no file but the one at its path and temporary ones. At every moment, also if
  -- the machine stops, that one is as before or has the whole new content; it has it after a
  -- success, and is as before after any error.
  pub atomic_write-Atomic : (w : World) → Atomic w (atomic_write os path content w)
  unfolding atomic_write
  atomic_write-Atomic w =
      let dir = os.dir_of path in
      let x1 = perform os (making dir) w in
      let q1 = perform-Quiet os (making dir) w in
      let x2 = create_temp os dir x1.0 in
      let q2 = Quiet-trans os w x1.0 x2.0 q1 (create_temp-Quiet os dir x1.0) in
      elim (Bool-cases x1.1) [
        | inr failed ↦ rw failed (Atomic-Quiet w x1.0 creating_directory q1)
        | inl made ↦ elim (create_temp-some dir x1.0) [
          | inl failed ↦ rw (made, failed) (Atomic-Quiet w x2.0 creating_temp q2)
          | inr picked ↦
              let t = os.temp_path x1.0.log dir in
              rw (made, picked)
                (Atomic-after w x2.0 (fill_temp os t path content x2.0) q2
                  (fill_temp-Atomic t x2.0 (IsTemp-temp_path os x1.0.log dir)))
        ]
      ]
