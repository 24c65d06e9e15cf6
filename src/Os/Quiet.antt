-- ===== src/Os/Quiet.antt =====
-- Calls of package os that touch no file but temporary ones.
use mathlib.Core.List.{append_assoc}
use warp_router.Prelude.{
  List, String, string_eq, Bool, true, false, Option, none, some, [], ◌∷◌, ◌++◌, ◌≡◌, ◌≢◌, refl,
  sym, ap, ◌∙◌, inl, inr, lookup, insert, erase, lookup-insert, lookup-erase, All, All-append,
  All-map, Bool-cases, Option-cases, arith, text_iff,
}
use warp_router.Os.{
  run, Files, Call, Log, World, Machine, put, logged, attempt, perform, remove, create_temp,
  write_string, read_file,
}

module _ (os : Machine) where
  -- No temporary file has the path.
  abbrev pub IsApart : String → Type 0
  IsApart k = (log : Log) (dir : String) → os.temp_path log dir ≢ k

  -- The path is one that CreateTemp picks.
  abbrev pub IsTemp : String → Type 0
  IsTemp t = (k : String) → IsApart k → t ≢ k

  -- The files are the same but for temporary ones.
  abbrev pub Same : Files → Files → Type 0
  Same old new = (k : String) → IsApart k → lookup k new ≡ lookup k old

  pub Same-put : (t : String) (o : Option String) (fs : Files) → IsTemp t → Same fs (put t o fs)
  Same-put t none fs h k a = ground (arith, lookup-erase t k fs, text_iff t k, h k a)
  Same-put t (some content) fs h k a =
      ground (arith, lookup-insert t k content fs, text_iff t k, h k a)

  -- From a world to a later one no file but temporary ones changes, not even for a moment.
  pub record Quiet (w w' : World) : Type 0 where
    pub added : Log
    pub grown : w'.log ≡ added ++ w.log
    pub events : All (λ e. Same w.files e.files) added
    pub final : Same w.files w'.files

  pub Quiet-refl : (w : World) → Quiet w w
  Quiet-refl w = record { added = []; grown = refl; events = tt; final = λ k a. refl }

  pub Quiet-trans : (u v w : World) → Quiet u v → Quiet v w → Quiet u w
  Quiet-trans u v w q r = record {
    added = r.added ++ q.added;
    grown = r.grown ∙ ap (λ l. r.added ++ l) q.grown ∙ sym (append_assoc r.added q.added u.log);
    events =
        All-append (λ e. Same u.files e.files) r.added q.added
          (All-map (λ e. Same v.files e.files) (λ e. Same u.files e.files)
            (λ e s k a. s k a ∙ q.final k a) r.added r.events)
          q.events;
    final = λ k a. r.final k a ∙ q.final k a;
  }

  pub Quiet-logged :
      (call : Call) (success : Bool) (fs : Files) (w : World)
      → Same w.files fs
      → Quiet w (logged call success fs w)
  Quiet-logged call success fs w s = record {
    added = record { call = call; success = success; files = fs } ∷ [];
    grown = refl;
    events = (s, tt);
    final = s;
  }

  pub attempt-Quiet :
      (call : Call) (fs : Files) (w : World) → Same w.files fs → Quiet w (attempt os call fs w).0
  unfolding attempt
  attempt-Quiet call fs w s = elim (Bool-cases (os.succeeds w.log call)) [
    | inl worked ↦ rw worked (Quiet-logged call true fs w s)
    | inr failed ↦ rw failed (Quiet-logged call false w.files w (λ k a. refl))
  ]

  pub perform-Quiet : (call : Call) (w : World) → Quiet w (perform os call w).0
  unfolding perform
  perform-Quiet call w = attempt-Quiet call w.files w (λ k a. refl)

  pub remove-Quiet : (t : String) (w : World) → IsTemp t → Quiet w (remove os t w).0
  unfolding remove
  remove-Quiet t w h = attempt-Quiet _ (erase t w.files) w (Same-put t none w.files h)

  pub write_string-Quiet :
      (t content : String) (w : World) → IsTemp t → Quiet w (write_string os t content w).0
  unfolding write_string
  write_string-Quiet t content w h =
      elim (Bool-cases (os.succeeds w.log (Call.writing t content))) [
        | inl worked ↦ rw worked (Quiet-logged _ true _ w (Same-put t (some content) w.files h))
        | inr failed ↦ rw failed (
            Quiet-logged _ false _ w
              (Same-put t (os.remains w.log (Call.writing t content)) w.files h))
      ]

  pub IsTemp-temp_path : (log : Log) (dir : String) → IsTemp (os.temp_path log dir)
  IsTemp-temp_path log dir k a = a log dir

  pub create_temp-Quiet : (dir : String) (w : World) → Quiet w (create_temp os dir w).0
  unfolding create_temp
  create_temp-Quiet dir w =
      let t = os.temp_path w.log dir in
      elim (Bool-cases (os.succeeds w.log (Call.creating t))) [
        | inl worked ↦ rw worked (
            Quiet-logged (Call.creating t) true (insert t "" w.files) w
              (Same-put t (some "") w.files (IsTemp-temp_path w.log dir)))
        | inr failed ↦ rw failed (Quiet-logged (Call.creating t) false w.files w (λ k a. refl))
      ]

  pub read_file-Quiet : (path : String) (w : World) → Quiet w (read_file os path w).0
  unfolding read_file
  read_file-Quiet path w =
      let quiet = perform-Quiet (Call.reading path) w in
      elim (Bool-cases (os.succeeds w.log (Call.reading path))) [
        | inl worked ↦ elim (Option-cases (lookup path w.files)) [
          | inl absent ↦ rw (worked, absent) quiet
          | inr (text, found) ↦ rw (worked, found) quiet
        ]
        | inr failed ↦ rw failed (Quiet-logged (Call.reading path) false w.files w (λ k a. refl))
      ]

  pub perform-files : (call : Call) (w : World) → (perform os call w).0.files ≡ w.files
  unfolding perform attempt
  perform-files call w = ground arith

  pub run-files : (args : List String) (w : World) → (run os args w).0.files ≡ w.files
  unfolding run
  run-files args w = perform-files _ w

  pub read_file-files : (path : String) (w : World) → (read_file os path w).0.files ≡ w.files
  unfolding read_file perform attempt
  read_file-files path w = ground arith

  pub write_string-found :
      (t content : String) (w : World)
      → (write_string os t content w).1 ≡ true
      → lookup t (write_string os t content w).0.files ≡ some content
  unfolding write_string
  write_string-found t content w e =
      ground (arith, e, lookup-insert t t content w.files, text_iff t t)
