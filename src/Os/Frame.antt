-- ===== src/Os/Frame.antt =====
-- Calls of package os: which files they leave as they are.
use warp_router.Prelude.{
  String, string_eq, true, Option, none, some, ◌≡◌, ◌≢◌, refl, inl, inr, lookup, lookup-insert,
  lookup-erase, Bool-cases, arith, text_iff,
}
use warp_router.Os.{
  Files, World, Machine, reading, saving, deleting, contents, missing, put, write_file, read_file,
  remove,
}

lookup-put_ne :
    (path k : String) (o : Option String) (fs : Files)
    → path ≢ k
    → lookup k (put path o fs) ≡ lookup k fs
lookup-put_ne path k none fs h = ground (arith, h, lookup-erase path k fs, text_iff path k)
lookup-put_ne path k (some c) fs h = ground (arith, h, lookup-insert path k c fs, text_iff path k)

module _ (os : Machine) where
  pub write_file-other :
      (path content k : String) (w : World)
      → path ≢ k
      → lookup k (write_file os path content w).0.files ≡ lookup k w.files
  unfolding write_file
  write_file-other path content k w h =
      elim (Bool-cases (os.succeeds w.log (saving path content))) [
        | inl worked ↦ rw worked (lookup-put_ne path k (some content) w.files h)
        | inr failed ↦
            rw failed (lookup-put_ne path k (os.remains w.log (saving path content)) w.files h)
      ]

  pub remove-other :
      (path k : String) (w : World)
      → path ≢ k
      → lookup k (remove os path w).0.files ≡ lookup k w.files
  unfolding remove
  remove-other path k w h = elim (Bool-cases (os.succeeds w.log (deleting path))) [
    | inl worked ↦ rw worked (lookup-put_ne path k none w.files h)
    | inr failed ↦ rw failed refl
  ]

  -- No ReadFile of a file that is there fails, and no WriteFile.
  pub record NeverFails : Type 0 where
    pub reads : (w : World) (path : String) → os.succeeds w.log (reading path) ≡ true
    pub saves : (w : World) (path content : String) → os.succeeds w.log (saving path content) ≡ true

  module _ (reliable : NeverFails) where
    pub write_file_found :
        (path content : String) (w : World)
        → lookup path (write_file os path content w).0.files ≡ some content
    unfolding write_file
    write_file_found path content w =
        rw (reliable.saves w path content, lookup-insert, (text_iff path path).1 refl) refl

    pub write_file_works :
        (path content : String) (w : World) → (write_file os path content w).1 ≡ true
    unfolding write_file
    write_file_works path content w = rw (reliable.saves w path content) refl

    pub read_file_found :
        (path content : String) (w : World)
        → lookup path w.files ≡ some content
        → (read_file os path w).1 ≡ contents content
    unfolding read_file
    read_file_found path content w h = rw (reliable.reads w path, h) refl

    pub read_file_missing :
        (path : String) (w : World) → lookup path w.files ≡ none → (read_file os path w).1 ≡ missing
    unfolding read_file
    read_file_missing path w h = rw (reliable.reads w path, h) refl
