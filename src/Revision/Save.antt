-- ===== src/Revision/Save.antt =====
-- internal/revision/store.go: what Save changes in the store's directory.
use warp_router.Prelude.{
  ℕ, zero, suc, ℤ, String, string_eq, true, false, Option, none, some, List, [], ◌≡◌, ◌≢◌, refl,
  sym, ◌∙◌, inl, inr, Bool-cases, Option-cases, lookup, insert, lookup-insert, lookup-erase, arith,
  text_iff,
}
use warp_router.Revision.{
  Metadata, Entry, folder, link, Entries, Disk, Lib, is_free, make_revision, write_file, write_in,
  plain, unlink_current, link_current, making_store, saving,
}
use warp_router.Revision.Id.{candidate}
use warp_router.Revision.Store.{
  Dir, entries_of, find_id, update_current, metadata, save_metadata, save_as, save,
}

module _ (disk : Disk) (k id : String) (differs : id ≢ k) where
  make_revision-other : (es : Entries) → lookup k (make_revision disk id es).0 ≡ lookup k es
  unfolding make_revision
  make_revision-other es = ground (arith, lookup-insert id k (folder []) es, text_iff id k, differs)

  insert-other : (entry : Entry) (es : Entries) → lookup k (insert id entry es) ≡ lookup k es
  insert-other entry es = ground (arith, lookup-insert id k entry es, text_iff id k, differs)

  write_in-other :
      (file text : String) (entry : Option Entry) (es : Entries)
      → lookup k (write_in disk id file text entry es).0 ≡ lookup k es
  unfolding write_in
  write_in-other file text none es = refl
  write_in-other file text (some (folder files)) es =
      elim (Bool-cases (disk.allows (saving id file))) [
        | inl e ↦ rw e (insert-other _ es)
        | inr e ↦ rw e (insert-other _ es)
      ]
  write_in-other file text (some (link target)) es = refl
  write_in-other file text (some plain) es = refl

  pub write_file-other :
      (file text : String) (es : Entries)
      → lookup k (write_file disk id file text es).0 ≡ lookup k es
  unfolding write_file
  write_file-other file text es = write_in-other file text (lookup id es) es

module _ (disk : Disk) (k : String) (named : "current" ≢ k) where
  unlink_current-other : (es : Entries) → lookup k (unlink_current disk es) ≡ lookup k es
  unfolding unlink_current
  unlink_current-other es = ground (arith, lookup-erase "current" k es, text_iff "current" k, named)

  link_current-other :
      (id : String) (es : Entries) → lookup k (link_current disk id es).0 ≡ lookup k es
  unfolding link_current
  link_current-other id es =
      ground (arith, lookup-insert "current" k (link id) es, text_iff "current" k, named)

  pub update_current-other :
      (id : String) (es : Entries) → lookup k (update_current disk id es).0 ≡ lookup k es
  unfolding update_current
  update_current-other id es =
      ground (arith, link_current-other id (unlink_current disk es), unlink_current-other es)

module _ (lib : Lib) (disk : Disk) (k : String) (named : "current" ≢ k) where
  save_metadata-other :
      (meta : Metadata) (es : Entries)
      → meta.id ≢ k
      → lookup k (save_metadata lib disk meta es).0 ≡ lookup k es
  unfolding save_metadata
  save_metadata-other meta es n = elim (Option-cases (lib.marshal meta)) [
    | inl e ↦ rw (e, save_metadata) refl
    | inr (text, e) ↦
        let x = write_file disk meta.id "metadata.json" text es in
        let kept : lookup k x.0 ≡ lookup k es =
          write_file-other disk k meta.id n "metadata.json" text es in
        elim (Bool-cases x.1) [
          | inl written ↦
              rw (e, save_metadata, written) (update_current-other disk k named meta.id x.0 ∙ kept)
          | inr unwritten ↦ rw (e, save_metadata, unwritten) kept
        ]
  ]

  pub save_as-other :
      (id : String) (now : ℤ) (content comment : String) (es : Entries)
      → id ≢ k
      → lookup k (save_as lib disk id now content comment es).0 ≡ lookup k es
  unfolding save_as metadata
  save_as-other id now content comment es n =
      let x = make_revision disk id es in
      let y = write_file disk id "site.yaml" content x.0 in
      let made-other : lookup k x.0 ≡ lookup k es = make_revision-other disk k id n es in
      let kept : lookup k y.0 ≡ lookup k es =
        write_file-other disk k id n "site.yaml" content x.0 ∙ made-other in
      elim (Bool-cases x.1) [
        | inr unmade ↦ rw (save_as, unmade) made-other
        | inl made ↦ elim (Bool-cases y.1) [
          | inr unwritten ↦ rw (save_as, made, unwritten) kept
          | inl written ↦
              rw (save_as, made, written)
                (save_metadata-other (metadata lib now id content comment) y.0 n ∙ kept)
        ]
      ]

module _ (disk : Disk) (base : String) (es : Entries) where
  pub find_id-free :
      (fuel i : ℕ) (id : String) → find_id disk fuel base i es ≡ some id → is_free disk id es ≡ true
  unfolding find_id
  find_id-free zero i id e = cc
  find_id-free (suc fuel) i id e = elim (Bool-cases (is_free disk (candidate base i) es)) [
    | inl free ↦
        let same : ◌≡◌ {A = Option String} (some (candidate base i)) (some id) =
          sym (rw (find_id, free) refl) ∙ e in
        let equal : candidate base i ≡ id = cc in rw (← equal) free
    | inr used ↦
        let later : find_id disk fuel base (suc i) es ≡ some id =
          sym (rw (find_id, used) refl) ∙ e in
        find_id-free fuel (suc i) id later
  ]

-- An entry that exists is not free.
free-ne-folder :
    (disk : Disk) (id k : String) (files : List (String × String)) (es : Entries)
    → is_free disk id es ≡ true
    → lookup k es ≡ some (folder files)
    → id ≢ k
unfolding is_free
free-ne-folder disk id k files es free found eq =
    let clash : is_free disk id es ≡ false = rw (is_free, eq, found) (ground arith) in cc

module _ (lib : Lib) (disk : Disk) (fuel : ℕ) (now : ℤ) (content comment : String) (dir : Dir) where
  -- Save changes no revision that is there, whether it fails or not and whichever calls fail.
  pub save-keeps :
      (k : String) (files : List (String × String))
      → "current" ≢ k
      → lookup k (entries_of dir) ≡ some (folder files)
      → lookup k (entries_of (save lib disk fuel now content comment dir).0) ≡ some (folder files)
  unfolding save
  save-keeps k files named found = elim (Bool-cases (disk.allows making_store)) [
    | inr refused ↦ rw (save, refused) found
    | inl made ↦ elim (Option-cases (find_id disk fuel (lib.format_time now) 0 (entries_of dir))) [
      | inl none_found ↦ rw (save, made, none_found) found
      | inr (id, e) ↦
          let free = find_id-free disk (lib.format_time now) (entries_of dir) fuel 0 id e in
          rw (save, made, e)
            (save_as-other lib disk k named id now content comment (entries_of dir)
                (free-ne-folder disk id k files (entries_of dir) free found)
              ∙ found)
    ]
  ]
