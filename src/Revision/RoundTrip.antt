-- ===== src/Revision/RoundTrip.antt =====
-- internal/revision/store.go: what Save writes is what Get and Current read.
use warp_router.Prelude.{
  ℕ, ℤ, String, string_eq, true, false, some, List, [], ◌≡◌, ◌≢◌, refl, sym, ap, ◌∙◌, ◌<◌, ◌≤◌, inl,
  inr, Bool-cases, Option-cases, length, lookup, insert, lookup-insert, arith, text_iff, tens,
}
use warp_router.Revision.{
  Metadata, Call, folder, link, Entries, Disk, Lib, asking, making_store, reading_link, saving,
  reading, is_free, make_revision, write_in, write_file, read_file, unlink_current, link_current,
}
use warp_router.Revision.Id.{stamp, strip, matches, valid_revision_id, candidate}
use warp_router.Revision.IdForm.{candidate-valid}
use warp_router.Revision.Store.{
  creating_store, creating_revision, writing_config, marshaling, writing_metadata, linking_current,
  Saved, saved, failed, searching, got, Dir, entries_of, update_current, metadata, save_metadata,
  save_as, save, get_from, get, current,
}
use warp_router.Revision.Search.{find_id-Found}
use warp_router.Revision.Save.{update_current-other}

module _ (disk : Disk) where
  -- A directory that is made under a free name is new and empty.
  make_revision-new :
      (id : String) (es : Entries)
      → is_free disk id es ≡ true
      → (make_revision disk id es).1 ≡ true
      → lookup id (make_revision disk id es).0 ≡ some (folder [])
  unfolding make_revision is_free
  make_revision-new id es free made =
      ground (arith, lookup-insert id id (folder []) es, text_iff id id)

  write_in-written :
      (id file text : String) (files : List (String × String)) (es : Entries)
      → (write_in disk id file text (some (folder files)) es).1 ≡ true
      → lookup id (write_in disk id file text (some (folder files)) es).0
        ≡ some (folder (insert file text files))
  unfolding write_in
  write_in-written id file text files es h = elim (Bool-cases (disk.allows (saving id file))) [
    | inl success ↦
        rw (write_in, success)
          (lookup-insert id id (folder (insert file text files)) es
            ∙ ground (arith, text_iff id id))
    | inr failure ↦
        let contra : (write_in disk id file text (some (folder files)) es).1 ≡ false =
          rw (write_in, failure) refl in
        cc
  ]

  write_file-written :
      (id file text : String) (files : List (String × String)) (es : Entries)
      → lookup id es ≡ some (folder files)
      → (write_file disk id file text es).1 ≡ true
      → lookup id (write_file disk id file text es).0 ≡ some (folder (insert file text files))
  unfolding write_file
  write_file-written id file text files es found h =
      rw (write_file, found)
        (write_in-written id file text files es (sym (rw (write_file, found) refl) ∙ h))

  link_current-linked :
      (id : String) (es : Entries)
      → (link_current disk id es).1 ≡ true
      → lookup "current" (link_current disk id es).0 ≡ some (link id)
  unfolding link_current
  link_current-linked id es h =
      ground (arith, lookup-insert "current" "current" (link id) es, text_iff "current" "current")

  update_current-saved :
      (id id' : String) (es : Entries)
      → (update_current disk id es).1 ≡ saved id'
      → (id ≡ id') × (lookup "current" (update_current disk id es).0 ≡ some (link id))
  unfolding update_current
  update_current-saved id id' es h =
      let x = link_current disk id (unlink_current disk es) in
      elim (Bool-cases x.1) [
        | inl linked ↦
            let same : ◌≡◌ {A = Saved} (saved id) (saved id') =
              sym (rw (update_current, linked) refl) ∙ h in
            let equal : id ≡ id' = cc in
            (
              equal,
              rw (update_current, linked) (link_current-linked id (unlink_current disk es) linked),
            )
        | inr unlinked ↦
            let clash : ◌≡◌ {A = Saved} (failed linking_current) (saved id') =
              sym (rw (update_current, unlinked) refl) ∙ h in
            cc
      ]

-- The revision stands in the directory, and the link leads to it.
pub record IsStored (lib : Lib) (meta : Metadata) (content : String) (es : Entries) : Type 0 where
  pub text : String
  pub marshalled : lib.marshal meta ≡ some text
  pub files :
      lookup meta.id es
      ≡ some (folder (insert "metadata.json" text (insert "site.yaml" content [])))
  pub linked : lookup "current" es ≡ some (link meta.id)

module _ (lib : Lib) (disk : Disk) where
  save_metadata-IsStored :
      (meta : Metadata) (content id' : String) (es : Entries)
      → "current" ≢ meta.id
      → lookup meta.id es ≡ some (folder (insert "site.yaml" content []))
      → (save_metadata lib disk meta es).1 ≡ saved id'
      → (meta.id ≡ id') × IsStored lib meta content (save_metadata lib disk meta es).0
  unfolding save_metadata
  save_metadata-IsStored meta content id' es named found h =
      elim (Option-cases (lib.marshal meta)) [
        | inl e ↦
            let clash : ◌≡◌ {A = Saved} (failed marshaling) (saved id') =
              sym (rw (save_metadata, e) refl) ∙ h in
            cc
        | inr (text, e) ↦
            let x = write_file disk meta.id "metadata.json" text es in
            elim (Bool-cases x.1) [
              | inr unwritten ↦
                  let clash : ◌≡◌ {A = Saved} (failed writing_metadata) (saved id') =
                    sym (rw (save_metadata, e, unwritten) refl) ∙ h in
                  cc
              | inl written ↦
                  let after : save_metadata lib disk meta es ≡ update_current disk meta.id x.0 =
                    rw (save_metadata, e, written) refl in
                  let ends =
                    update_current-saved disk meta.id id' x.0
                      (ap (λ (y : Entries × Saved). y.1) (sym after) ∙ h) in
                  (
                    ends.0,
                    rw after (record {
                      text = text;
                      marshalled = e;
                      files =
                          update_current-other disk meta.id named meta.id x.0
                          ∙ write_file-written disk meta.id "metadata.json" text
                              (insert "site.yaml" content []) es found written;
                      linked = ends.1;
                    }),
                  )
            ]
      ]

  save_as-IsStored :
      (id id' : String) (now : ℤ) (content comment : String) (es : Entries)
      → "current" ≢ id
      → is_free disk id es ≡ true
      → (save_as lib disk id now content comment es).1 ≡ saved id'
      → (id ≡ id')
        × IsStored lib
            (metadata lib now id content comment)
            content
            (save_as lib disk id now content comment es).0
  unfolding save_as metadata
  save_as-IsStored id id' now content comment es named free h =
      let x = make_revision disk id es in
      let y = write_file disk id "site.yaml" content x.0 in
      elim (Bool-cases x.1) [
        | inr unmade ↦
            let clash : ◌≡◌ {A = Saved} (failed creating_revision) (saved id') =
              sym (rw (save_as, unmade) refl) ∙ h in
            cc
        | inl made ↦ elim (Bool-cases y.1) [
          | inr unwritten ↦
              let clash : ◌≡◌ {A = Saved} (failed writing_config) (saved id') =
                sym (rw (save_as, made, unwritten) refl) ∙ h in
              cc
          | inl written ↦
              let meta = metadata lib now id content comment in
              let after : save_as lib disk id now content comment es
                  ≡ save_metadata lib disk meta y.0 =
                rw (save_as, made, written) refl in
              rw after (
                save_metadata-IsStored meta content id' y.0 named
                  (write_file-written disk id "site.yaml" content [] x.0
                    (make_revision-new disk id es free made) written)
                  (ap (λ (z : Entries × Saved). z.1) (sym after) ∙ h))
        ]
      ]

-- A Get whose calls all succeed.
abbrev pub AllAllowed : Disk → Type 0
AllAllowed disk = (call : Call) → disk.allows call ≡ true

read_file-found :
    (disk : Disk) (id file : String) (files : List (String × String)) (es : Entries)
    → AllAllowed disk
    → lookup id es ≡ some (folder files)
    → read_file disk id file es ≡ lookup file files
unfolding read_file
read_file-found disk id file files es allowed found =
    rw (read_file, found, allowed (reading id file)) refl

get-stored :
    (lib : Lib) (reader : Disk) (meta : Metadata) (content : String) (es : Entries)
    → AllAllowed reader
    → valid_revision_id meta.id ≡ true
    → ((text : String) → lib.marshal meta ≡ some text → lib.unmarshal text ≡ some meta)
    → IsStored lib meta content es
    → get lib reader meta.id (some es) ≡ got content meta
unfolding get get_from lookup insert
get-stored lib reader meta content es allowed valid reads s =
    let files : List (String × String) =
      insert "metadata.json" s.text (insert "site.yaml" content []) in
    rw
      (
        get,
        valid,
        allowed (asking meta.id),
        s.files,
        read_file-found reader meta.id "metadata.json" files es allowed s.files,
        reads s.text s.marshalled,
        read_file-found reader meta.id "site.yaml" files es allowed s.files,
      )
      refl

current_invalid : valid_revision_id "current" ≡ false
unfolding valid_revision_id matches strip
current_invalid = refl

valid-ne-current : (id : String) → valid_revision_id id ≡ true → "current" ≢ id
valid-ne-current id valid eq =
    let clash : valid_revision_id "current" ≡ false = current_invalid in
    let same : valid_revision_id "current" ≡ true = rw eq valid in cc

module _ (lib : Lib) (disk : Disk) (fuel : ℕ) (now : ℤ) (content comment : String) (dir : Dir)
    (stats : (id : String) → disk.allows (asking id) ≡ true)
    (stamped : matches stamp (lib.format_time now) ≡ true) (few : length (entries_of dir) < 100)
    (enough : length (entries_of dir) < fuel) (small : fuel ≤ tens 20) where
  abbrev result : Dir × Saved
  result = save lib disk fuel now content comment dir

  save-IsStored :
      (id : String)
      → result.1 ≡ saved id
      → (valid_revision_id id ≡ true)
        × ((es : Entries) × ((result.0 ≡ some es)
              × IsStored lib (metadata lib now id content comment) content es))
  unfolding save
  save-IsStored id h = elim (Bool-cases (disk.allows making_store)) [
    | inr no_store ↦
        let clash : ◌≡◌ {A = Saved} (failed creating_store) (saved id) =
          sym (rw (save, no_store) refl) ∙ h in
        cc
    | inl store ↦
        let base = lib.format_time now in
        let es = entries_of dir in
        let found = find_id-Found disk stats base es fuel enough small in
        let i = candidate base found.tried in
        let valid : valid_revision_id i ≡ true =
          candidate-valid base found.tried stamped (omega (arith, found.within, few)) in
        let x = save_as lib disk i now content comment es in
        let after : result ≡ (some x.0, x.1) = rw (save, store, found.finds) refl in
        let stored =
          save_as-IsStored lib disk i id now content comment es (valid-ne-current i valid)
            found.unused (ap (λ (y : Dir × Saved). y.1) (sym after) ∙ h) in
        rw (← stored.0) (valid, (x.0, (ap (λ (y : Dir × Saved). y.0) after, stored.1)))
  ]

  -- What Save stores is what Get returns.
  pub save-get :
      (reader : Disk) (id : String)
      → AllAllowed reader
      → ((text : String)
          → lib.marshal (metadata lib now id content comment) ≡ some text
          → lib.unmarshal text ≡ some (metadata lib now id content comment))
      → result.1 ≡ saved id
      → get lib reader id result.0 ≡ got content (metadata lib now id content comment)
  unfolding metadata
  save-get reader id allowed reads h =
      let stored = save-IsStored id h in
      rw stored.1.1.0 (
        get-stored lib reader (metadata lib now id content comment) content stored.1.0 allowed
          stored.0 reads stored.1.1.1)

  pub save-current :
      (reader : Disk) (id : String)
      → AllAllowed reader
      → result.1 ≡ saved id
      → current reader result.0 ≡ id
  unfolding current metadata
  save-current reader id allowed h =
      let stored = save-IsStored id h in
      rw (stored.1.1.0, current, allowed reading_link, stored.1.1.1.linked) refl

module _ (lib : Lib) (disk : Disk) where
  save_as-ends :
      (id : String) (now : ℤ) (content comment : String) (es : Entries)
      → (save_as lib disk id now content comment es).1 ≢ searching
  unfolding save_as save_metadata update_current
  save_as-ends id now content comment es = ground arith

  -- Save returns: with a try more than there are entries its search does not go on.
  pub save-ends :
      (fuel : ℕ) (now : ℤ) (content comment : String) (dir : Dir)
      → ((id : String) → disk.allows (asking id) ≡ true)
      → length (entries_of dir) < fuel
      → fuel ≤ tens 20
      → (save lib disk fuel now content comment dir).1 ≢ searching
  unfolding save
  save-ends fuel now content comment dir stats enough small =
      let found =
        find_id-Found disk stats (lib.format_time now) (entries_of dir) fuel enough small in
      elim (Bool-cases (disk.allows making_store)) [
        | inr no_store ↦ rw (save, no_store) (λ e. cc)
        | inl store ↦
            rw (save, store, found.finds)
              (save_as-ends (candidate (lib.format_time now) found.tried) now content comment
                (entries_of dir))
      ]
