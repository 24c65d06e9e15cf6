-- ===== src/Revision/Store.antt =====
-- internal/revision/store.go: Save, List, Get, Current and Previous.
use warp_router.Prelude.{
  ℕ, zero, suc, ℤ, String, string_eq, not, ◌||◌, Option, none, some, List, [], ◌∷◌, lookup,
  if◌then◌else◌, ◌==◌,
}
use warp_router.Revision.{
  Metadata, folder, link, Entries, making_store, listing, reading_link, asking, Disk, Lib, exists,
  target_of, is_free, make_revision, write_file, unlink_current, link_current, read_file,
}
use warp_router.Revision.Id.{valid_revision_id, candidate}

pub data SaveError : Type 0 where
  creating_store creating_revision writing_config marshaling writing_metadata linking_current :
      SaveError

-- What Save returns; `searching` is a run that has used its fuel.
pub data Saved : Type 0 where
  saved : (id : String) → Saved
  failed : SaveError → Saved
  searching : Saved

pub data GetError : Type 0 where
  invalid not_found reading_metadata parsing_metadata reading_config : GetError

pub data Got : Type 0 where
  got : (content : String) (meta : Metadata) → Got
  refused : GetError → Got

-- The directory, or none if there is none.
abbrev pub Dir : Type 0
Dir = Option Entries

abbrev pub entries_of : Dir → Entries
entries_of none = []
entries_of (some es) = es

module _ (disk : Disk) where
  -- The loop of Save that looks for an identifier. It has no bound in the program.
  unfoldable pub find_id : ℕ → String → ℕ → Entries → Option String
  unfolding is_free candidate
  find_id zero base i es = none
  find_id (suc fuel) base i es =
      let next = find_id fuel base (suc i) es in
      if is_free disk (candidate base i) es then some (candidate base i) else next

  -- Replacing the link.
  unfoldable pub update_current : String → Entries → Entries × Saved
  unfolding unlink_current link_current
  update_current id es =
      let (es', linked) = link_current disk id (unlink_current disk es) in
      if linked then (es', saved id) else (es', failed linking_current)

  -- Current: empty if the link cannot be read.
  unfoldable pub current : Dir → String
  current dir =
      if disk.allows reading_link
      then elim (lookup "current" (entries_of dir)) [ some (link target) ↦ target | _ ↦ "" ]
      else ""

-- The loop of Previous: the revision after the first with the identifier, unless it is the last.
unfoldable pub after_current : String → List Metadata → String
after_current id [] = ""
after_current id (rev ∷ []) = ""
after_current id (rev ∷ next ∷ revs) =
    let rest = after_current id (next ∷ revs) in if rev.id == id then next.id else rest

unfoldable pub metadata : Lib → ℤ → String → String → String → Metadata
metadata lib now id content comment = record {
  id = id;
  timestamp = now;
  sha256 = lib.sha256_hex content;
  comment = comment;
}

module _ (lib : Lib) (disk : Disk) where
  unfoldable pub save_metadata : Metadata → Entries → Entries × Saved
  unfolding write_file update_current
  save_metadata meta es = elim (lib.marshal meta) [
    | none ↦ (es, failed marshaling)
    | some text ↦
        let (es', written) = write_file disk meta.id "metadata.json" text es in
        if written then update_current disk meta.id es' else (es', failed writing_metadata)
  ]

  -- Save, once the identifier is found.
  unfoldable pub save_as : String → ℤ → String → String → Entries → Entries × Saved
  unfolding make_revision write_file metadata save_metadata
  save_as id now content comment es =
      let (es1, made) = make_revision disk id es in
      if not made
      then (es1, failed creating_revision)
      else let (es2, written) = write_file disk id "site.yaml" content es1 in
        if written
        then save_metadata (metadata lib now id content comment) es2
        else (es2, failed writing_config)

  -- Save, at the time `now`.
  unfoldable pub save : ℕ → ℤ → String → String → Dir → Dir × Saved
  unfolding find_id save_as
  save fuel now content comment dir =
      if not (disk.allows making_store)
      then (dir, failed creating_store)
      else let es = entries_of dir in
        elim (find_id disk fuel (lib.format_time now) 0 es) [
          | none ↦ (some es, searching)
          | some id ↦ let (es', result) = save_as id now content comment es in (some es', result)
        ]

  abbrev parsed : Option String → Option Metadata
  parsed none = none
  parsed (some text) = lib.unmarshal text

  abbrev add_metadata : Option Metadata → List Metadata → List Metadata
  add_metadata none metas = metas
  add_metadata (some meta) metas = meta ∷ metas

  -- The loop of List over the entries: only directories count.
  unfoldable pub list_entries : Entries → Entries → List Metadata
  unfolding read_file
  list_entries es [] = []
  list_entries es ((id, folder files) ∷ rest) =
      add_metadata (parsed (read_file disk id "metadata.json" es)) (list_entries es rest)
  list_entries es ((id, _) ∷ rest) = list_entries es rest

  -- List: none is an error. `arrange` is sort.Slice, newest first.
  unfoldable pub list : (List Metadata → List Metadata) → Dir → Option (List Metadata)
  unfolding list_entries
  list arrange none = some []
  list arrange (some es) = if disk.allows listing then some (arrange (list_entries es es)) else none

  unfoldable pub get_from : String → Entries → Got
  get_from id es =
      if not (disk.allows (asking id)) || not (exists (target_of es (lookup id es)))
      then refused not_found
      else elim (read_file disk id "metadata.json" es) [
        | none ↦ refused reading_metadata
        | some text ↦ elim (lib.unmarshal text) [
          | none ↦ refused parsing_metadata
          | some meta ↦ elim (read_file disk id "site.yaml" es) [
            | none ↦ refused reading_config
            | some content ↦ got content meta
          ]
        ]
      ]

  -- Get
  unfoldable pub get : String → Dir → Got
  unfolding valid_revision_id get_from
  get id dir = if not (valid_revision_id id) then refused invalid else get_from id (entries_of dir)

  unfoldable pub previous : (List Metadata → List Metadata) → Dir → String
  unfolding list current after_current
  previous arrange dir = elim (list arrange dir) [
    | none ↦ ""
    | some revs ↦ after_current (current disk dir) revs
  ]
