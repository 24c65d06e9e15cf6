-- ===== src/Revision.antt =====
-- internal/revision/store.go: Metadata, the directory of the store, and the calls that act on it.
pub mod Id
pub mod Store
pub mod Search
pub mod Save
pub mod IdForm
pub mod RoundTrip
pub mod Refuses
use warp_router.Prelude.{
  ℤ, String, string_eq, Bool, true, false, not, ◌&&◌, Option, none, some, List, [], ◌∷◌, lookup,
  insert, erase, if◌then◌else◌, ◌==◌,
}

-- Times are nanosecond counts.
pub record Metadata : Type 0 where
  pub id : String
  pub timestamp : ℤ
  pub sha256 : String
  pub comment : String

-- What is in the store's directory: a directory of files, a symbolic link to another entry, or
-- another file. A link to a link is taken as broken.
pub data Entry : Type 0 where
  folder : (files : List (String × String)) → Entry
  link : (target : String) → Entry
  plain : Entry

abbrev pub Entries : Type 0
Entries = List (String × Entry)

-- The calls on the directory.
pub data Call : Type 0 where
  making_store listing reading_link unlinking : Call
  asking making_revision linking : (id : String) → Call
  saving reading : (id file : String) → Call

-- What the operating system decides during one operation, which makes no call twice: which calls
-- succeed, and what is in a file whose writing failed.
pub record Disk : Type 0 where
  pub allows : Call → Bool
  pub remains : Call → Option String

-- time.Format("20060102T150405Z"), the hexadecimal SHA-256, and encoding/json on Metadata: code of
-- the standard library.
pub record Lib : Type 0 where
  pub format_time : ℤ → String
  pub sha256_hex : String → String
  pub marshal : Metadata → Option String
  pub unmarshal : String → Option Metadata

abbrev pub is_folder : Option Entry → Bool
is_folder (some (folder files)) = true
is_folder _ = false

abbrev pub exists : Option Entry → Bool
exists (some (folder files)) = true
exists (some plain) = true
exists _ = false

-- Following a link.
abbrev pub target_of : Entries → Option Entry → Option Entry
target_of es (some (link target)) = lookup target es
target_of es entry = entry

-- IsNotExist of the error of os.Stat.
unfoldable pub is_free : Disk → String → Entries → Bool
is_free disk id es = disk.allows (asking id) && not (exists (target_of es (lookup id es)))

-- os.MkdirAll in the directory.
unfoldable pub make_revision : Disk → String → Entries → Entries × Bool
make_revision disk id es =
    if disk.allows (making_revision id)
    then elim (lookup id es) [
      | none ↦ (insert id (folder []) es, true)
      | some entry ↦ (es, is_folder (target_of es (some entry)))
    ]
    else (es, false)

abbrev put : String → Option String → List (String × String) → List (String × String)
put file none files = erase file files
put file (some text) files = insert file text files

-- os.WriteFile in a directory of the store, given the entry of its name.
unfoldable pub write_in : Disk → String → String → String → Option Entry → Entries → Entries × Bool
write_in disk id file text (some (folder files)) es =
    if disk.allows (saving id file)
    then (insert id (folder (put file (some text) files)) es, true)
    else (insert id (folder (put file (disk.remains (saving id file)) files)) es, false)
write_in disk id file text _ es = (es, false)

unfoldable pub write_file : Disk → String → String → String → Entries → Entries × Bool
unfolding write_in
write_file disk id file text es = write_in disk id file text (lookup id es) es

-- os.Remove of the entry "current": a directory with files stays.
unfoldable pub unlink_current : Disk → Entries → Entries
unlink_current disk es =
    if disk.allows unlinking
    then elim (lookup "current" es) [ some (folder (file ∷ files)) ↦ es | _ ↦ erase "current" es ]
    else es

-- os.Symlink fails if there is an entry of the name.
unfoldable pub link_current : Disk → String → Entries → Entries × Bool
link_current disk id es = elim (lookup "current" es) [
  | some _ ↦ (es, false)
  | none ↦ if disk.allows (linking id) then (insert "current" (link id) es, true) else (es, false)
]

-- os.ReadFile of a file in a directory of the store: none is an error.
unfoldable pub read_file : Disk → String → String → Entries → Option String
read_file disk id file es = elim (target_of es (lookup id es)) [
  | some (folder files) ↦ if disk.allows (reading id file) then lookup file files else none
  | _ ↦ none
]
