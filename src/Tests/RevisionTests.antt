-- ===== src/Tests/RevisionTests.antt =====
-- Tests of internal/revision: a store with one revision of the same second.
use warp_router.Prelude.{
  pos, String, string_eq, Bool, true, false, none, some, List, [], ◌∷◌, ◌≡◌, ◌≢◌, refl, sym, ◌∙◌,
  lookup, insert, erase, show_nat, arith, All, codes, text_iff,
}
use warp_router.Revision.{Metadata, Call, folder, link, linking, read_file, Disk, Lib}
use warp_router.Revision.Id.{stamp, strip, matches, valid_revision_id, show_padded, candidate}
use warp_router.Revision.IdForm.{IsIdCode}
use warp_router.Revision.Store.{
  saved, get_from, searching, Got, got, refused, invalid, Dir, entries_of, metadata, save, get,
  current,
}
use warp_router.Revision.Save.{save-keeps}
use warp_router.Revision.RoundTrip.{save-get, save-current, save-ends}
use warp_router.Revision.Refuses.{get-IsIdCode}

abbrev pub stamp_text : String
stamp_text = "20260102T150405Z"

abbrev pub first : Metadata
first = record { id = stamp_text; timestamp = pos 4; sha256 = "aa"; comment = "first" }

abbrev pub second : Metadata
second = record { id = "20260102T150405Z-01"; timestamp = pos 5; sha256 = "bb"; comment = "second" }

abbrev lib : Lib
lib = record {
  format_time = λ t. stamp_text;
  sha256_hex = λ s. "bb";
  marshal = λ m. some "second";
  unmarshal = λ s. some second;
}

abbrev pub works : Disk
works = record { allows = λ call. true; remains = λ call. none }

abbrev no_links : Call → Bool
no_links (linking id) = false
no_links call = true

abbrev fails_at_link : Disk
fails_at_link = record { allows = no_links; remains = λ call. none }

abbrev pub first_files : List (String × String)
first_files = ("site.yaml", "old") ∷ ("metadata.json", "first") ∷ []

abbrev before : Dir
before = some ((stamp_text, folder first_files) ∷ ("current", link stamp_text) ∷ [])

saves_second : (save lib works 3 (pos 5) "new" "second" before).1 ≡ saved "20260102T150405Z-01"
unfolding save lookup insert erase candidate show_padded show_nat
saves_second = refl

-- A failure at the last call leaves no link.
loses_the_link : current works (save lib fails_at_link 3 (pos 5) "new" "second" before).0 ≡ ""
unfolding save current lookup insert erase candidate show_padded show_nat
loses_the_link = refl

pub stamp_fits : matches stamp stamp_text ≡ true
unfolding matches
stamp_fits = refl

save-keeps_example :
    lookup stamp_text (entries_of (save lib fails_at_link 3 (pos 5) "new" "second" before).0)
    ≡ some (folder first_files)
unfolding lookup
save-keeps_example =
    save-keeps lib fails_at_link 3 (pos 5) "new" "second" before stamp_text first_files
      (λ e. ground (arith, text_iff "current" stamp_text, e)) refl

save-get_example :
    get lib works "20260102T150405Z-01" (save lib works 3 (pos 5) "new" "second" before).0
    ≡ got "new" second
unfolding metadata
save-get_example =
    save-get lib works 3 (pos 5) "new" "second" before (λ id. refl) stamp_fits (omega arith)
      (omega arith) (omega arith) works "20260102T150405Z-01" (λ call. refl) (λ text e. refl)
      saves_second

save-current_example :
    current works (save lib works 3 (pos 5) "new" "second" before).0 ≡ "20260102T150405Z-01"
save-current_example =
    save-current lib works 3 (pos 5) "new" "second" before (λ id. refl) stamp_fits (omega arith)
      (omega arith) (omega arith) works "20260102T150405Z-01" (λ call. refl) saves_second

save-ends_example : (save lib works 3 (pos 5) "new" "second" before).1 ≢ searching
save-ends_example =
    save-ends lib works 3 (pos 5) "new" "second" before (λ id. refl) (omega arith) (omega arith)

finds_first : get lib works stamp_text before ≡ got "old" second
unfolding get get_from read_file valid_revision_id matches strip lookup
finds_first = refl

not_invalid : get lib works stamp_text before ≢ refused invalid
not_invalid e =
    let clash : ◌≡◌ {A = Got} (got "old" second) (refused invalid) = sym finds_first ∙ e in cc

get-IsIdCode_example : All IsIdCode (codes "20260102T150405Z")
get-IsIdCode_example = get-IsIdCode lib works stamp_text before not_invalid
