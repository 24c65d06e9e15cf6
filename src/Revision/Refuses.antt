-- ===== src/Revision/Refuses.antt =====
-- internal/revision/store.go: Get reads no file outside the store.
use warp_router.Prelude.{String, ◌≢◌, refl, inl, inr, Bool-cases, All, codes}
use warp_router.Revision.{Disk, Lib}
use warp_router.Revision.Id.{valid_revision_id}
use warp_router.Revision.IdForm.{IsIdCode, valid_revision_id-IsIdCode}
use warp_router.Revision.Store.{Dir, refused, invalid, get}

-- Get refuses as invalid, whatever is on the disk, each identifier with another character than a
-- digit, T, Z or a dash: each path with a slash or a dot.
pub get-IsIdCode :
    (lib : Lib) (disk : Disk) (id : String) (dir : Dir)
    → get lib disk id dir ≢ refused invalid
    → All IsIdCode (codes id)
unfolding get
get-IsIdCode lib disk id dir h = elim (Bool-cases (valid_revision_id id)) [
  | inl valid ↦ valid_revision_id-IsIdCode id valid
  | inr bad ↦ absurd (h (rw (get, bad) refl))
]
