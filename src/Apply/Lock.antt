-- ===== src/Apply/Lock.antt =====
-- internal/apply/apply.go: AcquireLock, and the function that it returns.
use warp_router.Prelude.{
  String, string_eq, not, Option, none, some, ◌≡◌, ◌≢◌, ap, ◌∙◌, lookup, insert, lookup-insert,
  arith, text_iff, if◌then◌else◌,
}
use warp_router.Os.{
  Files, World, Machine, opening, locking, unlocking, closing, attempt, perform, remove,
}
use warp_router.Os.Quiet.{perform-files}
use warp_router.Os.Frame.{remove-other}

pub data LockError : Type 0 where
  opening_lock already_running : LockError

abbrev pub lock_path : String
lock_path = "/run/warp-apply.lock"

-- O_CREATE
abbrev pub touch : String → Files → Files
touch path files = elim (lookup path files) [ none ↦ insert path "" files | some text ↦ files ]

module _ (os : Machine) where
  unfoldable pub acquire_lock : World → World × Option LockError
  unfolding attempt perform
  acquire_lock w =
      let (w1, opened) = attempt os (opening lock_path) (touch lock_path w.files) w in
      if not opened
      then (w1, some opening_lock)
      else let (w2, locked) = perform os (locking lock_path) w1 in
        if locked
        then (w2, none)
        else let (w3, _) = perform os (closing lock_path) w2 in (w3, some already_running)

  -- The clean-up, whose errors are ignored.
  unfoldable pub release_lock : World → World
  unfolding perform remove
  release_lock w =
      let (w1, _) = perform os (unlocking lock_path) w in
      let (w2, _) = perform os (closing lock_path) w1 in (remove os lock_path w2).0

  -- No other file is touched.
  module _ (k : String) (other : lock_path ≢ k) where
    pub acquire_lock-other : (w : World) → lookup k (acquire_lock w).0.files ≡ lookup k w.files
    unfolding acquire_lock attempt perform
    acquire_lock-other w =
        ground (arith, lookup-insert lock_path k "" w.files, text_iff lock_path k, other)

    pub release_lock-other : (w : World) → lookup k (release_lock w).files ≡ lookup k w.files
    unfolding release_lock
    release_lock-other w =
        let w1 = (perform os (unlocking lock_path) w).0 in
        let w2 = (perform os (closing lock_path) w1).0 in
        remove-other os lock_path k w2 other
        ∙ (ap (lookup k) (perform-files os (closing lock_path) w1)
            ∙ ap (lookup k) (perform-files os (unlocking lock_path) w))
