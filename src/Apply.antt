-- ===== src/Apply.antt =====
-- internal/apply/apply.go: the files of the pipeline: atomicWrite, backupFile and restoreBackups.
pub mod Atomic
pub mod Vlans
pub mod Pipeline
pub mod Backups
pub mod BackUp
pub mod Steps
pub mod Execute
pub mod NewPipeline
pub mod Lock
use warp_router.Prelude.{
  String, string_eq, Bool, true, false, not, Option, none, some, List, [], ◌∷◌, concat, insert,
  if◌then◌else◌,
}
use warp_router.Os.{
  World, Machine, making, syncing, closing, setting_mode, contents, missing, unreadable, perform,
  read_file, write_file, remove, create_temp, write_string, rename,
}

-- Why atomicWrite failed.
pub data WriteError : Type 0 where
  creating_directory creating_temp writing_temp syncing_temp closing_temp chmod_temp renaming_temp :
      WriteError

abbrev pub backup_path : String → String
backup_path path = concat (path ∷ ".warp-backup" ∷ [])

module _ (os : Machine) where
  -- The steps after CreateTemp. Each failure removes the temporary file; `close_it` stands for the
  -- Close before that, whose own failure is ignored.
  unfoldable pub give_up : Bool → String → WriteError → World → World × Option WriteError
  unfolding perform remove
  give_up close_it tmp error w =
      let (w1, _) = (if close_it then perform os (closing tmp) w else (w, true)) in
      let (w2, _) = remove os tmp w1 in (w2, some error)

  unfoldable pub fill_temp : String → String → String → World → World × Option WriteError
  unfolding give_up write_string perform rename
  fill_temp tmp path content w =
      let (w1, written) = write_string os tmp content w in
      if not written
      then give_up true tmp writing_temp w1
      else let (w2, synced) = perform os (syncing tmp) w1 in
        if not synced
        then give_up true tmp syncing_temp w2
        else let (w3, closed) = perform os (closing tmp) w2 in
          if not closed
          then give_up false tmp closing_temp w3
          else let (w4, moded) = perform os (setting_mode tmp) w3 in
            if not moded
            then give_up false tmp chmod_temp w4
            else let (w5, renamed) = rename os tmp path w4 in
              if not renamed then give_up false tmp renaming_temp w5 else (w5, none)

  -- atomicWrite
  unfoldable pub atomic_write : String → String → World → World × Option WriteError
  unfolding perform create_temp fill_temp
  atomic_write path content w =
      let dir = os.dir_of path in
      let (w1, made) = perform os (making dir) w in
      if not made
      then (w1, some creating_directory)
      else let (w2, tmp) = create_temp os dir w1 in
        elim tmp [ none ↦ (w2, some creating_temp) | some t ↦ fill_temp t path content w2 ]

  -- backupFile: the path of the backup. A missing file and an error both give none, and Execute
  -- makes no difference between them.
  unfoldable pub backup_file : String → World → World × Option String
  unfolding read_file write_file
  backup_file path w =
      let (w1, result) = read_file os path w in
      elim result [
        | missing ↦ (w1, none)
        | unreadable ↦ (w1, none)
        | contents text ↦
            let (w2, success) = write_file os (backup_path path) text w1 in
            if success then (w2, some (backup_path path)) else (w2, none)
      ]

  -- The body of the loop of restoreBackups. Only a backup that cannot be read is left.
  unfoldable pub restore_backup : String → String → World → World
  unfolding read_file write_file remove
  restore_backup config backup w =
      let (w1, result) = read_file os backup w in
      elim result [
        | missing ↦ w1
        | unreadable ↦ w1
        | contents text ↦ let (w2, _) = write_file os config text w1 in (remove os backup w2).0
      ]

  -- restoreBackups, over the entries in the order in which the map is visited.
  unfoldable pub restore_backups : List (String × String) → World → World
  unfolding restore_backup
  restore_backups [] w = w
  restore_backups ((config, backup) ∷ backups) w =
      restore_backups backups (restore_backup config backup w)
