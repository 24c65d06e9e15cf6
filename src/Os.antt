-- ===== src/Os.antt =====
-- Go's packages os, os/exec and syscall, as far as the program uses them: files are texts by path,
-- and each call is logged with its success. Which calls succeed is the machine's, a parameter.
pub mod Quiet
pub mod Frame
use warp_router.Prelude.{
  String, string_eq, Bool, true, false, Option, none, some, List, ◌∷◌, lookup, insert, erase,
  if◌then◌else◌,
}

abbrev pub Files : Type 0
Files = List (String × String)

-- The calls that act on the system; locking is Flock with LOCK_EX|LOCK_NB, of the file at a path. A command is the list of its name and its arguments.
pub data Call : Type 0 where
  making reading deleting creating syncing closing setting_mode opening locking unlocking :
      (path : String) → Call
  saving writing : (path content : String) → Call
  renaming : (old new : String) → Call
  running : (args : List String) → Call

-- A call that has returned, and the files after it.
pub record Event : Type 0 where
  pub call : Call
  pub success : Bool
  pub files : Files

abbrev pub Log : Type 0
Log = List Event

-- The files, and the calls so far, latest first.
pub record World : Type 0 where
  pub files : Files
  pub log : Log

-- What the operating system decides, after the calls so far: whether a call succeeds, the path that
-- CreateTemp picks, what is in a file whose writing failed (none if there is no file), and what a
-- command prints. `dir_of` is filepath.Dir.
pub record Machine : Type 0 where
  pub succeeds : Log → Call → Bool
  pub temp_path : Log → String → String
  pub remains : Log → Call → Option String
  pub prints : Log → List String → String
  pub dir_of : String → String

-- What ReadFile returns; `missing` is an error that IsNotExist accepts.
pub data ReadResult : Type 0 where
  contents : String → ReadResult
  missing unreadable : ReadResult

abbrev pub put : String → Option String → Files → Files
put path none files = erase path files
put path (some content) files = insert path content files

abbrev pub logged : Call → Bool → Files → World → World
logged call success files w = record {
  files = files;
  log = record { call = call; success = success; files = files } ∷ w.log;
}

module _ (os : Machine) where
  -- A call that changes the files if it succeeds, and nothing else.
  unfoldable pub attempt : Call → Files → World → World × Bool
  attempt call files w =
      if os.succeeds w.log call
      then (logged call true files w, true)
      else (logged call false w.files w, false)

  -- MkdirAll, Sync, Close, Chmod: no file's text changes.
  unfoldable pub perform : Call → World → World × Bool
  unfolding attempt
  perform call w = attempt call w.files w

  -- os.ReadFile
  unfoldable pub read_file : String → World → World × ReadResult
  unfolding perform
  read_file path w =
      let (w', success) = perform (reading path) w in
      if success
      then elim (lookup path w.files) [
        | none ↦ (w', missing)
        | some content ↦ (w', contents content)
      ]
      else (w', unreadable)

  -- Writing a text into a file. A failure may leave anything in the file.
  unfoldable pub write : Call → String → String → World → World × Bool
  write call path content w =
      if os.succeeds w.log call
      then (logged call true (put path (some content) w.files) w, true)
      else (logged call false (put path (os.remains w.log call) w.files) w, false)

  -- os.WriteFile
  unfoldable pub write_file : String → String → World → World × Bool
  unfolding write
  write_file path content = write (saving path content) path content

  -- os.Remove
  unfoldable pub remove : String → World → World × Bool
  unfolding attempt
  remove path w = attempt (deleting path) (erase path w.files) w

  -- os.CreateTemp: an empty file with a name that the machine picks.
  unfoldable pub create_temp : String → World → World × Option String
  unfolding attempt
  create_temp dir w =
      let path = os.temp_path w.log dir in
      let (w', success) = attempt (creating path) (insert path "" w.files) w in
      if success then (w', some path) else (w', none)

  -- File.WriteString
  unfoldable pub write_string : String → String → World → World × Bool
  unfolding write
  write_string path content = write (writing path content) path content

  -- os.Rename, which fails on a missing file.
  unfoldable pub rename : String → String → World → World × Bool
  unfolding attempt
  rename old new w = elim (lookup old w.files) [
    | none ↦ (logged (renaming old new) false w.files w, false)
    | some content ↦ attempt (renaming old new) (insert new content (erase old w.files)) w
  ]

  -- exec.Command(...).Run: the command's effects on other things than files are not told.
  unfoldable pub run : List String → World → World × Bool
  unfolding perform
  run args w = perform (running args) w

  -- exec.Command(...).CombinedOutput
  unfoldable pub combined_output : List String → World → World × String × Bool
  unfolding run
  combined_output args w = let (w', success) = run args w in (w', os.prints w.log args, success)
