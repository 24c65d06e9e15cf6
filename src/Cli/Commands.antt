-- ===== src/Cli/Commands.antt =====
-- cmd/warp/main.go: the commands validate, apply, rollback, revisions and status. A command's end
-- is a value in place of what it prints; os.Exit runs no deferred call.
pub mod Pipeline
pub mod Load
pub mod Apply
pub mod Rollback
use warp_router.Prelude.{
  ℕ, ℤ, String, string_eq, Bool, true, false, Option, none, some, List, [], ◌∷◌, concat, map,
  if◌then◌else◌, ◌==◌,
}
use warp_router.Config.{SiteConfig}
use warp_router.Config.Errors.{ConfigError}
use warp_router.Config.Validate.{validate}
use warp_router.Config.Load.{LoadError, Loaded, loaded, not_loaded, parse, load_file}
use warp_router.Net.{Net}
use warp_router.Services.Kea.{Dhcp4Config}
use warp_router.Os.{World, Machine, contents, missing, unreadable, read_file}
use warp_router.Apply.Vlans
use warp_router.Apply.Pipeline.{Step, Result, Backups, execute, new_pipeline}
use warp_router.Apply.Lock.{LockError, acquire_lock, release_lock}
use warp_router.Revision.{Metadata, Disk, Lib}
use warp_router.Revision.Store.{
  GetError, Got, got, refused, Saved, Dir, save, get, list, current, previous,
}

-- What main runs: a command, with the path of the configuration for those that read one. `unknown`
-- prints the usage and exits with status 1.
pub data Invocation : Type 0 where
  run_validate run_apply run_monitor : (path : String) → Invocation
  run_rollback run_revisions run_status unknown : Invocation

-- configPath: the third of os.Args.
unfoldable pub config_path : List String → String
config_path (program ∷ command ∷ path ∷ args) = path
config_path args = "/etc/warp/site.yaml"

-- main, on os.Args.
unfoldable pub invocation : List String → Invocation
unfolding config_path
invocation (program ∷ command ∷ args) =
    let path = config_path (program ∷ command ∷ args) in
    if command == "validate"
    then run_validate path
    else if command == "apply"
    then run_apply path
    else if command == "rollback"
    then run_rollback
    else if command == "revisions"
    then run_revisions
    else if command == "status"
    then run_status
    else if command == "monitor"
    then run_monitor path
    else unknown
invocation args = unknown

-- What the commands run on: the machine, the libraries, the orders in which maps are visited, and
-- how the calls on the store come out, for each operation on it.
pub record Env : Type 0 where
  pub os : Machine
  pub decode : String → Option SiteConfig
  pub net : Net
  pub kea_text : Dhcp4Config → Option String
  pub orders : Vlans.Orders
  pub visit : Backups → Backups
  pub lib : Lib
  pub arrange : List Metadata → List Metadata
  pub finding : Disk
  pub getting : Disk
  pub saving : Disk
  pub tries : ℕ
  pub now : ℤ

-- The files and commands, and the store of the revisions.
pub record System : Type 0 where
  pub world : World
  pub store : Dir

pub data ValidateEnd : Type 0 where
  unloaded : LoadError → ValidateEnd
  invalid_config : List ConfigError → ValidateEnd
  is_valid : ValidateEnd

-- The part that apply and rollback share: a lock that is refused, a step that failed, or all steps.
pub data PipelineEnd : Type 0 where
  lock_refused : LockError → PipelineEnd
  step_failed : Result → PipelineEnd
  completed : (steps : List String) → PipelineEnd

-- How apply ends: all ends but `applied` exit with status 1. A failure to save the revision does not.
pub data ApplyEnd : Type 0 where
  not_valid : ValidateEnd → ApplyEnd
  not_applied : PipelineEnd → ApplyEnd
  not_read : ApplyEnd
  applied : (steps : List String) → Saved → ApplyEnd

pub data RollbackEnd : Type 0 where
  no_previous : RollbackEnd
  not_got : GetError → RollbackEnd
  not_parsed : LoadError → RollbackEnd
  not_rolled_back : PipelineEnd → RollbackEnd
  rolled_back : (steps : List String) → Saved → RollbackEnd

pub data StatusEnd : Type 0 where
  nothing_applied : StatusEnd
  unreadable_revision : GetError → StatusEnd
  shows : Metadata → StatusEnd

-- A line of the table of revisions; the last field is the mark of the current one.
pub record Row : Type 0 where
  pub id : String
  pub timestamp : ℤ
  pub comment : String
  pub is_current : Bool

module _ (env : Env) where
  abbrev pub steps_of : List Step
  steps_of = new_pipeline env.net env.kea_text

  abbrev pub pipeline : SiteConfig → World → World × Result
  pipeline = execute env.os env.orders env.visit steps_of

  -- AcquireLock and Execute.
  unfoldable pub run_pipeline : SiteConfig → World → World × PipelineEnd
  unfolding acquire_lock execute new_pipeline
  run_pipeline cfg w =
      let (w1, lock) = acquire_lock env.os w in
      elim lock [
        | some error ↦ (w1, lock_refused error)
        | none ↦
            let (w2, result) = pipeline cfg w1 in
            elim result.failed [
              | some _ ↦ (w2, step_failed result)
              | none ↦ (w2, completed result.completed)
            ]
      ]

  -- cmdValidate, and the same lines of cmdApply: the configuration if it is valid.
  unfoldable pub load_valid : String → World → World × ValidateEnd × Option SiteConfig
  unfolding load_file validate
  load_valid path w =
      let (w1, result) = load_file env.decode env.os path w in
      elim result [
        | not_loaded error ↦ (w1, unloaded error, none)
        | loaded cfg ↦ elim (validate env.net cfg) [
          | [] ↦ (w1, is_valid, some cfg)
          | e ∷ es ↦ (w1, invalid_config (e ∷ es), none)
        ]
      ]

  -- What apply does after Execute: reading the file again and saving it. The unlock is deferred to
  -- the end of the function.
  unfoldable pub save_applied : String → List String → System → System × ApplyEnd
  unfolding read_file save release_lock
  save_applied path steps sys =
      let (w1, content) = read_file env.os path sys.world in
      elim content [
        | missing ↦ (record { world = w1; store = sys.store }, not_read)
        | unreadable ↦ (record { world = w1; store = sys.store }, not_read)
        | contents text ↦
            let (dir, result) =
              save env.lib env.saving env.tries env.now text (concat ("apply from " ∷ path ∷ []))
                sys.store in
            (record { world = release_lock env.os w1; store = dir }, applied steps result)
      ]

  unfoldable pub cmd_validate : String → World → World × ValidateEnd
  unfolding load_valid
  cmd_validate path w = let (w1, end, _) = load_valid path w in (w1, end)

  unfoldable pub cmd_apply : String → System → System × ApplyEnd
  unfolding load_valid run_pipeline save_applied
  cmd_apply path sys =
      let (w1, end, valid) = load_valid path sys.world in
      elim valid [
        | none ↦ (record { world = w1; store = sys.store }, not_valid end)
        | some cfg ↦
            let (w2, ran) = run_pipeline cfg w1 in
            elim ran [
              | lock_refused error ↦
                  (record { world = w2; store = sys.store }, not_applied (lock_refused error))
              | step_failed result ↦
                  (record { world = w2; store = sys.store }, not_applied (step_failed result))
              | completed steps ↦ save_applied path steps (record { world = w2; store = sys.store })
            ]
      ]

  -- What rollback does once the configuration is parsed.
  unfoldable pub roll_back : String → String → SiteConfig → System → System × RollbackEnd
  unfolding run_pipeline save release_lock
  roll_back id content cfg sys =
      let (w1, ran) = run_pipeline cfg sys.world in
      elim ran [
        | lock_refused error ↦
            (record { world = w1; store = sys.store }, not_rolled_back (lock_refused error))
        | step_failed result ↦
            (record { world = w1; store = sys.store }, not_rolled_back (step_failed result))
        | completed steps ↦
            let (dir, result) =
              save env.lib env.saving env.tries env.now content (concat ("rollback to " ∷ id ∷ []))
                sys.store in
            (record { world = release_lock env.os w1; store = dir }, rolled_back steps result)
      ]

  -- The stored configuration is not validated again.
  unfoldable pub cmd_rollback : System → System × RollbackEnd
  unfolding previous get parse roll_back
  cmd_rollback sys =
      let id = previous env.lib env.finding env.arrange sys.store in
      if id == "" then (sys, no_previous) else elim (get env.lib env.getting id sys.store) [
        | refused error ↦ (sys, not_got error)
        | got content meta ↦ elim (parse env.decode content) [
          | not_loaded error ↦ (sys, not_parsed error)
          | loaded cfg ↦ roll_back id content cfg sys
        ]
      ]

  -- The table of cmdRevisions, or none for an error.
  unfoldable pub cmd_revisions : Dir → Option (List Row)
  unfolding list current
  cmd_revisions dir = elim (list env.lib env.finding env.arrange dir) [
    | none ↦ none
    | some revs ↦ some (
        map
          (λ rev. record {
            id = rev.id;
            timestamp = rev.timestamp;
            comment = rev.comment;
            is_current = rev.id == current env.getting dir;
          })
          revs)
  ]

  -- cmdStatus, up to the health of the uplinks.
  unfoldable pub cmd_status : Dir → StatusEnd
  unfolding current get
  cmd_status dir =
      let id = current env.finding dir in
      if id == "" then nothing_applied else elim (get env.lib env.getting id dir) [
        | refused error ↦ unreadable_revision error
        | got content meta ↦ shows meta
      ]
