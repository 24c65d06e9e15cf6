-- ===== src/Apply/Pipeline.antt =====
-- internal/apply/apply.go: Step, Pipeline, NewPipeline and Execute.
use warp_router.Prelude.{
  String, string_eq, Bool, true, false, Option, none, some, List, [], ◌∷◌, ◌++◌, insert,
  if◌then◌else◌, ◌==◌,
}
use warp_router.Config.{SiteConfig}
use warp_router.Net.{Net}
use warp_router.Services.SysctlConf
use warp_router.Services.Frr.Template as FrrTemplate
use warp_router.Services.Nftables.Template as NftablesTemplate
use warp_router.Services.Kea
use warp_router.Services.Kea.{Dhcp4Config}
use warp_router.Services.Unbound
use warp_router.Os.{World, Machine, run, remove}
use warp_router.Apply.{WriteError, atomic_write, backup_file, restore_backups}
use warp_router.Apply.Vlans
use warp_router.Apply.Vlans.{VlanError, provision_vlans}

-- A failed Render is none. An empty service has no reload.
pub record Step : Type 0 where
  pub name : String
  pub config_path : String
  pub render : SiteConfig → Option String
  pub service : String

pub data StepError : Type 0 where
  vlan_failed : VlanError → StepError
  render_failed apply_sysctl_failed : StepError
  write_failed : WriteError → StepError
  reload_failed : (service : String) → StepError

-- Result: `failed` is the step that failed and why.
pub record Result : Type 0 where
  pub completed : List String
  pub failed : Option (String × StepError)

abbrev pub Backups : Type 0
Backups = List (String × String)

abbrev pub note_backup : String → Option String → Backups → Backups
note_backup path none backups = backups
note_backup path (some backup) backups = insert path backup backups

abbrev pub sysctl_command : String → List String
sysctl_command path = "sysctl" ∷ "-e" ∷ "-p" ∷ path ∷ []

-- SystemdReloader.Reload
abbrev pub reload_command : String → List String
reload_command service = "systemctl" ∷ "reload-or-restart" ∷ service ∷ []

module _ (os : Machine) where
  -- The loop of the backups.
  unfoldable pub back_up : List Step → Backups → World → World × Backups
  unfolding backup_file
  back_up [] backups w = (w, backups)
  back_up (step ∷ steps) backups w =
      let (w', backup) = backup_file os step.config_path w in
      back_up steps (note_backup step.config_path backup backups) w'

  abbrev pub refused : StepError → World × Bool → World × Option StepError
  refused error (w, true) = (w, none)
  refused error (w, false) = (w, some error)

  unfoldable pub load_sysctl : Step → World → World × Option StepError
  unfolding run
  load_sysctl step w =
      if step.name == "sysctl"
      then refused apply_sysctl_failed (run os (sysctl_command step.config_path) w)
      else (w, none)

  -- The reload of the step's service. The program's pipelines have a reloader.
  unfoldable pub reload : Step → World → World × Option StepError
  unfolding run
  reload step w =
      if step.service == ""
      then (w, none)
      else refused (reload_failed step.service) (run os (reload_command step.service) w)

  -- After the file is written: sysctl, and the reload.
  unfoldable pub activate : Step → World → World × Option StepError
  unfolding load_sysctl reload
  activate step w =
      let (w1, failed) = load_sysctl step w in
      elim failed [ some error ↦ (w1, some error) | none ↦ reload step w1 ]

  -- The body of the loop, up to a step's failure.
  unfoldable pub run_step : SiteConfig → Step → World → World × Option StepError
  unfolding atomic_write activate
  run_step cfg step w = elim (step.render cfg) [
    | none ↦ (w, some render_failed)
    | some content ↦
        let (w1, failed) = atomic_write os step.config_path content w in
        elim failed [ some error ↦ (w1, some (write_failed error)) | none ↦ activate step w1 ]
  ]

  -- The loop over the steps, without the restoration that follows a failure.
  unfoldable pub run_steps : SiteConfig → List Step → List String → World → World × Result
  unfolding run_step
  run_steps cfg [] completed w = (w, record { completed = completed; failed = none })
  run_steps cfg (step ∷ steps) completed w =
      let (w', failed) = run_step cfg step w in
      elim failed [
        | some error ↦ (w', record { completed = completed; failed = some (step.name, error) })
        | none ↦ run_steps cfg steps (completed ++ step.name ∷ []) w'
      ]

  -- The clean-up of the backups after a success.
  unfoldable pub remove_backups : Backups → World → World
  unfolding remove
  remove_backups [] w = w
  remove_backups ((_, backup) ∷ backups) w = remove_backups backups (remove os backup w).0

  -- Execute. `visit` is the order in which the map of the backups is ranged over.
  unfoldable pub execute :
      Vlans.Orders → (Backups → Backups) → List Step → SiteConfig → World → World × Result
  unfolding provision_vlans back_up run_steps restore_backups remove_backups
  execute orders visit steps cfg w =
      let (w1, vlan) = provision_vlans os orders cfg w in
      elim vlan [
        | some error ↦ (w1, record { completed = []; failed = some ("vlan", vlan_failed error) })
        | none ↦
            let (w2, backups) = back_up steps [] w1 in
            let (w3, result) = run_steps cfg steps [] w2 in
            elim result.failed [
              | some _ ↦ (restore_backups os (visit backups) w3, result)
              | none ↦ (remove_backups (visit backups) w3, result)
            ]
      ]

-- NewPipeline. The text of Kea's configuration is package encoding/json's.
unfoldable pub new_pipeline : Net → (Dhcp4Config → Option String) → List Step
new_pipeline net kea_text =
    record {
      name = "sysctl";
      config_path = "/etc/sysctl.d/90-warp-router.conf";
      render = λ cfg. some (SysctlConf.render cfg);
      service = "";
    }
    ∷ record {
      name = "frr";
      config_path = "/etc/frr/frr.conf";
      render = λ cfg. some (FrrTemplate.render cfg);
      service = "frr";
    }
    ∷ record {
      name = "nftables";
      config_path = "/etc/nftables.conf";
      render = λ cfg. some (NftablesTemplate.render cfg);
      service = "nftables";
    }
    ∷ record {
      name = "kea";
      config_path = "/etc/kea/kea-dhcp4.conf";
      render = λ cfg. kea_text (Kea.render cfg);
      service = "kea-dhcp4-server";
    }
    ∷ record {
      name = "unbound";
      config_path = "/etc/unbound/unbound.conf.d/warp-router.conf";
      render = λ cfg. some (Unbound.render net cfg);
      service = "unbound";
    }
    ∷ []
