-- ===== src/Cli/Monitor/Loop/Statuses.antt =====
-- cmd/warp/main.go: what the controller knows of the uplinks' statuses while cmdMonitor runs.
use mathlib.Core.Path.{subst}
use warp_router.Prelude.{
  String, string_eq, true, Option, none, some, List, [], ◌∷◌, ◌≡◌, refl, sym, ◌∙◌, inl, inr, lookup,
  insert, has, lookup-insert, Bool-cases, arith, ◌==◌,
}
use warp_router.Config.{SiteConfig}
use warp_router.Net.{Net}
use warp_router.Health.Status.{unknown, UplinkState, ProbeConfig, status_eq}
use warp_router.Health.Prober.{States, Change, register}
use warp_router.Failover.Vtysh
use warp_router.Failover.Vtysh.{Runner, Vtysh, Log, Command, vtysh_manager}
use warp_router.Failover.Controller.{Orders}
use warp_router.Cli.Monitor.{monitor_plan}
use warp_router.Cli.Monitor.Loop.{Monitor, Step, pinged, reported, start, Reaches, here, next}
use warp_router.Cli.Monitor.Loop.Informed.{
  Agrees, Knows, IsInformed, pinged-IsInformed, reported-IsInformed,
}

-- Start registers each uplink as unknown.
AllUnknown : States → Type 0
AllUnknown states =
    (name : String) (u : UplinkState) → lookup name states ≡ some u → u.status ≡ unknown

insert-AllUnknown :
    (name : String) (v : UplinkState) (states : States)
    → v.status ≡ unknown
    → AllUnknown states
    → AllUnknown (insert name v states)
unfolding AllUnknown
insert-AllUnknown name v states e h = λ j u f. elim (Bool-cases (name == j)) [
  | inl same ↦
      let own : lookup j (insert name v states) ≡ some v = rw (lookup-insert, same) refl in
      let u≡v : u ≡ v = cc in rw u≡v e
  | inr differs ↦ h j u (sym (ground (arith, lookup-insert name j v states)) ∙ f)
]

register-AllUnknown :
    (cfgs : List ProbeConfig) (states : States)
    → AllUnknown states
    → AllUnknown (register states cfgs)
unfolding register
register-AllUnknown [] states h = h
register-AllUnknown (cfg ∷ cfgs) states h =
    register-AllUnknown cfgs _ (insert-AllUnknown cfg.name _ states refl h)

module _ (net : Net) (run : Runner) (vorders : Vtysh.Orders) (orders : Orders)
    (never_refuses : (log : Log) (command : Command) → run log command ≡ true) where
  start-IsInformed :
      (cfg : SiteConfig)
      → let s = start net run vorders orders cfg in IsInformed s.states s.unreported s.controller
  unfolding start lookup AllUnknown
  start-IsInformed cfg = record {
    knows = λ name u e.
        let fresh : u.status ≡ unknown =
          register-AllUnknown (monitor_plan net cfg.interfaces).0 [] (λ j v f. cc) name u e in
        rw fresh tt;
    named = λ name change e. cc;
  }

  Step-IsInformed :
      (s t : Monitor)
      → IsInformed s.states s.unreported s.controller
      → Step net run vorders orders s t
      → IsInformed t.states t.unreported t.controller
  Step-IsInformed _ _ h (pinged p s states noted idle e) =
      pinged-IsInformed net run vorders orders never_refuses p s.states states s.unreported
        s.controller noted h idle e
  Step-IsInformed _ _ h (reported name s told e) =
      reported-IsInformed net run vorders orders never_refuses name s.states s.unreported
        s.controller s.routes told h e

  Reaches-IsInformed :
      (s t : Monitor)
      → IsInformed s.states s.unreported s.controller
      → Reaches net run vorders orders s t
      → IsInformed t.states t.unreported t.controller
  Reaches-IsInformed s _ h here = h
  Reaches-IsInformed s _ h (next t u r step) = Step-IsInformed t u (Reaches-IsInformed s t h r) step

  -- If vtysh refuses no command, then in every state that the monitor reaches, an uplink whose
  -- goroutine has nothing to report is not active if its status is down, and is active if its
  -- status is healthy.
  pub Reaches-statuses :
      (cfg : SiteConfig) (s : Monitor) (name : String) (u : UplinkState)
      → Reaches net run vorders orders (start net run vorders orders cfg) s
      → lookup name s.states ≡ some u
      → lookup name s.unreported ≡ none
      → Agrees u.status (has name s.controller.active)
  Reaches-statuses cfg s name u r found idle =
      let h = Reaches-IsInformed (start net run vorders orders cfg) s (start-IsInformed cfg) r in
      subst (λ (o : Option Change). Knows o u.status (has name s.controller.active)) idle
        (h.knows name u found)
