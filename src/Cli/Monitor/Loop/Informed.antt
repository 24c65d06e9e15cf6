-- ===== src/Cli/Monitor/Loop/Informed.antt =====
-- cmd/warp/main.go: what the controller knows of the uplinks' statuses, kept by the steps of
-- cmdMonitor.
use mathlib.Core.Path.{subst}
use warp_router.Prelude.{
  String, string_eq, Bool, true, false, Option, none, some, List, ◌≡◌, ◌⊎◌, refl, sym, ◌∙◌, inl,
  inr, lookup, insert, erase, has, lookup-insert, lookup-erase, Bool-cases, Option-cases, arith,
  text_iff, if◌then◌else◌, ◌==◌,
}
use warp_router.Net.{Net}
use warp_router.Health.Status.{
  Status, unknown, healthy, degraded, down, UplinkState, status_eq, status_beq_iff,
}
use warp_router.Health.Prober.{States, Change, callback, do_ping, record_ping}
use warp_router.Health.Callbacks.{Probe, do_ping_lem}
use warp_router.Failover.Vtysh
use warp_router.Failover.Vtysh.{Runner, Vtysh, Log, Command, vtysh_manager}
use warp_router.Failover.Controller.{Controller, Orders}
use warp_router.Failover.Controller.Active.{entry_after, handle_state_change-active}
use warp_router.Cli.Monitor.Loop.{note_change, on_state_change}
use warp_router.Cli.Monitor.Loop.Accepted.{update_ecmp-succeeds}

-- An uplink's entry in `active` agrees with its status; unknown and degraded say nothing.
abbrev pub Agrees : Status → Bool → Type 0
Agrees down entry = entry ≡ false
Agrees healthy entry = entry ≡ true
Agrees unknown entry = Unit
Agrees degraded entry = Unit

-- The entry agrees with the status that was last reported.
abbrev pub Knows : Option Change → Status → Bool → Type 0
Knows none status entry = Agrees status entry
Knows (some change) status entry = (change.new ≡ status) × Agrees change.old entry

pub record IsInformed (states : States) (unreported : List (String × Change)) (c : Controller)
    : Type 0 where
  pub knows :
      (name : String) (u : UplinkState)
      → lookup name states ≡ some u
      → Knows (lookup name unreported) u.status (has name c.active)
  pub named :
      (name : String) (change : Change) → lookup name unreported ≡ some change → change.name ≡ name

lookup-note_ne :
    (cname name : String) (change : Option Change) (unreported : List (String × Change))
    → (cname == name) ≡ false
    → lookup name (note_change cname change unreported) ≡ lookup name unreported
lookup-note_ne cname name none unreported h = refl
lookup-note_ne cname name (some change) unreported h =
    ground (arith, h, lookup-insert cname name change unreported)

-- The uplink that is pinged.
Knows-note :
    (cname : String) (a b : Status) (entry : Bool) (unreported : List (String × Change))
    → lookup cname unreported ≡ none
    → Agrees a entry
    → Knows (lookup cname (note_change cname (callback true cname a b) unreported)) b entry
unfolding callback
Knows-note cname a b entry unreported idle h = elim (Bool-cases (a == b)) [
  | inl same ↦ rw (same, idle) (rw (sym ((status_beq_iff a b).0 same)) h)
  | inr differs ↦ rw (differs, lookup-insert, (text_iff cname cname).1 refl) (refl, h)
]

abbrev change_of : String → Status → Status → Change
change_of name a b = record { name = name; old = a; new = b }

callback-cases :
    (name : String) (a b : Status)
    → (callback true name a b ≡ none) ⊎ (callback true name a b ≡ some (change_of name a b))
unfolding callback
callback-cases name a b = elim (Bool-cases (a == b)) [
  | inl same ↦ inl (rw same refl)
  | inr differs ↦ inr (rw differs refl)
]

-- Both fields after a ping of a registered uplink that has nothing to report.
module _ (states : States) (unreported : List (String × Change)) (c : Controller)
    (h : IsInformed states unreported c) (cname : String) (v v' : UplinkState)
    (found : lookup cname states ≡ some v) (idle : lookup cname unreported ≡ none) where
  abbrev change : Option Change
  change = callback true cname v.status v'.status

  Knows-self :
      Knows (lookup cname (note_change cname change unreported)) v'.status (has cname c.active)
  Knows-self = Knows-note cname v.status v'.status (has cname c.active) unreported idle (
      subst (λ (o : Option Change). Knows o v.status (has cname c.active)) idle
        (h.knows cname v found))

  Knows-after :
      (name : String) (u : UplinkState)
      → lookup name (insert cname v' states) ≡ some u
      → Knows (lookup name (note_change cname change unreported)) u.status (has name c.active)
  Knows-after name u e = elim (Bool-cases (cname == name)) [
    | inl same ↦
        let own : lookup name (insert cname v' states) ≡ some v' = rw (lookup-insert, same) refl in
        let u≡v' : u ≡ v' = cc in
        rw u≡v' (
          subst
            (λ (n : String).
              Knows (lookup n (note_change cname change unreported)) v'.status (has n c.active))
            ((text_iff cname name).0 same) Knows-self)
    | inr differs ↦
        rw (lookup-note_ne cname name change unreported differs)
          (h.knows name u (sym (ground (arith, lookup-insert cname name v' states)) ∙ e))
  ]

  named_after :
      (name : String) (d : Change)
      → lookup name (note_change cname change unreported) ≡ some d
      → d.name ≡ name
  named_after name d e = elim (callback-cases cname v.status v'.status) [
    | inl silent ↦ h.named name d (
        subst (λ (o : Option Change). lookup name (note_change cname o unreported) ≡ some d) silent
          e)
    | inr told ↦
        let told_change = change_of cname v.status v'.status in
        let e' : lookup name (insert cname told_change unreported) ≡ some d =
          subst (λ (o : Option Change). lookup name (note_change cname o unreported) ≡ some d) told
            e in
        elim (Bool-cases (cname == name)) [
          | inl same ↦
              let own : lookup name (insert cname told_change unreported) ≡ some told_change =
                rw (lookup-insert, same) refl in
              let d≡told : d ≡ told_change = cc in rw d≡told ((text_iff cname name).0 same)
          | inr differs ↦
              h.named name d
                (sym (lookup-note_ne cname name (some told_change) unreported differs) ∙ e')
        ]
  ]

module _ (net : Net) (run : Runner) (vorders : Vtysh.Orders) (orders : Orders)
    (never_refuses : (log : Log) (command : Command) → run log command ≡ true) where
  pub pinged-IsInformed :
      (p : Probe) (states states' : States) (unreported : List (String × Change)) (c : Controller)
      (change : Option Change)
      → IsInformed states unreported c
      → lookup p.cfg.name unreported ≡ none
      → do_ping true p.cfg p.now p.result states ≡ some (states', change)
      → IsInformed states' (note_change p.cfg.name change unreported) c
  unfolding do_ping
  pinged-IsInformed p states states' unreported c change h idle e =
      elim (Option-cases (lookup p.cfg.name states)) [
        | inl missing ↦
            let stopped : do_ping true p.cfg p.now p.result states ≡ none =
              rw (missing, do_ping) refl in
            cc
        | inr (v, found) ↦
            let v' = record_ping p.cfg.failures p.now p.result v in
            let made : States × Option Change =
              (insert p.cfg.name v' states, callback true p.cfg.name v.status v'.status) in
            let ran : do_ping true p.cfg p.now p.result states ≡ some made =
              do_ping_lem p states v found in
            let made≡ : made ≡ (states', change) = cc in
            subst
              (λ (x : States × Option Change).
                IsInformed x.0 (note_change p.cfg.name x.1 unreported) c)
              made≡
              (record {
                knows = Knows-after states unreported c h p.cfg.name v v' found idle;
                named = named_after states unreported c h p.cfg.name v v' found idle;
              })
      ]

  -- With no refusal the entry of the reported uplink agrees with the new status.
  Agrees-entry_after :
      (c : Controller) (m : Vtysh) (name : String) (new : Status)
      → Agrees new (entry_after (vtysh_manager net run vorders) orders c m name new)
  Agrees-entry_after c m name down = ground (
    arith,
    update_ecmp-succeeds net run vorders orders never_refuses
        (record c { active = insert name false c.active }) m,
  )
  Agrees-entry_after c m name healthy = ground (
    arith,
    update_ecmp-succeeds net run vorders orders never_refuses
        (record c { active = insert name true c.active }) m,
  )
  Agrees-entry_after c m name unknown = tt
  Agrees-entry_after c m name degraded = tt

  entry_is :
      (change : Change) (c : Controller) (m : Vtysh) (j : String)
      → has j (on_state_change net run vorders orders change c m).0.active ≡ (
          if change.name == j
          then entry_after (vtysh_manager net run vorders) orders c m change.name change.new
          else has j c.active)
  unfolding on_state_change
  entry_is change c m j =
      handle_state_change-active (vtysh_manager net run vorders) orders c m change.name change.old
        change.new j

  pub reported-IsInformed :
      (name : String) (states : States) (unreported : List (String × Change)) (c : Controller)
      (m : Vtysh) (change : Change)
      → IsInformed states unreported c
      → lookup name unreported ≡ some change
      → IsInformed states
          (erase name unreported)
          (on_state_change net run vorders orders change c m).0
  reported-IsInformed name states unreported c m change h e = record {
    knows = λ j u f. elim (Bool-cases (name == j)) [
      | inl same ↦
          let q : lookup j unreported ≡ some change =
            subst (λ (n : String). lookup n unreported ≡ some change) ((text_iff name j).0 same)
              e in
          let k : Knows (some change) u.status (has j c.active) =
            subst (λ (o : Option Change). Knows o u.status (has j c.active)) q (h.knows j u f) in
          let hit : (change.name == j) ≡ true = (text_iff change.name j).1 (h.named j change q) in
          let entry : has j (on_state_change net run vorders orders change c m).0.active
              ≡ entry_after (vtysh_manager net run vorders) orders c m change.name change.new =
            entry_is change c m j ∙ rw hit refl in
          rw (lookup-erase, same)
            (subst
              (λ (st : Status).
                Agrees st (has j (on_state_change net run vorders orders change c m).0.active))
              k.0
              (subst (λ (b : Bool). Agrees change.new b) (sym entry)
                (Agrees-entry_after c m change.name change.new)))
      | inr differs ↦
          let miss : (change.name == j) ≡ false = rw (h.named name change e) differs in
          let entry : has j (on_state_change net run vorders orders change c m).0.active
              ≡ has j c.active =
            entry_is change c m j ∙ rw miss refl in
          rw (lookup-erase, differs)
            (subst (λ (b : Bool). Knows (lookup j unreported) u.status b) (sym entry)
              (h.knows j u f))
    ];
    named = λ j d f. elim (Bool-cases (name == j)) [
      | inl same ↦
          let gone : lookup j (erase name unreported) ≡ none = rw (lookup-erase, same) refl in cc
      | inr differs ↦ h.named j d (sym (ground (arith, lookup-erase name j unreported)) ∙ f)
    ];
  }
