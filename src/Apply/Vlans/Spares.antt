-- ===== src/Apply/Vlans/Spares.antt =====
-- internal/apply/apply.go: ProvisionVLANs deletes no device of an interface with a VLAN.
use warp_router.Prelude.{
  String, string_eq, Bool, true, false, not, ◌&&◌, ◌<◌, ℤ, pos, negsuc, ltb_ℤ, Option, none, some,
  List, [], ◌∷◌, ◌≡◌, ◌≢◌, refl, inl, inr, lookup, insert, lookup-insert, All, Bool-cases,
  Option-cases, arith, text_iff, ◌==◌, if◌then◌else◌,
}
use warp_router.Config.{Interface, SiteConfig}
use warp_router.Os.{
  Call, running, Event, Log, World, Machine, attempt, perform, run, combined_output,
}
use warp_router.Apply.Vlans.{
  Orders, delete_command, add_command, parent_device, list_vlan_subinterfaces, delete_stale,
  remove_stale, create_vlan, assign_address, finish, reconcile, reconcile_all, provision_vlans,
  desired_vlans, parent_devices, contains_text,
}

-- The device that a command deletes.
abbrev pub deleted_by : List String → Option String
deleted_by (program ∷ object ∷ action ∷ dev ∷ []) =
    if program == "ip" && (object == "link" && action == "delete") then some dev else none
deleted_by args = none

abbrev pub deleted : Call → Option String
deleted (running args) = deleted_by args
deleted call = none

-- A VLAN ID above zero.
abbrev IsTagged : ℤ → Type 0
IsTagged (pos n) = 0 < n
IsTagged (negsuc n) = ⊥

-- No interface with a VLAN is on the device.
abbrev pub IsStale : List Interface → String → Type 0
IsStale ifaces dev = All (λ iface. IsTagged iface.vlan → iface.device ≢ dev) ifaces

-- Every device that a command so far has deleted is of no interface with a VLAN.
abbrev pub Spares : List Interface → Log → Type 0
Spares ifaces log =
    All (λ (e : Event). (dev : String) → deleted e.call ≡ some dev → IsStale ifaces dev) log

tagged_above_zero : (vlan : ℤ) → IsTagged vlan → ltb_ℤ (pos 0) vlan ≡ true
tagged_above_zero (pos n) h = ground arith
tagged_above_zero (negsuc n) h = absurd h

-- A device that the map has already stays in it, and every interface with a VLAN adds its own.
desired_vlans-IsStale :
    (dev : String) (ifaces : List Interface) (m : List (String × Interface))
    → lookup dev (desired_vlans ifaces m) ≡ none
    → (lookup dev m ≡ none) × IsStale ifaces dev
unfolding desired_vlans
desired_vlans-IsStale dev [] m e = (e, tt)
desired_vlans-IsStale dev (iface ∷ ifaces) m e = elim (Bool-cases (ltb_ℤ (pos 0) iface.vlan)) [
  | inl tagged ↦
      let (before, stale) =
        desired_vlans-IsStale dev ifaces (insert iface.device iface m) (rw tagged at e) in
      let entry = lookup-insert iface.device dev iface m in
      (
        ground (arith, entry, before),
        (λ _ on. ground (arith, entry, before, text_iff iface.device dev, on), stale),
      )
  | inr untagged ↦
      let (before, stale) = desired_vlans-IsStale dev ifaces m (rw untagged at e) in
      (before, (λ is _. absurd (ground (arith, tagged_above_zero iface.vlan is, untagged)), stale))
]

module _ (wanted : List Interface) where
  record Keeps (u v : World) : Type 0 where
    keeps : Spares wanted u.log → Spares wanted v.log

  Keeps-refl : (w : World) → Keeps w w
  Keeps-refl w = record { keeps = λ h. h }

infixl 40 ◌⊙◌
◌⊙◌ :
    {wanted : List Interface} {u v w : World}
    → Keeps wanted v w
    → Keeps wanted u v
    → Keeps wanted u w
k ⊙ j = record { keeps = λ h. k.keeps (j.keeps h) }

module _ (wanted : List Interface) (os : Machine) where
  run_allowed :
      (args : List String) (w : World)
      → ((dev : String) → deleted_by args ≡ some dev → IsStale wanted dev)
      → Keeps wanted w (run os args w).0
  unfolding run perform attempt
  run_allowed args w a = elim (Bool-cases (os.succeeds w.log (running args))) [
    | inl e ↦ rw (run, perform, attempt, e) (record { keeps = λ h. (a, h) })
    | inr e ↦ rw (run, perform, attempt, e) (record { keeps = λ h. (a, h) })
  ]

  run-Keeps :
      (args : List String) (w : World) → deleted_by args ≡ none → Keeps wanted w (run os args w).0
  run-Keeps args w e = run_allowed args w (λ dev h. cc)

  output-Keeps :
      (args : List String) (w : World)
      → deleted_by args ≡ none
      → Keeps wanted w (combined_output os args w).0
  unfolding combined_output
  output-Keeps args w e = run-Keeps args w e

  list-Keeps :
      (parent : String) (w : World) → Keeps wanted w (list_vlan_subinterfaces os parent w).0
  unfolding list_vlan_subinterfaces
  list-Keeps parent w =
      let x = combined_output os ("ip" ∷ "-o" ∷ "link" ∷ "show" ∷ "type" ∷ "vlan" ∷ []) w in
      let same = output-Keeps ("ip" ∷ "-o" ∷ "link" ∷ "show" ∷ "type" ∷ "vlan" ∷ []) w refl in
      elim (Bool-cases x.2) [ inl worked ↦ rw worked same | inr failed ↦ rw failed same ]

  module _ (desired : List (String × Interface))
      (stale : (dev : String) → lookup dev desired ≡ none → IsStale wanted dev) where
    delete_stale-Keeps :
        (devs : List String) (w : World) → Keeps wanted w (delete_stale os desired devs w)
    unfolding delete_stale
    delete_stale-Keeps [] w = Keeps-refl wanted w
    delete_stale-Keeps (dev ∷ devs) w = elim (Option-cases (lookup dev desired)) [
      | inl unlisted ↦
          rw (unlisted, delete_stale)
            (delete_stale-Keeps devs (run os (delete_command dev) w).0
              ⊙ run_allowed (delete_command dev) w (λ gone h.
                let one : ◌≡◌ {A = Option String} (some dev) (some gone) = h in
                let same : dev ≡ gone = cc in rw (← same) (stale dev unlisted)))
      | inr (iface, found) ↦ rw (found, delete_stale) (delete_stale-Keeps devs w)
    ]

    remove_stale-Keeps :
        (parents : List (String × Bool)) (w : World)
        → Keeps wanted w (remove_stale os desired parents w)
    unfolding remove_stale
    remove_stale-Keeps [] w = Keeps-refl wanted w
    remove_stale-Keeps ((parent, _) ∷ parents) w =
        let x = list_vlan_subinterfaces os parent w in
        elim (Option-cases x.1) [
          | inl unlisted ↦
              rw (unlisted, remove_stale) (remove_stale-Keeps parents x.0 ⊙ list-Keeps parent w)
          | inr (devs, listed) ↦
              rw (listed, remove_stale)
                (remove_stale-Keeps parents (delete_stale os desired devs x.0)
                  ⊙ (delete_stale-Keeps devs x.0 ⊙ list-Keeps parent w))
        ]

  create_vlan-Keeps :
      (parent : String) (iface : Interface) (w : World)
      → Keeps wanted w (create_vlan os parent iface w).0
  unfolding create_vlan
  create_vlan-Keeps parent iface w =
      let up = "ip" ∷ "link" ∷ "set" ∷ iface.device ∷ "up" ∷ [] in
      let x = combined_output os (add_command parent iface) w in
      let y = combined_output os up x.0 in
      let same = output-Keeps (add_command parent iface) w refl in
      elim (Bool-cases x.2) [
        | inl created ↦ elim (Bool-cases y.2) [
          | inl is_up ↦ rw (created, is_up) (output-Keeps up x.0 refl ⊙ same)
          | inr failed ↦ rw (created, failed) (output-Keeps up x.0 refl ⊙ same)
        ]
        | inr failed ↦ rw failed same
      ]

  -- The command that assigns the address, for both of its outcomes.
  added-Keeps : (iface : Interface) (w : World) → Keeps wanted w (assign_address os false iface w).0
  unfolding assign_address
  added-Keeps iface w =
      let add = "ip" ∷ "addr" ∷ "add" ∷ iface.address ∷ "dev" ∷ iface.device ∷ [] in
      let x = combined_output os add w in
      elim (Bool-cases (not x.2 && not (contains_text "File exists" x.1))) [
        | inl failed ↦ rw failed (output-Keeps add w refl)
        | inr assigned ↦ rw assigned (output-Keeps add w refl)
      ]

  assign_address-Keeps :
      (exists : Bool) (iface : Interface) (w : World)
      → Keeps wanted w (assign_address os exists iface w).0
  unfolding assign_address
  assign_address-Keeps true iface w =
      let flush = "ip" ∷ "addr" ∷ "flush" ∷ "dev" ∷ iface.device ∷ [] in
      let w1 = (run os flush w).0 in added-Keeps iface w1 ⊙ run-Keeps flush w refl
  assign_address-Keeps false iface w = added-Keeps iface w

  finish-Keeps :
      (exists : Bool) (iface : Interface) (w : World) → Keeps wanted w (finish os exists iface w).0
  finish-Keeps exists iface w =
      elim (Bool-cases (not (iface.address == "") && not (iface.address == "dhcp"))) [
        | inl static ↦ rw static (assign_address-Keeps exists iface w)
        | inr none_given ↦ rw none_given (Keeps-refl wanted w)
      ]

  reconcile-Keeps : (iface : Interface) (w : World) → Keeps wanted w (reconcile os iface w).0
  unfolding reconcile
  reconcile-Keeps iface w =
      let parent = parent_device iface.device in
      let show = "ip" ∷ "link" ∷ "show" ∷ iface.device ∷ [] in
      let x = run os show w in
      let y = create_vlan os parent iface x.0 in
      elim (Bool-cases (parent == "")) [
        | inl orphan ↦ rw orphan (Keeps-refl wanted w)
        | inr found ↦ elim (Bool-cases x.1) [
          | inl exists ↦ rw (found, exists) (finish-Keeps true iface x.0 ⊙ run-Keeps show w refl)
          | inr missing ↦ elim (Option-cases y.1) [
            | inl created ↦
                rw (found, missing, created)
                  (finish-Keeps false iface y.0
                    ⊙ (create_vlan-Keeps parent iface x.0 ⊙ run-Keeps show w refl))
            | inr (error, failed) ↦
                rw (found, missing, failed)
                  (create_vlan-Keeps parent iface x.0 ⊙ run-Keeps show w refl)
          ]
        ]
      ]

  reconcile_all-Keeps :
      (ifaces : List Interface) (w : World) → Keeps wanted w (reconcile_all os ifaces w).0
  unfolding reconcile_all
  reconcile_all-Keeps [] w = Keeps-refl wanted w
  reconcile_all-Keeps (iface ∷ ifaces) w =
      let x = reconcile os iface w in
      elim (Bool-cases (ltb_ℤ (pos 0) iface.vlan)) [
        | inl tagged ↦ elim (Option-cases x.1) [
          | inl done ↦
              rw (tagged, reconcile_all, done)
                (reconcile_all-Keeps ifaces x.0 ⊙ reconcile-Keeps iface w)
          | inr (error, failed) ↦ rw (tagged, reconcile_all, failed) (reconcile-Keeps iface w)
        ]
        | inr untagged ↦ rw (untagged, reconcile_all) (reconcile_all-Keeps ifaces w)
      ]

-- ProvisionVLANs gives no command that deletes the device of an interface with a VLAN in the
-- configuration, whatever the commands print and whichever fail: if no command so far has done so,
-- none has after it.
pub provision_vlans-Spares :
    (os : Machine) (orders : Orders) (cfg : SiteConfig) (w : World)
    → Spares cfg.interfaces w.log
    → Spares cfg.interfaces (provision_vlans os orders cfg w).0.log
unfolding provision_vlans
provision_vlans-Spares os orders cfg w h =
    let desired = desired_vlans cfg.interfaces [] in
    let parents = orders.visit_parents (parent_devices (orders.visit_desired desired) []) in
    let stale = λ (dev : String) (e : lookup dev desired ≡ none).
      (desired_vlans-IsStale dev cfg.interfaces [] e).1 in
    let kept : Keeps cfg.interfaces w (provision_vlans os orders cfg w).0 =
      reconcile_all-Keeps cfg.interfaces os cfg.interfaces (remove_stale os desired parents w)
      ⊙ remove_stale-Keeps cfg.interfaces os desired stale parents w in
    kept.keeps h
