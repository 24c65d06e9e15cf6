-- ===== src/Apply/Vlans/Quiet.antt =====
-- internal/apply/apply.go: ProvisionVLANs changes no file.
use warp_router.Prelude.{
  String, string_eq, Bool, true, false, not, ◌&&◌, pos, ltb_ℤ, List, [], ◌∷◌, ◌≡◌, refl, ◌∙◌, inl,
  inr, lookup, Bool-cases, Option-cases, ◌==◌,
}
use warp_router.Config.{Interface, SiteConfig}
use warp_router.Os.{World, Machine, run, combined_output}
use warp_router.Os.Quiet.{run-files}
use warp_router.Apply.Vlans.{
  Orders, delete_command, add_command, parent_device, list_vlan_subinterfaces, delete_stale,
  remove_stale, create_vlan, assign_address, finish, reconcile, reconcile_all, provision_vlans,
  desired_vlans, parent_devices, contains_text,
}

module _ (os : Machine) where
  output-files : (args : List String) (w : World) → (combined_output os args w).0.files ≡ w.files
  unfolding combined_output
  output-files args w = run-files os args w

  list-files :
      (parent : String) (w : World) → (list_vlan_subinterfaces os parent w).0.files ≡ w.files
  unfolding list_vlan_subinterfaces
  list-files parent w =
      let x = combined_output os ("ip" ∷ "-o" ∷ "link" ∷ "show" ∷ "type" ∷ "vlan" ∷ []) w in
      let same = output-files ("ip" ∷ "-o" ∷ "link" ∷ "show" ∷ "type" ∷ "vlan" ∷ []) w in
      elim (Bool-cases x.2) [ inl worked ↦ rw worked same | inr failed ↦ rw failed same ]

  delete_stale-files :
      (desired : List (String × Interface)) (devs : List String) (w : World)
      → (delete_stale os desired devs w).files ≡ w.files
  unfolding delete_stale
  delete_stale-files desired [] w = refl
  delete_stale-files desired (dev ∷ devs) w = elim (Option-cases (lookup dev desired)) [
    | inl stale ↦
        rw (stale, delete_stale)
          (delete_stale-files desired devs (run os (delete_command dev) w).0
            ∙ run-files os (delete_command dev) w)
    | inr (iface, wanted) ↦ rw (wanted, delete_stale) (delete_stale-files desired devs w)
  ]

  remove_stale-files :
      (desired : List (String × Interface)) (parents : List (String × Bool)) (w : World)
      → (remove_stale os desired parents w).files ≡ w.files
  unfolding remove_stale
  remove_stale-files desired [] w = refl
  remove_stale-files desired ((parent, _) ∷ parents) w =
      let x = list_vlan_subinterfaces os parent w in
      elim (Option-cases x.1) [
        | inl unlisted ↦
            rw (unlisted, remove_stale)
              (remove_stale-files desired parents x.0 ∙ list-files parent w)
        | inr (devs, listed) ↦
            rw (listed, remove_stale)
              (remove_stale-files desired parents (delete_stale os desired devs x.0)
                ∙ (delete_stale-files desired devs x.0 ∙ list-files parent w))
      ]

  create_vlan-files :
      (parent : String) (iface : Interface) (w : World)
      → (create_vlan os parent iface w).0.files ≡ w.files
  unfolding create_vlan
  create_vlan-files parent iface w =
      let up = "ip" ∷ "link" ∷ "set" ∷ iface.device ∷ "up" ∷ [] in
      let x = combined_output os (add_command parent iface) w in
      let y = combined_output os up x.0 in
      let same = output-files (add_command parent iface) w in
      elim (Bool-cases x.2) [
        | inl created ↦ elim (Bool-cases y.2) [
          | inl is_up ↦ rw (created, is_up) (output-files up x.0 ∙ same)
          | inr failed ↦ rw (created, failed) (output-files up x.0 ∙ same)
        ]
        | inr failed ↦ rw failed same
      ]

  -- The command that assigns the address, for both of its outcomes.
  added_files :
      (iface : Interface) (w : World) → (assign_address os false iface w).0.files ≡ w.files
  unfolding assign_address
  added_files iface w =
      let add = "ip" ∷ "addr" ∷ "add" ∷ iface.address ∷ "dev" ∷ iface.device ∷ [] in
      let x = combined_output os add w in
      elim (Bool-cases (not x.2 && not (contains_text "File exists" x.1))) [
        | inl failed ↦ rw failed (output-files add w)
        | inr assigned ↦ rw assigned (output-files add w)
      ]

  assign_address-files :
      (exists : Bool) (iface : Interface) (w : World)
      → (assign_address os exists iface w).0.files ≡ w.files
  unfolding assign_address
  assign_address-files true iface w =
      let flush = "ip" ∷ "addr" ∷ "flush" ∷ "dev" ∷ iface.device ∷ [] in
      let w1 = (run os flush w).0 in added_files iface w1 ∙ run-files os flush w
  assign_address-files false iface w = added_files iface w

  finish-files :
      (exists : Bool) (iface : Interface) (w : World) → (finish os exists iface w).0.files ≡ w.files
  finish-files exists iface w =
      elim (Bool-cases (not (iface.address == "") && not (iface.address == "dhcp"))) [
        | inl static ↦ rw static (assign_address-files exists iface w)
        | inr none_given ↦ rw none_given refl
      ]

  reconcile-files : (iface : Interface) (w : World) → (reconcile os iface w).0.files ≡ w.files
  unfolding reconcile
  reconcile-files iface w =
      let parent = parent_device iface.device in
      let show = "ip" ∷ "link" ∷ "show" ∷ iface.device ∷ [] in
      let x = run os show w in
      let y = create_vlan os parent iface x.0 in
      elim (Bool-cases (parent == "")) [
        | inl orphan ↦ rw orphan refl
        | inr found ↦ elim (Bool-cases x.1) [
          | inl exists ↦ rw (found, exists) (finish-files true iface x.0 ∙ run-files os show w)
          | inr missing ↦ elim (Option-cases y.1) [
            | inl created ↦
                rw (found, missing, created)
                  (finish-files false iface y.0
                    ∙ (create_vlan-files parent iface x.0 ∙ run-files os show w))
            | inr (error, failed) ↦
                rw (found, missing, failed)
                  (create_vlan-files parent iface x.0 ∙ run-files os show w)
          ]
        ]
      ]

  reconcile_all-files :
      (ifaces : List Interface) (w : World) → (reconcile_all os ifaces w).0.files ≡ w.files
  unfolding reconcile_all
  reconcile_all-files [] w = refl
  reconcile_all-files (iface ∷ ifaces) w =
      let x = reconcile os iface w in
      elim (Bool-cases (ltb_ℤ (pos 0) iface.vlan)) [
        | inl tagged ↦ elim (Option-cases x.1) [
          | inl done ↦
              rw (tagged, reconcile_all, done)
                (reconcile_all-files ifaces x.0 ∙ reconcile-files iface w)
          | inr (error, failed) ↦ rw (tagged, reconcile_all, failed) (reconcile-files iface w)
        ]
        | inr untagged ↦ rw (untagged, reconcile_all) (reconcile_all-files ifaces w)
      ]

  pub provision_vlans-files :
      (orders : Orders) (cfg : SiteConfig) (w : World)
      → (provision_vlans os orders cfg w).0.files ≡ w.files
  unfolding provision_vlans
  provision_vlans-files orders cfg w =
      let desired = desired_vlans cfg.interfaces [] in
      let parents = orders.visit_parents (parent_devices (orders.visit_desired desired) []) in
      reconcile_all-files cfg.interfaces (remove_stale os desired parents w)
      ∙ remove_stale-files desired parents w
