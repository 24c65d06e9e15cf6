-- ===== src/Apply/Vlans.antt =====
-- internal/apply/apply.go: ProvisionVLANs, listVLANSubinterfaces and ParentDevice. A command's
-- effect on the kernel's links is not modelled: what it prints and whether it succeeds is the
-- machine's.
pub mod Quiet
pub mod Parent
pub mod Spares
use Prim.Native.String
use Prim.Native.Char.{code}
use warp_router.Prelude.{
  ℕ, pos, ltb_ℤ, leb, String, string_eq, nat_eq, Bool, true, false, not, ◌&&◌, ◌||◌, Option, none,
  some, List, [], ◌∷◌, lookup, insert, show_int, if◌then◌else◌, ◌==◌,
}
use warp_router.Config.{Interface, SiteConfig}
use warp_router.Os.{World, Machine, run, combined_output}

-- The text before the last dot.
unfoldable pub before_last_dot : String → Option String
before_last_dot String.[] = none
before_last_dot (String.◌∷◌ c s) = elim (before_last_dot s) [
  | some front ↦ some (String.◌∷◌ c front)
  | none ↦ if code c == b'.' then some "" else none
]

abbrev or_empty : Option String → String
or_empty none = ""
or_empty (some s) = s

-- ParentDevice: a dot in front gives the empty text as well.
unfoldable pub parent_device : String → String
unfolding before_last_dot
parent_device device = or_empty (before_last_dot device)

abbrev push : String → List String → List String
push c [] = c ∷ []
push c (w ∷ ws) = String.◌++◌ c w ∷ ws

-- strings.Split at the characters that a test accepts.
unfoldable pub split_where : (ℕ → Bool) → String → List String
split_where p String.[] = "" ∷ []
split_where p (String.◌∷◌ c s) =
    let rest = split_where p s in if p (code c) then "" ∷ rest else push (String.◌∷◌ c "") rest

-- unicode.IsSpace
abbrev is_space : ℕ → Bool
is_space c =
    (leb 9 c && leb c 13)
    || c == 32
    || c == 133
    || c == 160
    || c == 5760
    || (leb 8192 c && leb c 8202)
    || c == 8232
    || c == 8233
    || c == 8239
    || c == 8287
    || c == 12288

abbrev not_empty : List String → List String
not_empty [] = []
not_empty (w ∷ ws) = let rest = not_empty ws in if w == "" then rest else w ∷ rest

-- strings.Fields
unfoldable pub fields : String → List String
unfolding split_where
fields s = not_empty (split_where is_space s)

-- strings.TrimSuffix(s, ":")
unfoldable pub trim_colon : String → String
trim_colon String.[] = ""
trim_colon (String.◌∷◌ c s) =
    let rest = trim_colon s in
    if s == "" then (if code c == b':' then "" else String.◌∷◌ c "") else String.◌∷◌ c rest

-- strings.SplitN(s, "@", 2), if it has two parts.
unfoldable pub cut_at_sign : String → Option (String × String)
cut_at_sign String.[] = none
cut_at_sign (String.◌∷◌ c s) =
    let rest = cut_at_sign s in
    if code c == b'@'
    then some ("", s)
    else elim rest [ none ↦ none | some (front, back) ↦ some (String.◌∷◌ c front, back) ]

-- The second field of a line, without its colon: "dev@parent".
abbrev second_field : List String → Option (String × String)
second_field (a ∷ b ∷ ws) = cut_at_sign (trim_colon b)
second_field _ = none

-- The body of the loop over the lines that `ip link show` prints.
unfoldable pub vlan_of_line : String → String → Option String
unfolding fields trim_colon cut_at_sign
vlan_of_line parent line = elim (second_field (fields line)) [
  | none ↦ none
  | some (dev, on) ↦ if on == parent then some dev else none
]

abbrev add_found : Option String → List String → List String
add_found none devs = devs
add_found (some dev) devs = dev ∷ devs

unfoldable pub vlans_of_lines : String → List String → List String
unfolding vlan_of_line
vlans_of_lines parent [] = []
vlans_of_lines parent (line ∷ lines) =
    add_found (vlan_of_line parent line) (vlans_of_lines parent lines)

-- The devices of the interfaces with a VLAN, each with the last interface that has it.
unfoldable pub desired_vlans :
    List Interface → List (String × Interface) → List (String × Interface)
desired_vlans [] m = m
desired_vlans (iface ∷ ifaces) m =
    desired_vlans ifaces (if ltb_ℤ (pos 0) iface.vlan then insert iface.device iface m else m)

-- The loop that collects the parents.
unfoldable pub parent_devices :
    List (String × Interface) → List (String × Bool) → List (String × Bool)
unfolding parent_device
parent_devices [] m = m
parent_devices ((_, iface) ∷ desired) m =
    let parent = parent_device iface.device in
    parent_devices desired (if parent == "" then m else insert parent true m)

-- Why ProvisionVLANs failed: the interface, and what failed.
pub data VlanError : Type 0 where
  no_parent creating bringing_up assigning : (name : String) → VlanError

-- A Go map is ranged over in an order that may differ each time.
pub record Orders : Type 0 where
  pub visit_desired : List (String × Interface) → List (String × Interface)
  pub visit_parents : List (String × Bool) → List (String × Bool)

abbrev pub delete_command : String → List String
delete_command dev = "ip" ∷ "link" ∷ "delete" ∷ dev ∷ []

abbrev pub add_command : String → Interface → List String
add_command parent iface =
    "ip"
    ∷ "link"
    ∷ "add"
    ∷ "link"
    ∷ parent
    ∷ "name"
    ∷ iface.device
    ∷ "type"
    ∷ "vlan"
    ∷ "id"
    ∷ show_int iface.vlan
    ∷ []

-- strings.Contains(s, "File exists")
unfoldable pub starts_with : String → String → Bool
starts_with String.[] s = true
starts_with (String.◌∷◌ c prefix) String.[] = false
starts_with (String.◌∷◌ c prefix) (String.◌∷◌ d s) = code c == code d && starts_with prefix s

unfoldable pub contains_text : String → String → Bool
unfolding starts_with
contains_text part String.[] = part == ""
contains_text part (String.◌∷◌ c s) = starts_with part (String.◌∷◌ c s) || contains_text part s

module _ (os : Machine) where
  -- listVLANSubinterfaces: none is an error.
  unfoldable pub list_vlan_subinterfaces : String → World → World × Option (List String)
  unfolding combined_output vlans_of_lines split_where
  list_vlan_subinterfaces parent w =
      let (w', out, success) =
        combined_output os ("ip" ∷ "-o" ∷ "link" ∷ "show" ∷ "type" ∷ "vlan" ∷ []) w in
      if success
      then (w', some (vlans_of_lines parent (split_where (λ c. c == 10) out)))
      else (w', none)

  -- The inner loop of the removal: the result of the command is ignored.
  unfoldable pub delete_stale : List (String × Interface) → List String → World → World
  unfolding run
  delete_stale desired [] w = w
  delete_stale desired (dev ∷ devs) w =
      delete_stale desired devs
        (elim (lookup dev desired) [ some _ ↦ w | none ↦ (run os (delete_command dev) w).0 ])

  unfoldable pub remove_stale : List (String × Interface) → List (String × Bool) → World → World
  unfolding list_vlan_subinterfaces delete_stale
  remove_stale desired [] w = w
  remove_stale desired ((parent, _) ∷ parents) w =
      let (w', existing) = list_vlan_subinterfaces parent w in
      remove_stale desired parents
        (elim existing [ none ↦ w' | some devs ↦ delete_stale desired devs w' ])

  -- Creating a device that does not exist, and bringing it up.
  unfoldable pub create_vlan : String → Interface → World → World × Option VlanError
  unfolding combined_output
  create_vlan parent iface w =
      let (w1, _, created) = combined_output os (add_command parent iface) w in
      if not created
      then (w1, some (creating iface.name))
      else let (w2, _, up) =
          combined_output os ("ip" ∷ "link" ∷ "set" ∷ iface.device ∷ "up" ∷ []) w1 in
        if not up then (w2, some (bringing_up iface.name)) else (w2, none)

  -- Flushing the addresses of a device that existed, and assigning the configured one.
  unfoldable pub assign_address : Bool → Interface → World → World × Option VlanError
  unfolding run combined_output contains_text
  assign_address exists iface w =
      let (w1, _) =
        (if exists
          then run os ("ip" ∷ "addr" ∷ "flush" ∷ "dev" ∷ iface.device ∷ []) w
          else (w, true)) in
      let (w2, out, assigned) =
        combined_output os ("ip" ∷ "addr" ∷ "add" ∷ iface.address ∷ "dev" ∷ iface.device ∷ []) w1 in
      if not assigned && not (contains_text "File exists" out)
      then (w2, some (assigning iface.name))
      else (w2, none)

  abbrev pub finish : Bool → Interface → World → World × Option VlanError
  finish exists iface w =
      if not (iface.address == "") && not (iface.address == "dhcp")
      then assign_address exists iface w
      else (w, none)

  -- The body of the last loop, for an interface with a VLAN.
  unfoldable pub reconcile : Interface → World → World × Option VlanError
  unfolding parent_device run create_vlan assign_address
  reconcile iface w =
      let parent = parent_device iface.device in
      if parent == ""
      then (w, some (no_parent iface.name))
      else let (w1, exists) = run os ("ip" ∷ "link" ∷ "show" ∷ iface.device ∷ []) w in
        if exists
        then finish true iface w1
        else let (w2, failed) = create_vlan parent iface w1 in
          elim failed [ some error ↦ (w2, some error) | none ↦ finish false iface w2 ]

  unfoldable pub reconcile_all : List Interface → World → World × Option VlanError
  unfolding reconcile
  reconcile_all [] w = (w, none)
  reconcile_all (iface ∷ ifaces) w = elim (ltb_ℤ (pos 0) iface.vlan) [
    | false ↦ reconcile_all ifaces w
    | true ↦
        let (w', failed) = reconcile iface w in
        elim failed [ some error ↦ (w', some error) | none ↦ reconcile_all ifaces w' ]
  ]

  -- ProvisionVLANs
  unfoldable pub provision_vlans : Orders → SiteConfig → World → World × Option VlanError
  unfolding desired_vlans parent_devices remove_stale reconcile_all
  provision_vlans orders cfg w =
      let desired = desired_vlans cfg.interfaces [] in
      let parents = parent_devices (orders.visit_desired desired) [] in
      reconcile_all cfg.interfaces (remove_stale desired (orders.visit_parents parents) w)
