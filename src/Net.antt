-- ===== src/Net.antt =====
-- Go's package net, as far as the program uses it: addresses and networks are byte lists, and
-- Contains is the library's. How a text is read or written is a parameter.
use Prim.Native.Nat.{bit_and}
use warp_router.Prelude.{
  ℕ, String, Bool, true, not, ◌&&◌, Option, none, some, List, [], ◌∷◌, length, nat_eq, ◌==◌,
  if◌then◌else◌,
}

-- net.IP: 4 or 16 bytes.
abbrev pub Ip : Type 0
Ip = List ℕ

-- net.IPNet
pub record IpNet : Type 0 where
  pub ip : Ip
  pub mask : List ℕ

-- The functions of package net that read and write texts. A failed parse is none.
pub record Net : Type 0 where
  pub parse_ip : String → Option Ip
  pub parse_cidr : String → Option (Ip × IpNet)
  pub ip_to_string : Ip → String
  pub net_to_string : IpNet → String

-- IP.To4: none is nil.
unfoldable pub to4 : Ip → Option Ip
to4 (a ∷ b ∷ c ∷ d ∷ []) = some (a ∷ b ∷ c ∷ d ∷ [])
to4 (p0 ∷ p1 ∷ p2 ∷ p3 ∷ p4 ∷ p5 ∷ p6 ∷ p7 ∷ p8 ∷ p9 ∷ x ∷ y ∷ a ∷ b ∷ c ∷ d ∷ []) =
    if p0 == 0
      && p1 == 0
      && p2 == 0
      && p3 == 0
      && p4 == 0
      && p5 == 0
      && p6 == 0
      && p7 == 0
      && p8 == 0
      && p9 == 0
      && x == 255
      && y == 255
    then some (a ∷ b ∷ c ∷ d ∷ [])
    else none
to4 _ = none

abbrev or_self : Ip → Option Ip → Ip
or_self ip none = ip
or_self ip (some x) = x

abbrev drop12 : List ℕ → List ℕ
drop12 (_ ∷ _ ∷ _ ∷ _ ∷ _ ∷ _ ∷ _ ∷ _ ∷ _ ∷ _ ∷ _ ∷ _ ∷ m) = m
drop12 m = m

-- networkNumberAndMask of package net; a pair of nils is a pair of empty lists.
unfoldable pub network_and_mask : IpNet → Ip × List ℕ
unfolding to4
network_and_mask n =
    let ip = or_self n.ip (to4 n.ip) in
    if not (length ip == 4) && not (length ip == 16)
    then ([], [])
    else if length n.mask == 4
    then (if length ip == 4 then (ip, n.mask) else ([], []))
    else if length n.mask == 16
    then (ip, if length ip == 4 then drop12 n.mask else n.mask)
    else ([], [])

-- The loop of Contains: the same bits under the mask. A missing byte would be a panic; the lists
-- have one length where the loop runs.
abbrev masked_eq : List ℕ → List ℕ → List ℕ → Bool
masked_eq (a ∷ xs) (b ∷ ys) (m ∷ ms) = bit_and a m == bit_and b m && masked_eq xs ys ms
masked_eq _ _ _ = true

-- IPNet.Contains
unfoldable pub contains : IpNet → Ip → Bool
unfolding network_and_mask
contains n ip =
    let (nn, m) = network_and_mask n in
    let x = or_self ip (to4 ip) in length x == length nn && masked_eq nn x m
