-- ===== src/Payload/Ip.antt =====
-- What the payload codecs use of Go's `net.IP`: an address is its bytes, in the 4- or the 16-byte form.
use Prim.Native.Nat.{compare, Ordering}
use swan.Common.{
  ℕ, ltb, ◌==◌, if◌then◌else◌, Bool, true, false, ◌&&◌, List, [], ◌∷◌, ◌++◌, length, drop, Option,
  none, some,
}

abbrev pub Ip : Type 0
Ip = List ℕ

abbrev pub v4_prefix : List ℕ
v4_prefix = 0 ∷ 0 ∷ 0 ∷ 0 ∷ 0 ∷ 0 ∷ 0 ∷ 0 ∷ 0 ∷ 0 ∷ 0xff ∷ 0xff ∷ []

-- `ip[0:10]` is zero, and the next two bytes are 0xff.
unfoldable pub is_v4_mapped : List ℕ → List ℕ → Bool
is_v4_mapped [] ip = true
is_v4_mapped (p ∷ ps) [] = false
is_v4_mapped (p ∷ ps) (x ∷ ip) = p == x && is_v4_mapped ps ip

-- `ip.To4()`: `none` stands for nil.
unfoldable pub to4 : Ip → Option Ip
to4 ip =
    if length ip == 4
    then some ip
    else if length ip == 16 && is_v4_mapped v4_prefix ip
    then some (drop 12 ip)
    else none

-- `ip.To16()`.
unfoldable pub to16 : Ip → Option Ip
to16 ip =
    if length ip == 4 then some (v4_prefix ++ ip) else if length ip == 16 then some ip else none

-- `len(x)` is 0 for nil.
abbrev or_empty : Option Ip → Ip
or_empty none = []
or_empty (some ip) = ip

-- `ipOctets` of ts.go.
unfoldable pub ip_octets : Ip → Ip
ip_octets ip = elim (to4 ip) [ some v4 ↦ v4 | none ↦ or_empty (to16 ip) ]

-- `cloneIP`: `net.IPv4` makes the 16-byte form.
unfoldable pub clone_ip : List ℕ → Ip
clone_ip p = if length p == 4 then v4_prefix ++ p else if length p == 16 then p else []

-- `compareIP` on addresses of one length: the first bytes that differ decide.
unfoldable pub compare_bytes : List ℕ → List ℕ → Ordering
compare_bytes [] bs = Ordering.eq
compare_bytes (x ∷ as') [] = Ordering.eq
compare_bytes (x ∷ as') (y ∷ bs) = elim (compare x y) [
  | Ordering.lt ↦ Ordering.lt
  | Ordering.gt ↦ Ordering.gt
  | Ordering.eq ↦ compare_bytes as' bs
]

unfoldable pub compare_ip : Ip → Ip → Ordering
compare_ip a b =
    if length a == length b
    then compare_bytes a b
    else if ltb (length a) (length b)
    then Ordering.lt
    else Ordering.gt

abbrev pub is_gt : Ordering → Bool
is_gt Ordering.gt = true
is_gt o = false
