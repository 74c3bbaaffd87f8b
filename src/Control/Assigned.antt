-- ===== src/Control/Assigned.antt =====
-- The assigned configuration: control/config_apply.go, and cesDecodeAssignedCP of control/child_sa.go.
use swan.Common.{
  ℕ, ltb, ◌==◌, if◌then◌else◌, Bool, true, false, not, List, [], ◌∷◌, ◌++◌, length, take, bit_or,
  Option, none, some,
}
use swan.Common.Bits.{shl}
use swan.Common.Outcome.{Outcome, ok, ◌>>=◌, ◌>>◌, reject, index}
use swan.Wire.Consts.{
  config_attr_internal_ipv4_address, config_attr_internal_ipv4_dns,
  config_attr_internal_ipv6_address, config_attr_internal_ipv6_dns,
}
use swan.Payload.Ip.{Ip, v4_prefix}
use swan.Payload.Config.{ConfigAttribute}

abbrev pub config_attr_internal_address_expiry : ℕ
config_attr_internal_address_expiry = 5

pub record AssignedConfig : Type 0 where
  pub internal_ipv4 : Ip
  pub internal_ipv6 : Ip
  pub internal_ipv6_prefix : ℕ
  pub dns4 : List Ip
  pub dns6 : List Ip
  pub address_expiry_seconds : ℕ

pub record AssignedMask : Type 0 where
  pub v4_addr : Bool
  pub v4_dns : Bool
  pub v6_addr : Bool
  pub v6_dns : Bool
  pub expiry : Bool

pub data AssignedError : Type 0 where
  invalid_attr_length : ℕ → ℕ → AssignedError
  invalid_prefix : ℕ → AssignedError

-- What was decoded so far.
abbrev pub Decoded : Type 0
Decoded = AssignedConfig × AssignedMask

abbrev pub nothing_decoded : Decoded
nothing_decoded = (
  record {
    internal_ipv4 = [];
    internal_ipv6 = [];
    internal_ipv6_prefix = 0;
    dns4 = [];
    dns6 = [];
    address_expiry_seconds = 0;
  },
  record { v4_addr = false; v4_dns = false; v6_addr = false; v6_dns = false; expiry = false },
)

-- The four bytes of an expiry, the highest first; any other length leaves it out.
abbrev read_expiry : Decoded → List ℕ → Decoded
read_expiry (c, m) (a ∷ b ∷ x ∷ y ∷ []) = (
  record c {
    address_expiry_seconds = bit_or (bit_or (bit_or (shl 32 a 24) (shl 32 b 16)) (shl 32 x 8)) y;
  },
  record m { expiry = true },
)
read_expiry d value = d

unfoldable pub decode_attribute : Decoded → ConfigAttribute → Outcome AssignedError Decoded
decode_attribute (c, m) attr =
    let n : ℕ = length attr.value in
    if attr.type == config_attr_internal_ipv4_address
    then if n == 0
      then ok (c, m)
      else reject (not (n == 4)) (invalid_attr_length attr.type n)
        >> ok (record c { internal_ipv4 = v4_prefix ++ attr.value }, record m { v4_addr = true })
    else if attr.type == config_attr_internal_ipv4_dns
    then reject (not (n == 4)) (invalid_attr_length attr.type n)
      >> ok (
        record c { dns4 = c.dns4 ++ ((v4_prefix ++ attr.value) ∷ []) },
        record m { v4_dns = true },
      )
    else if attr.type == config_attr_internal_ipv6_address
    then if n == 0
      then ok (c, m)
      else reject (not (n == 17)) (invalid_attr_length attr.type n)
        >> (index attr.value 16 >>= λ prefix.
            reject (ltb 128 prefix) (invalid_prefix prefix)
            >> ok (
              record c { internal_ipv6 = take 16 attr.value; internal_ipv6_prefix = prefix },
              record m { v6_addr = true },
            ))
    else if attr.type == config_attr_internal_ipv6_dns
    then reject (not (n == 16)) (invalid_attr_length attr.type n)
      >> ok (record c { dns6 = c.dns6 ++ (attr.value ∷ []) }, record m { v6_dns = true })
    else if attr.type == config_attr_internal_address_expiry
    then ok (read_expiry (c, m) attr.value)
    else ok (c, m)

unfoldable pub decode_attributes : Decoded → List ConfigAttribute → Outcome AssignedError Decoded
decode_attributes d [] = ok d
decode_attributes d (a ∷ as') = decode_attribute d a >>= λ d'. decode_attributes d' as'

abbrev pub decode_assigned : List ConfigAttribute → Outcome AssignedError Decoded
decode_assigned attributes = decode_attributes nothing_decoded attributes

abbrev pick {ℓ} : {A : Type ℓ} → Bool → A → A → A
pick present new old = if present then new else old

-- The categories that are present override those of the previous value.
unfoldable pub merge_assigned : AssignedConfig → AssignedMask → AssignedConfig → AssignedConfig
merge_assigned incoming present old = record {
  internal_ipv4 = pick present.v4_addr incoming.internal_ipv4 old.internal_ipv4;
  internal_ipv6 = pick present.v6_addr incoming.internal_ipv6 old.internal_ipv6;
  internal_ipv6_prefix =
      pick present.v6_addr incoming.internal_ipv6_prefix old.internal_ipv6_prefix;
  dns4 = pick present.v4_dns incoming.dns4 old.dns4;
  dns6 = pick present.v6_dns incoming.dns6 old.dns6;
  address_expiry_seconds =
      pick present.expiry incoming.address_expiry_seconds old.address_expiry_seconds;
}

-- `replace` is the mode of a reply; otherwise a value that was there is merged with.
unfoldable pub next_assigned :
    Bool → AssignedConfig → AssignedMask → Option AssignedConfig → AssignedConfig
next_assigned replace incoming present none = incoming
next_assigned replace incoming present (some old) =
    if replace then incoming else merge_assigned incoming present old
