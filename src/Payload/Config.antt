-- ===== src/Payload/Config.antt =====
-- The CP payload body: wire/payload/cp.go.
pub mod RoundTrip
use swan.Common.{
  ℕ, zero, suc, ◌+◌, ltb, leb, ◌==◌, if◌then◌else◌, Bool, true, false, ◌||◌, not, List, [], ◌∷◌,
  ◌++◌, length, Option, none, some,
}
use swan.Common.Outcome.{
  Outcome, ok, err, panic, ◌>>=◌, ◌>>◌, reject, panic_if, index, slice, slice_from,
}
use swan.Wire.Be.{be_uint16, put_uint16}
use swan.Wire.Consts.{
  config_type_request, config_type_reply, config_type_set, config_type_ack,
  config_attr_internal_ipv4_address, config_attr_internal_ipv4_dns,
  config_attr_internal_ipv6_address, config_attr_internal_ipv6_dns,
}
use swan.Payload.Ip.{Ip, to4, to16}
use swan.Payload.Errors.{
  PayloadError, config_too_short, config_kind, config_reserved, config_attr_too_short,
  config_attr_exceeds,
}

pub record ConfigAttribute : Type 0 where
  pub type : ℕ
  pub value : List ℕ

pub record ConfigPayload : Type 0 where
  pub kind : ℕ
  pub attributes : List ConfigAttribute

unfoldable pub append_config_attribute : List ℕ → ConfigAttribute → Outcome PayloadError (List ℕ)
append_config_attribute dst attr = do
  panic_if (ltb 0xffff (length attr.value))
  let start = length dst
  let dst0 = dst ++ (0 ∷ 0 ∷ 0 ∷ 0 ∷ [])
  dst1 ← put_uint16 dst0 start attr.type
  dst2 ← put_uint16 dst1 (start + 2) (length attr.value)
  ok (dst2 ++ attr.value)

unfoldable pub append_attributes : List ℕ → List ConfigAttribute → Outcome PayloadError (List ℕ)
append_attributes dst [] = ok dst
append_attributes dst (a ∷ as') = do
  dst1 ← append_config_attribute dst a
  append_attributes dst1 as'

-- A payload with no kind is written as a request.
unfoldable pub append_config_payload : List ℕ → ConfigPayload → Outcome PayloadError (List ℕ)
append_config_payload dst cp =
    let cfg_type = if cp.kind == 0 then config_type_request else cp.kind in
    append_attributes (dst ++ (cfg_type ∷ 0 ∷ 0 ∷ 0 ∷ [])) cp.attributes

unfoldable pub parse_config_attribute : List ℕ → Outcome PayloadError (ConfigAttribute × List ℕ)
parse_config_attribute b = do
  reject (ltb (length b) 4) (config_attr_too_short (length b))
  tb ← slice b 0 2
  typ ← be_uint16 tb
  lb ← slice b 2 4
  value_len ← be_uint16 lb
  reject (ltb (length b) (4 + value_len)) config_attr_exceeds
  value ← slice b 4 (4 + value_len)
  tail ← slice_from b (4 + value_len)
  ok (record { type = typ; value = value }, tail)

-- The loop over the attributes on fuel; that fuel runs out is written as a panic.
unfoldable pub read_attributes :
    ℕ → List ℕ → List ConfigAttribute → Outcome PayloadError (List ConfigAttribute)
read_attributes zero rest acc = panic
read_attributes (suc fuel) rest acc = elim (ltb 0 (length rest)) [
  | false ↦ ok acc
  | true ↦ do
    (attr, tail) ← parse_config_attribute rest
    read_attributes fuel tail (acc ++ (attr ∷ []))
]

abbrev pub is_config_kind : ℕ → Bool
is_config_kind k =
    k == config_type_request
    || k == config_type_reply
    || k == config_type_set
    || k == config_type_ack

unfoldable pub parse_config_payload : List ℕ → Outcome PayloadError ConfigPayload
parse_config_payload b = do
  reject (ltb (length b) 4) (config_too_short (length b))
  kind ← index b 0
  reject (not (is_config_kind kind)) (config_kind kind)
  b1 ← index b 1
  b2 ← index b 2
  b3 ← index b 3
  reject (not (b1 == 0) || not (b2 == 0) || not (b3 == 0)) config_reserved
  rest ← slice_from b 4
  attributes ← read_attributes (suc (length rest)) rest []
  ok (record { kind = kind; attributes = attributes })

-- The request of bootstrap IKE_AUTH: the four attribute types, each with no value.
abbrev empty_attribute : ℕ → ConfigAttribute
empty_attribute t = record { type = t; value = [] }

abbrev pub config_request : ConfigPayload
config_request = record {
  kind = config_type_request;
  attributes =
      empty_attribute config_attr_internal_ipv4_address
      ∷ empty_attribute config_attr_internal_ipv4_dns
      ∷ empty_attribute config_attr_internal_ipv6_address
      ∷ empty_attribute config_attr_internal_ipv6_dns
      ∷ [];
}

unfoldable pub append_config_request : List ℕ → Outcome PayloadError (List ℕ)
append_config_request dst = append_config_payload dst config_request

pub record ConfigRenewRequest : Type 0 where
  pub internal_ipv4 : Ip
  pub internal_ipv6 : Ip
  pub internal_ipv6_prefix : ℕ

-- `none` stands for a nil address.
abbrev pub ipv4_attributes : Option (List ℕ) → List ConfigAttribute
ipv4_attributes none = []
ipv4_attributes (some v4) = record { type = config_attr_internal_ipv4_address; value = v4 } ∷ []

abbrev pub ipv6_attributes : Option (List ℕ) → ℕ → List ConfigAttribute
ipv6_attributes none prefix = []
ipv6_attributes (some v6) prefix =
    record { type = config_attr_internal_ipv6_address; value = v6 ++ (prefix ∷ []) } ∷ []

unfoldable pub append_config_renew_request :
    List ℕ → ConfigRenewRequest → Outcome PayloadError (List ℕ)
append_config_renew_request dst req = append_config_payload dst (record {
  kind = config_type_request;
  attributes =
      ipv4_attributes (to4 req.internal_ipv4)
      ++ (empty_attribute config_attr_internal_ipv4_dns
          ∷ (ipv6_attributes (to16 req.internal_ipv6) req.internal_ipv6_prefix
              ++ (empty_attribute config_attr_internal_ipv6_dns ∷ [])));
})
