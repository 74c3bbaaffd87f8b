-- ===== src/Payload/Config/RoundTrip.antt =====
-- The CP body: what is appended parses back, and the parser returns on any input.
use swan.Common.{
  ℕ, zero, suc, ◌+◌, ◌-◌, ◌≤◌, ◌<◌, ◌≡◌, ◌⊎◌, refl, sym, ap, ◌∙◌, arith, true, List, [], ◌∷◌, ◌++◌,
  length, take, drop, ◌==◌, if◌then◌else◌, le→ltb, lt→ltb, append_assoc, append-nil, length-append,
  take-append_length, drop-append_length, All,
}
use swan.Common.Bits.{byte_at}
use swan.Common.Outcome.{ok, slice_ok, slice_from_ok}
use swan.Wire.Be.Laws.{put_uint16_append, be_uint16-put}
use swan.Payload.Errors.{PayloadError}
use swan.Payload.Config.{
  ConfigAttribute, ConfigPayload, append_config_attribute, append_attributes, append_config_payload,
  parse_config_attribute, read_attributes, parse_config_payload, is_config_kind,
}

abbrev pub IsAttribute : ConfigAttribute → Type 0
IsAttribute a = (a.type < 65536) × (length a.value ≤ 0xffff)

abbrev attribute_head : ConfigAttribute → List ℕ
attribute_head a =
    byte_at a.type 8
    ∷ byte_at a.type 0
    ∷ byte_at (length a.value) 8
    ∷ byte_at (length a.value) 0
    ∷ []

unfoldable pub encode_attributes : List ConfigAttribute → List ℕ
encode_attributes [] = []
encode_attributes (a ∷ as') = attribute_head a ++ (a.value ++ encode_attributes as')

append_attributes_lem :
    (dst : List ℕ) (as' : List ConfigAttribute)
    → All IsAttribute as'
    → append_attributes dst as' ≡ ok (dst ++ encode_attributes as')
unfolding append_attributes append_config_attribute encode_attributes
append_attributes_lem dst [] h = ap ok (sym (append-nil dst))
append_attributes_lem dst (a ∷ as') h =
    let hi = byte_at a.type 8 in
    let lo = byte_at a.type 0 in
    let head = attribute_head a in
    rw
      (
        le→ltb 0xffff (length a.value) h.0.1,
        put_uint16_append {E = PayloadError} dst (0 ∷ 0 ∷ 0 ∷ 0 ∷ []) 0 (length dst) a.type
            (omega arith) (omega arith),
        put_uint16_append {E = PayloadError} dst (hi ∷ lo ∷ 0 ∷ 0 ∷ []) 2 (length dst + 2)
            (length a.value) (omega arith) (omega arith),
      )
      (append_attributes_lem ((dst ++ head) ++ a.value) as' h.1
        ∙ ap ok (
            append_assoc (dst ++ head) a.value (encode_attributes as')
            ∙ append_assoc dst head (a.value ++ encode_attributes as')))

parse_config_attribute-encode :
    (a : ConfigAttribute) (rest : List ℕ)
    → IsAttribute a
    → parse_config_attribute (attribute_head a ++ (a.value ++ rest)) ≡ ok (a, rest)
unfolding parse_config_attribute
parse_config_attribute-encode a rest h =
    let n = length a.value in
    let b : List ℕ = attribute_head a ++ (a.value ++ rest) in
    let l = length-append a.value rest in
    let e_value : take (4 + n - 4) (a.value ++ rest) ≡ a.value =
      take-append_length a.value rest (4 + n - 4) (omega arith) in
    let e_tail : drop (4 + n) b ≡ rest =
      drop-append_length (attribute_head a ++ a.value) rest (4 + n) (omega arith) in
    rw
      (
        le→ltb (length b) 4 (omega arith),
        be_uint16-put {E = PayloadError} a.type [] h.0,
        be_uint16-put {E = PayloadError} n [] (omega arith),
        le→ltb (length b) (4 + n) (omega (arith, l)),
        slice_ok {E = PayloadError} b 4 (4 + n) (omega arith) (omega (arith, l)),
        slice_from_ok {E = PayloadError} b (4 + n) (omega (arith, l)),
        e_value,
        e_tail,
      )
      refl

read_attributes-encode :
    (fuel : ℕ) (as' acc : List ConfigAttribute)
    → length as' < fuel
    → All IsAttribute as'
    → read_attributes fuel (encode_attributes as') acc ≡ ok (acc ++ as')
unfolding read_attributes encode_attributes
read_attributes-encode zero as' acc f h = absurd (omega arith)
read_attributes-encode (suc fuel) [] acc f h = ap ok (sym (append-nil acc))
read_attributes-encode (suc fuel) (a ∷ as') acc f h =
    let b : List ℕ = attribute_head a ++ (a.value ++ encode_attributes as') in
    rw
      (
        lt→ltb 0 (length b) (omega arith),
        read_attributes,
        parse_config_attribute-encode a (encode_attributes as') h.0,
      )
      (read_attributes-encode fuel as' (acc ++ (a ∷ [])) (omega arith) h.1
        ∙ ap ok (append_assoc acc (a ∷ []) as'))

encode_attributes-length :
    (as' : List ConfigAttribute) → length as' ≤ length (encode_attributes as')
unfolding encode_attributes
encode_attributes-length [] = omega arith
encode_attributes-length (a ∷ as') =
    omega (arith, encode_attributes-length as', length-append a.value (encode_attributes as'))

-- A configuration payload of one of the four kinds is appended behind `dst`, and parses back; one
-- with kind 0 parses back as a request.
pub parse_config_payload-append :
    (dst : List ℕ) (cp : ConfigPayload)
    → (cp.kind ≡ 0) ⊎ (is_config_kind cp.kind ≡ true)
    → All IsAttribute cp.attributes
    → (body : List ℕ) × (append_config_payload dst cp ≡ ok (dst ++ body))
      × (parse_config_payload body ≡ ok (record cp { kind = if cp.kind == 0 then 1 else cp.kind }))
unfolding append_config_payload parse_config_payload
parse_config_payload-append dst cp k h =
    let kind : ℕ = if cp.kind == 0 then 1 else cp.kind in
    let head : List ℕ = kind ∷ 0 ∷ 0 ∷ 0 ∷ [] in
    let enc = encode_attributes cp.attributes in
    let allowed : is_config_kind kind ≡ true = ground (arith, k) in
    (
      head ++ enc,
      append_attributes_lem (dst ++ head) cp.attributes h ∙ ap ok (append_assoc dst head enc),
      rw
          (
            le→ltb (length (head ++ enc)) 4 (omega arith),
            allowed,
            read_attributes-encode (suc (length enc)) cp.attributes []
                (omega (arith, encode_attributes-length cp.attributes)) h,
          )
          refl,
    )
