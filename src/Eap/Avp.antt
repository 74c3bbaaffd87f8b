-- ===== src/Eap/Avp.antt =====
-- The framing of tunnelled EAP packets: eap/peap/avp.go.
pub mod Echo
use swan.Common.{
  ℕ, ◌+◌, ltb, ◌==◌, if◌then◌else◌, Bool, true, false, ◌&&◌, ◌||◌, not, List, [], ◌∷◌, length,
  bit_or, Option, none, some,
}
use swan.Common.Bits.{shl, byte_at}
use swan.Common.Outcome.{Outcome, ok, err, panic, ◌>>=◌, ◌>>◌, reject, index, slice_from}
use swan.Eap.Packet.{code_request, code_response, code_success, code_failure}

abbrev pub type_identity : ℕ
type_identity = 1

abbrev pub type_mstlv : ℕ
type_mstlv = 33

pub data AvpError : Type 0 where
  unknown_ms_avp : AvpError
  inner_too_large : ℕ → AvpError
  inner_incomplete : AvpError
  inner_missing_type : AvpError

abbrev pub ms_avp_success : List ℕ
ms_avp_success = 0x80 ∷ 0x03 ∷ 0x00 ∷ 0x02 ∷ 0x00 ∷ 0x01 ∷ []

abbrev pub ms_avp_failure : List ℕ
ms_avp_failure = 0x80 ∷ 0x03 ∷ 0x00 ∷ 0x02 ∷ 0x00 ∷ 0x02 ∷ []

-- The loop of equalBytes, on lists of one length.
unfoldable pub same_bytes : List ℕ → List ℕ → Bool
same_bytes [] [] = true
same_bytes [] (y ∷ ys) = false
same_bytes (x ∷ xs) [] = false
same_bytes (x ∷ xs) (y ∷ ys) = x == y && same_bytes xs ys

unfoldable pub equal_bytes : List ℕ → List ℕ → Bool
equal_bytes a b = if length a == length b then same_bytes a b else false

unfoldable pub is_ms_avp : List ℕ → Outcome AvpError (Option (List ℕ))
is_ms_avp tls_data =
    if length tls_data == 11
    then (do
      type ← index tls_data 4
      if type == type_mstlv then (slice_from tls_data 5 >>= λ p. ok (some p)) else ok none)
    else ok none

unfoldable pub complete_eap_packet : List ℕ → Outcome AvpError Bool
complete_eap_packet b =
    if ltb (length b) 4
    then ok false
    else (do hi ← index b 2; lo ← index b 3; ok (bit_or (shl 64 hi 8) lo == length b))

unfoldable pub complete_inner_request : List ℕ → Outcome AvpError Bool
complete_inner_request b = do
  complete ← complete_eap_packet b
  if complete then (index b 0 >>= λ code. ok (code == code_request)) else ok false

-- A complete request: a server's success or failure becomes a packet of its own, and any other
-- request passes through.
unfoldable pub translate_avp : List ℕ → Option (List ℕ) → Outcome AvpError (List ℕ)
translate_avp tls_data none = ok tls_data
translate_avp tls_data (some payload) =
    if equal_bytes payload ms_avp_success
    then (index tls_data 1 >>= λ id. ok (code_success ∷ id ∷ 0 ∷ 4 ∷ []))
    else if equal_bytes payload ms_avp_failure
    then (index tls_data 1 >>= λ id. ok (code_failure ∷ id ∷ 0 ∷ 4 ∷ []))
    else err unknown_ms_avp

unfoldable pub decode_complete : List ℕ → Outcome AvpError (List ℕ)
decode_complete tls_data = do
  type ← index tls_data 4
  if length tls_data == 5 && type == type_identity
      then ok tls_data
      else (is_ms_avp tls_data >>= λ avp. translate_avp tls_data avp)

-- Any other body gets a header.
unfoldable pub wrap_inner : List ℕ → ℕ → Outcome AvpError (List ℕ)
wrap_inner tls_data eap_id =
    let total = 4 + length tls_data in
    reject (ltb 65535 total) (inner_too_large total)
    >> ok (code_request ∷ eap_id ∷ byte_at total 8 ∷ byte_at total 0 ∷ tls_data)

unfoldable pub decode_inner_request : List ℕ → ℕ → Outcome AvpError (List ℕ)
decode_inner_request tls_data eap_id =
    if ltb 4 (length tls_data)
    then (complete_inner_request tls_data >>= λ complete.
        if complete then decode_complete tls_data else wrap_inner tls_data eap_id)
    else wrap_inner tls_data eap_id

abbrev pub ms_avp_payload_for : ℕ → List ℕ
ms_avp_payload_for code = if code == code_success then ms_avp_success else ms_avp_failure

unfoldable pub encode_inner_response : List ℕ → Outcome AvpError (List ℕ)
encode_inner_response inner = do
  complete ← complete_eap_packet inner
  reject (not complete) inner_incomplete
  code ← index inner 0
  id ← index inner 1
  if code == code_success || code == code_failure
      then ok (code_response ∷ id ∷ 0 ∷ 11 ∷ type_mstlv ∷ ms_avp_payload_for code)
      else (do reject (ltb (length inner) 5) inner_missing_type; slice_from inner 4)
