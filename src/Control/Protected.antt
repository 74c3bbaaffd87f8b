-- ===== src/Control/Protected.antt =====
-- Protected messages: control/protected.go. The cipher and the authenticator of xcrypto are a
-- parameter, `IkeCrypto`; random IVs are arguments, and `none` is a failing generator.
pub mod Padding
pub mod Prefix
pub mod Parts
use swan.Common.{
  ℕ, zero, suc, ◌+◌, ◌-◌, ◌*◌, ◌/◌, ◌%◌, ltb, ◌==◌, if◌then◌else◌, Bool, true, false, ◌&&◌, ◌||◌,
  not, List, [], ◌∷◌, ◌++◌, length, take, drop, Option, none, some, bit_or,
}
use swan.Common.Bits.{byte_at}
use swan.Common.Outcome.{
  Outcome, ok, err, panic, ◌>>=◌, ◌>>◌, reject, index, slice, slice_from, of_elem,
}
use swan.Wire.Consts.{
  header_len, payload_header_len, skf_header_len, ike_default_version, flag_response,
  flag_initiator, payload_type_none, payload_type_sk, payload_type_skf,
}
use swan.Wire.Errors.{WireError}
use swan.Wire.Be.{be_uint16, put_uint16, put_uint32}
use swan.Wire.Header.{Header, SkfHeader, uint64_spi, marshal_to, parse_header, parse_skf_header}
use swan.Wire.Message.{Payload, EncryptedPayload, is_encrypted, parse_payloads}
use swan.Esp.Suite.{EncryptionAlg, Integrity, Selection, equal}
use swan.Esp.Outbound.{pad_bytes}

abbrev pub fragment_plaintext_limit : ℕ
fragment_plaintext_limit = 1024

-- `skfFirstPayloadUnset`.
abbrev pub first_payload_unset : ℕ
first_payload_unset = 0xff

pub data ProtectedError : Type 0 where
  no_cipher_state : ProtectedError
  no_initiator_spi : ProtectedError
  too_many_fragments : ℕ → ProtectedError
  invalid_fragment_numbers : ℕ → ℕ → ProtectedError
  invalid_iv_len : ProtectedError
  no_integrity : ProtectedError
  payload_too_long : ℕ → ProtectedError
  packet_too_long : ℕ → ProtectedError
  iv_failed : ProtectedError
  seal_failed : ProtectedError
  sign_failed : ProtectedError
  open_failed : ProtectedError
  integrity_failed : ProtectedError
  shorter_than_iv : ProtectedError
  shorter_than_icv : ProtectedError
  empty_plaintext : ProtectedError
  invalid_padding : ℕ → ProtectedError
  header_truncated : ProtectedError
  length_out_of_bounds : ProtectedError
  not_terminal : ProtectedError
  truncated_skf : ProtectedError
  no_encrypted_payload : ProtectedError
  not_an_skf : ProtectedError
  exchange_mismatch : ProtectedError
  message_id_mismatch : ProtectedError
  first_payload_mismatch : ProtectedError
  unexpected_next_payload : ProtectedError
  in_wire : WireError → ProtectedError

abbrev pub from_wire {ℓ} : {A : Type ℓ} → Outcome WireError A → Outcome ProtectedError A
from_wire (ok a) = ok a
from_wire (err e) = err (in_wire e)
from_wire panic = panic

-- The four keys of `IKEKeys` that protect messages.
pub record IkeKeys : Type 0 where
  pub sk_ai : List ℕ
  pub sk_ar : List ℕ
  pub sk_ei : List ℕ
  pub sk_er : List ℕ

-- `none` is a nil pointer.
pub record IkeEnvelope : Type 0 where
  pub initiator_spi : ℕ
  pub responder_spi : ℕ
  pub is_original_initiator : Bool
  pub selected_ike : Option Selection
  pub ike_keys : Option IkeKeys
  pub supports_fragmentation : Bool

-- `EncryptionAlg.Seal` and `Open` for a key, an IV, the authenticated data and a text, and
-- `Integrity.Sign` for a key and a text; `none` is an error.
pub record IkeCrypto : Type 0 where
  pub seal : EncryptionAlg → List ℕ → List ℕ → List ℕ → List ℕ → Option (List ℕ)
  pub unseal : EncryptionAlg → List ℕ → List ℕ → List ℕ → List ℕ → Option (List ℕ)
  pub sign : Integrity → List ℕ → List ℕ → Option (List ℕ)

unfoldable pub request_flags : IkeEnvelope → ℕ
request_flags env = if env.is_original_initiator then flag_initiator else 0

unfoldable pub response_flags : IkeEnvelope → ℕ
response_flags env = bit_or flag_response (request_flags env)

-- The key that decrypts and the key that authenticates what the peer sends.
unfoldable pub inbound_key_halves : IkeEnvelope → IkeKeys → List ℕ × List ℕ
inbound_key_halves env k =
    if env.is_original_initiator then (k.sk_er, k.sk_ar) else (k.sk_ei, k.sk_ai)

unfoldable pub outbound_key_halves : IkeEnvelope → IkeKeys → List ℕ × List ℕ
outbound_key_halves env k =
    if env.is_original_initiator then (k.sk_ei, k.sk_ai) else (k.sk_er, k.sk_ar)

abbrev pub or_fail {ℓ} : {A : Type ℓ} → Option A → ProtectedError → Outcome ProtectedError A
or_fail none e = err e
or_fail (some a) e = ok a

-- A block length below 1 counts as 1.
abbrev pub pad_block : EncryptionAlg → ℕ
pad_block enc = if ltb enc.block_len 1 then 1 else enc.block_len

unfoldable pub ike_pad_len : ℕ → ℕ → ℕ
ike_pad_len block n = (block - (n + 1) % block) % block

unfoldable pub pad_ike_plaintext : EncryptionAlg → List ℕ → List ℕ
pad_ike_plaintext enc plain =
    let n = ike_pad_len (pad_block enc) (length plain) in plain ++ (pad_bytes n 1 ++ (n % 256 ∷ []))

unfoldable pub strip_ike_plaintext : List ℕ → Outcome ProtectedError (List ℕ)
strip_ike_plaintext plain = do
  reject (length plain == 0) empty_plaintext
  pad_len ← index plain (length plain - 1)
  reject (not (ltb pad_len (length plain))) (invalid_padding pad_len)
  slice plain 0 (length plain - 1 - pad_len)

-- The length of the ICV behind the sealed text.
unfoldable pub outer_icv_len : EncryptionAlg → Option Integrity → Outcome ProtectedError ℕ
outer_icv_len enc none = if enc.aead then ok 0 else err no_integrity
outer_icv_len enc (some integ) =
    if enc.aead then ok 0 else if integ.key_len == 0 then err no_integrity else ok integ.output_len

abbrev pub invalid_fragment : Option SkfHeader → Bool
invalid_fragment none = false
invalid_fragment (some f) =
    f.fragment_number == 0 || f.total_fragments == 0 || ltb f.total_fragments f.fragment_number

-- The SKF fragment header, where there is one.
abbrev pub fragment_bytes : Option SkfHeader → List ℕ
fragment_bytes none = []
fragment_bytes (some f) =
    byte_at f.fragment_number 8
    ∷ byte_at f.fragment_number 0
    ∷ byte_at f.total_fragments 8
    ∷ byte_at f.total_fragments 0
    ∷ []

-- What every packet of one exchange has in common.
pub record Outgoing : Type 0 where
  pub exchange : ℕ
  pub message_id : ℕ
  pub flags : ℕ

abbrev pub unpatched_header : IkeEnvelope → Outgoing → ℕ → Header
unpatched_header env o enc_type = record {
  initiator_spi = uint64_spi env.initiator_spi;
  responder_spi = uint64_spi env.responder_spi;
  next_payload = enc_type;
  version = ike_default_version;
  exchange_type = o.exchange;
  flags = o.flags;
  message_id = o.message_id;
  length = 0;
}

-- The packet up to the IV, with its length fields patched.
unfoldable pub seal_prefix :
    IkeEnvelope → Outgoing → ℕ → ℕ → Option SkfHeader → ℕ → Outcome ProtectedError (List ℕ)
seal_prefix env o enc_type inner_next frag sealed_len = do
  let hdr = marshal_to (unpatched_header env o enc_type) []
  let pkt = (hdr ++ (inner_next ∷ 0 ∷ 0 ∷ 0 ∷ [])) ++ fragment_bytes frag
  let payload_len = payload_header_len + length (fragment_bytes frag) + sealed_len
  reject (ltb 0xffff payload_len) (payload_too_long payload_len)
  let packet_len = length pkt + sealed_len
  reject (ltb 0xffffffff packet_len) (packet_too_long packet_len)
  pkt' ← put_uint16 pkt (length hdr + 2) payload_len
  put_uint32 pkt' 24 packet_len

-- The ICV over the packet, for a cipher with no tag of its own.
unfoldable pub append_icv :
    IkeCrypto → EncryptionAlg → Option Integrity → List ℕ → List ℕ → Outcome ProtectedError (List ℕ)
append_icv c enc none key pkt = if enc.aead then ok pkt else err sign_failed
append_icv c enc (some integ) key pkt =
    if enc.aead
    then ok pkt
    else (or_fail (c.sign integ key pkt) sign_failed >>= λ icv. ok (pkt ++ icv))

-- One SK or SKF packet.
unfoldable pub seal_protected :
    IkeCrypto
    → IkeEnvelope
    → Selection
    → IkeKeys
    → Outgoing
    → ℕ
    → ℕ
    → Option SkfHeader
    → Option (List ℕ)
    → List ℕ
    → Outcome ProtectedError (List ℕ)
seal_protected c env sel keys o inner_next enc_type frag fill plaintext = do
  reject (invalid_fragment frag) (elim frag [
    | none ↦ invalid_iv_len
    | some f ↦ invalid_fragment_numbers f.fragment_number f.total_fragments
  ])
  enc ← of_elem sel.encryption
  reject (enc.iv_len == 0) invalid_iv_len
  icv_len ← outer_icv_len enc sel.integrity
  let padded = pad_ike_plaintext enc plaintext
  let sealed_len = if enc.aead then length padded + enc.icv_len else length padded
  pkt ← seal_prefix env o enc_type inner_next frag (enc.iv_len + sealed_len + icv_len)
  iv ← or_fail fill iv_failed
  let (enc_key, integ_key) = outbound_key_halves env keys
  sealed ← or_fail (c.seal enc enc_key iv (if enc.aead then pkt else []) padded) seal_failed
  append_icv c enc sel.integrity integ_key ((pkt ++ iv) ++ sealed)

-- The number of packets that a plaintext takes.
unfoldable pub fragment_count : IkeEnvelope → ℕ → List ℕ → ℕ
fragment_count env chunk plaintext =
    if env.supports_fragmentation && ltb chunk (length plaintext)
    then (length plaintext + chunk - 1) / chunk
    else 1

-- The part of packet `i` of `total`.
unfoldable pub part_of : ℕ → ℕ → ℕ → List ℕ → Outcome ProtectedError (List ℕ)
part_of total chunk i plaintext =
    if ltb 1 total
    then (let start = i * chunk in
        slice plaintext start
          (if ltb (length plaintext) (start + chunk) then length plaintext else start + chunk))
    else ok plaintext

abbrev pub frag_of : ℕ → ℕ → Option SkfHeader
frag_of total i =
    if ltb 1 total then some (record { fragment_number = i + 1; total_fragments = total }) else none

-- One round of the loop: packet `i`.
unfoldable pub build_one :
    IkeCrypto
    → IkeEnvelope
    → Selection
    → IkeKeys
    → Outgoing
    → ℕ
    → ℕ
    → ℕ
    → ℕ
    → Option (List ℕ)
    → List ℕ
    → Outcome ProtectedError (List ℕ)
build_one c env sel keys o next total chunk i fill plaintext =
    part_of total chunk i plaintext >>= λ part.
    seal_protected c env sel keys o (if i == 0 then next else payload_type_none)
      (if ltb 1 total then payload_type_skf else payload_type_sk) (frag_of total i) fill part

-- The loop, over the packets that are left; `ivs` holds what the generator gives for each.
unfoldable pub build_from :
    IkeCrypto
    → IkeEnvelope
    → Selection
    → IkeKeys
    → Outgoing
    → ℕ
    → ℕ
    → ℕ
    → ℕ
    → ℕ
    → (ℕ → Option (List ℕ))
    → List ℕ
    → Outcome ProtectedError (List (List ℕ))
build_from c env sel keys o next total chunk zero i ivs plaintext = ok []
build_from c env sel keys o next total chunk (suc left) i ivs plaintext = do
  frame ← build_one c env sel keys o next total chunk i (ivs i) plaintext
  frames ← build_from c env sel keys o next total chunk left (i + 1) ivs plaintext
  ok (frame ∷ frames)

abbrev pub build_with :
    IkeCrypto
    → IkeEnvelope
    → Option Selection
    → Option IkeKeys
    → Outgoing
    → ℕ
    → ℕ
    → (ℕ → Option (List ℕ))
    → List ℕ
    → Outcome ProtectedError (List (List ℕ))
build_with c env (some sel) (some keys) o next chunk ivs plaintext = do
  reject (env.initiator_spi == 0) no_initiator_spi
  let total = fragment_count env chunk plaintext
  reject (ltb 0xffff total) (too_many_fragments total)
  build_from c env sel keys o next total chunk total 0 ivs plaintext
build_with c env none keys o next chunk ivs plaintext = err no_cipher_state
build_with c env (some sel) none o next chunk ivs plaintext = err no_cipher_state

-- `limit` is the setting `FragmentPlaintextLimit`, where 0 stands for the default.
unfoldable pub build_protected :
    IkeCrypto
    → IkeEnvelope
    → Outgoing
    → ℕ
    → ℕ
    → (ℕ → Option (List ℕ))
    → List ℕ
    → Outcome ProtectedError (List (List ℕ))
build_protected c env o next limit ivs plaintext =
    build_with c env env.selected_ike env.ike_keys o next
      (if ltb 0 limit then limit else fragment_plaintext_limit) ivs plaintext
