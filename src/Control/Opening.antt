-- ===== src/Control/Opening.antt =====
-- Opening protected messages: `openProtectedRawState` and `openEncryptedBody` of
-- control/protected.go.
pub mod Body
pub mod Packet
pub mod RoundTrip
pub mod Frames
pub mod Steps
pub mod Delivery
use swan.Common.{
  ℕ, zero, suc, ◌+◌, ◌-◌, ltb, ◌==◌, if◌then◌else◌, Bool, true, false, ◌&&◌, ◌||◌, not, List, [],
  ◌∷◌, ◌++◌, length, Option, none, some,
}
use swan.Common.Outcome.{
  Outcome, ok, err, panic, ◌>>=◌, ◌>>◌, reject, index, slice, slice_from, of_elem,
}
use swan.Wire.Consts.{
  header_len, payload_header_len, skf_header_len, payload_type_none, payload_type_skf,
}
use swan.Wire.Errors.{WireError}
use swan.Wire.Be.{be_uint16}
use swan.Wire.Header.{Header, SkfHeader, parse_header, parse_skf_header}
use swan.Wire.Message.{Payload, EncryptedPayload, Chain, is_encrypted, parse_payloads}
use swan.Esp.Suite.{EncryptionAlg, Integrity, Selection, equal}
use swan.Control.Protected.{
  ProtectedError, IkeCrypto, IkeEnvelope, IkeKeys, first_payload_unset, from_wire, or_fail,
  no_cipher_state, header_truncated, length_out_of_bounds, not_terminal, truncated_skf,
  no_encrypted_payload, shorter_than_iv, shorter_than_icv, no_integrity, open_failed,
  integrity_failed, strip_ike_plaintext, inbound_key_halves,
}
use swan.Control.Reassembly.{FragmentReassembly, Arrival, Collected, collect_fragment}

-- `Integrity.Verify`.
unfoldable pub verify_icv : IkeCrypto → Integrity → List ℕ → List ℕ → List ℕ → Bool
verify_icv c integ key msg icv = elim (c.sign integ key msg) [
  | none ↦ false
  | some got ↦ length got == length icv && equal got icv
]

-- The part behind the IV, for a cipher with an ICV of `integ`.
unfoldable pub open_signed :
    IkeCrypto
    → EncryptionAlg
    → Option Integrity
    → List ℕ
    → List ℕ
    → List ℕ
    → List ℕ
    → List ℕ
    → Outcome ProtectedError (List ℕ)
open_signed c enc none enc_key icv_key aad iv rest = err no_integrity
open_signed c enc (some integ) enc_key icv_key aad iv rest = do
  reject (integ.key_len == 0) no_integrity
  reject (ltb (length rest) integ.output_len) shorter_than_icv
  ct ← slice rest 0 (length rest - integ.output_len)
  icv ← slice_from rest (length rest - integ.output_len)
  reject (not (verify_icv c integ icv_key ((aad ++ iv) ++ ct) icv)) integrity_failed
  plain ← or_fail (c.unseal enc enc_key iv [] ct) open_failed
  strip_ike_plaintext plain

unfoldable pub open_encrypted_body :
    IkeCrypto → Selection → List ℕ → List ℕ → List ℕ → List ℕ → Outcome ProtectedError (List ℕ)
open_encrypted_body c sel enc_key icv_key aad body = do
  enc ← of_elem sel.encryption
  reject (ltb (length body) enc.iv_len) shorter_than_iv
  iv ← slice body 0 enc.iv_len
  rest ← slice_from body enc.iv_len
  elim enc.aead [
    | true ↦ do
      plain ← or_fail (c.unseal enc enc_key iv aad rest) open_failed
      strip_ike_plaintext plain
    | false ↦ open_signed c enc sel.integrity enc_key icv_key aad iv rest
  ]

-- An SK or SKF payload: its type, where it starts in the packet, its length and its next payload.
pub record Located : Type 0 where
  pub type : ℕ
  pub start : ℕ
  pub len : ℕ
  pub inner_next : ℕ

-- The loop over the outer chain up to the encrypted payload, on fuel; that it runs out is a panic.
unfoldable pub locate : ℕ → List ℕ → List ℕ → ℕ → ℕ → Outcome ProtectedError Located
locate zero raw rest next off = panic
locate (suc fuel) raw rest next off = elim (next == payload_type_none) [
  | true ↦ err no_encrypted_payload
  | false ↦ do
    reject (ltb (length rest - off) payload_header_len) header_truncated
    lb ← slice rest (off + 2) (off + 4)
    len ← be_uint16 lb
    reject (ltb len payload_header_len || ltb (length rest) (off + len)) length_out_of_bounds
    inner_next ← index raw (header_len + off)
    elim (is_encrypted next) [
      | true ↦ do
        reject (not (off + len == length rest)) not_terminal
        ok (record { type = next; start = header_len + off; len = len; inner_next = inner_next })
      | false ↦ locate fuel raw rest inner_next (off + len)
    ]
]

-- The fragment header of an SKF payload.
unfoldable pub read_fragment_header : List ℕ → Located → Outcome ProtectedError (Option SkfHeader)
read_fragment_header raw l = if not (l.type == payload_type_skf) then ok none else (do
  let body_start = l.start + payload_header_len
  reject (ltb (l.start + l.len) (body_start + skf_header_len)) truncated_skf
  b ← slice raw body_start (body_start + skf_header_len)
  (frag, tail) ← from_wire (parse_skf_header b)
  ok (some frag))

abbrev iv_start : Located → Option SkfHeader → ℕ
iv_start l none = l.start + payload_header_len
iv_start l (some frag) = l.start + payload_header_len + skf_header_len

-- The fragment header, the encrypted body, and what it decrypts to.
pub record Opened : Type 0 where
  pub frag : Option SkfHeader
  pub body : List ℕ
  pub plain : List ℕ

unfoldable pub open_located :
    IkeCrypto → IkeEnvelope → Selection → IkeKeys → List ℕ → Located → Outcome ProtectedError Opened
open_located c env sel keys raw l = do
  frag ← read_fragment_header raw l
  aad ← slice raw 0 (iv_start l frag)
  body ← slice raw (iv_start l frag) (l.start + l.len)
  let (enc_key, integ_key) = inbound_key_halves env keys
  plain ← open_encrypted_body c sel enc_key integ_key aad body
  ok (record { frag = frag; body = body; plain = plain })

-- What opening a packet leaves: the set of fragments, and the inner payloads, or `none` while
-- fragments are missing.
abbrev pub OpenStep : Type 0
OpenStep = Option FragmentReassembly × Outcome ProtectedError (Option (List Payload))

abbrev pub inner_payloads : List ℕ → ℕ → Outcome ProtectedError (Option (List Payload))
inner_payloads plain next = from_wire (parse_payloads plain next false) >>= λ c. ok (some c.0)

abbrev pub first_of : Option FragmentReassembly → ℕ
first_of none = first_payload_unset
first_of (some t) = t.first_inner_payload

-- The joined plaintext is parsed from the first payload that the set had before this fragment.
abbrev pub of_collected : ℕ → ℕ → Collected → OpenStep
of_collected frag_first inner_next (t, err e) = (t, err e)
of_collected frag_first inner_next (t, panic) = (t, panic)
of_collected frag_first inner_next (t, ok none) = (t, ok none)
of_collected frag_first inner_next (t, ok (some joined)) = (
  t,
  inner_payloads joined
      (if not (frag_first == first_payload_unset) then frag_first else inner_next),
)

unfoldable pub finish_opened :
    Option FragmentReassembly → Located → Arrival → Outcome ProtectedError Opened → OpenStep
finish_opened t l a (err e) = (t, err e)
finish_opened t l a panic = (t, panic)
finish_opened t l a (ok o) = elim o.frag [
  | none ↦ (t, inner_payloads o.plain l.inner_next)
  | some frag ↦ of_collected (first_of t) l.inner_next (
      collect_fragment t
        (record {
          type = payload_type_skf;
          inner_next = l.inner_next;
          frag = some frag;
          body = o.body;
        })
        o.plain a)
]

abbrev arrival_of : ℕ → ℕ → Header → Arrival
arrival_of now timeout hdr = record {
  exchange = hdr.exchange_type;
  message_id = hdr.message_id;
  now = now;
  timeout = timeout;
}

abbrev open_found :
    IkeCrypto
    → IkeEnvelope
    → Selection
    → IkeKeys
    → Option FragmentReassembly
    → List ℕ
    → Arrival
    → Outcome ProtectedError Located
    → OpenStep
open_found c env sel keys t raw a (err e) = (t, err e)
open_found c env sel keys t raw a panic = (t, panic)
open_found c env sel keys t raw a (ok l) = finish_opened t l a (open_located c env sel keys raw l)

abbrev open_headed :
    IkeCrypto
    → IkeEnvelope
    → Selection
    → IkeKeys
    → Option FragmentReassembly
    → ℕ
    → ℕ
    → List ℕ
    → Outcome WireError (Header × List ℕ)
    → OpenStep
open_headed c env sel keys t now timeout raw (err e) = (t, err (ProtectedError.in_wire e))
open_headed c env sel keys t now timeout raw panic = (t, panic)
open_headed c env sel keys t now timeout raw (ok (hdr, rest)) =
    open_found c env sel keys t raw (arrival_of now timeout hdr)
      (locate (suc (length rest)) raw rest hdr.next_payload 0)

abbrev open_with :
    IkeCrypto
    → IkeEnvelope
    → Option Selection
    → Option IkeKeys
    → Option FragmentReassembly
    → ℕ
    → ℕ
    → List ℕ
    → OpenStep
open_with c env (some sel) (some keys) t now timeout raw =
    open_headed c env sel keys t now timeout raw (parse_header raw)
open_with c env none keys t now timeout raw = (t, err no_cipher_state)
open_with c env (some sel) none t now timeout raw = (t, err no_cipher_state)

-- `timeout` is the setting `SkfReassemblyTimeout`, where 0 stands for the default of 15 seconds.
unfoldable pub open_protected_raw :
    IkeCrypto → IkeEnvelope → Option FragmentReassembly → ℕ → ℕ → List ℕ → OpenStep
open_protected_raw c env t now timeout raw =
    open_with c env env.selected_ike env.ike_keys t now
      (if ltb 0 timeout then timeout else 15000000000) raw
