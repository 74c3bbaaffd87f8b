-- ===== src/Wire/Message.antt =====
-- The payload chain of an IKE message and its terminal SK or SKF envelope: wire/message.go.
pub mod Safety
pub mod Walk
use swan.Common.{
  ℕ, zero, suc, ◌-◌, ltb, ◌==◌, if◌then◌else◌, Bool, true, false, ◌||◌, not, List, [], ◌∷◌, ◌++◌,
  length, bit_and, Option, none, some,
}
use swan.Common.Outcome.{Outcome, ok, err, panic, ◌>>=◌, ◌>>◌, reject, index, slice, slice_from}
use swan.Wire.Consts.{payload_header_len, payload_type_none, payload_type_sk, payload_type_skf}
use swan.Wire.Errors.{
  WireError, payload_header, payload_length, not_terminal, unexpected_encrypted, trailing_bytes,
}
use swan.Wire.Be.{be_uint16}
use swan.Wire.Header.{Header, SkfHeader, parse_header, parse_skf_header}

pub record Payload : Type 0 where
  pub type : ℕ
  pub critical : Bool
  pub next : ℕ
  pub body : List ℕ

-- `frag` holds the fragment header exactly when the envelope is fragmented.
pub record EncryptedPayload : Type 0 where
  pub type : ℕ
  pub inner_next : ℕ
  pub frag : Option SkfHeader
  pub body : List ℕ

pub record Message : Type 0 where
  pub header : Header
  pub payloads : List Payload
  pub encrypted : Option EncryptedPayload

abbrev pub is_encrypted : ℕ → Bool
is_encrypted t = t == payload_type_sk || t == payload_type_skf

-- One round of the loop up to the test for SK and SKF: the payload at the front of `rest`, and
-- its declared length.
unfoldable pub read_payload : List ℕ → ℕ → Outcome WireError (Payload × ℕ)
read_payload rest next = do
  reject (ltb (length rest) payload_header_len) (payload_header next (length rest))
  payload_next ← index rest 0
  b1 ← index rest 1
  lb ← slice rest 2 4
  len ← be_uint16 lb
  reject (ltb len payload_header_len) (payload_length next len)
  reject (ltb (length rest) len) (payload_length next len)
  body ← slice rest payload_header_len len
  ok (
    record { type = next; critical = not (bit_and b1 0x80 == 0); next = payload_next; body = body },
    len,
  )

-- The branch for SK and SKF, at `trailing` bytes behind the payload.
unfoldable pub read_envelope : Payload → ℕ → Bool → Outcome WireError EncryptedPayload
read_envelope p trailing stop_at_encrypted = do
  reject (not stop_at_encrypted) (unexpected_encrypted p.type)
  reject (not (trailing == 0)) (not_terminal p.type trailing)
  if p.type == payload_type_skf
      then (do
        (frag, tail) ← parse_skf_header p.body
        ok (record { type = p.type; inner_next = p.next; frag = some frag; body = tail }))
      else ok (record { type = p.type; inner_next = p.next; frag = none; body = p.body })

abbrev pub Chain : Type 0
Chain = List Payload × Option EncryptedPayload

-- The loop of `ParsePayloads` on fuel; that fuel runs out is written as a panic.
unfoldable pub parse_chain : ℕ → List ℕ → ℕ → Bool → List Payload → Outcome WireError Chain
parse_chain zero rest next stop_at_encrypted payloads = panic
parse_chain (suc fuel) rest next stop_at_encrypted payloads = elim (next == payload_type_none) [
  | true ↦ reject (not (length rest == 0)) (trailing_bytes (length rest)) >> ok (payloads, none)
  | false ↦ do
    (p, len) ← read_payload rest next
    if is_encrypted next
        then (do
          envelope ← read_envelope p (length rest - len) stop_at_encrypted
          ok (payloads, some envelope))
        else (do
          tail ← slice_from rest len
          parse_chain fuel tail p.next stop_at_encrypted (payloads ++ (p ∷ [])))
]

-- A payload takes four bytes at least, so one round more than there are bytes is enough.
unfoldable pub parse_payloads : List ℕ → ℕ → Bool → Outcome WireError Chain
parse_payloads buf first stop_at_encrypted =
    parse_chain (suc (length buf)) buf first stop_at_encrypted []

unfoldable pub parse_message : List ℕ → Outcome WireError Message
parse_message b = do
  (hdr, rest) ← parse_header b
  (payloads, encrypted) ← parse_payloads rest hdr.next_payload true
  ok (record { header = hdr; payloads = payloads; encrypted = encrypted })

-- The first payload of a type.
unfoldable pub find_payload : List Payload → ℕ → Option Payload
find_payload [] t = none
find_payload (p ∷ ps) t = if p.type == t then some p else find_payload ps t
