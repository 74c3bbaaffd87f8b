-- ===== src/Control/Exchange/Response.antt =====
-- What a packet that is taken for a response has: `handleInboundResponse` and
-- `validateResponseHeader` of control/exchange.go.
use swan.Common.{
  ℕ, ◌≡◌, ◌≢◌, ◌⊎◌, inl, inr, refl, arith, ltb, leb, ◌==◌, if◌then◌else◌, Bool, ◌&&◌, ◌||◌, not,
  List, Option, none, some, bit_and, Bool-cases, All, IsByte,
}
use swan.Common.Outcome.{Outcome, ok, err, panic, Ensures, >>=-Ensures, reject-Ensures, Ensures-if}
use swan.Wire.Header.{Header, spi_uint64, spi_is_zero, and_not, flags_mask}
use swan.Wire.Errors.{WireError}
use swan.Wire.Message.{Message, parse_message}
use swan.Wire.Message.Walk.{MessageOf, parse_message-Ensures}
use swan.Transport.Frame.{Kind, kind_ike, kind_esp, kind_keepalive}
use swan.Control.Exchange.{
  ExchangeState, Disposition, validate_envelope, validate_response_header, classify_response,
  handle_inbound, is_ours, is_expected, classify_parsed,
}

-- The header of a response to the request `msg_id` of the SA in `s`.
pub record Answers (s : ExchangeState) (exchange msg_id : ℕ) (h : Header) : Type 0 where
  pub initiator : spi_uint64 h.initiator_spi ≡ s.initiator_spi
  pub responder : (s.responder_spi ≡ 0) ⊎ (spi_uint64 h.responder_spi ≡ s.responder_spi)
  pub exchange_type : h.exchange_type ≡ exchange
  pub message_id : h.message_id ≡ msg_id
  pub response : bit_and h.flags 0x20 ≢ 0
  pub version : h.version ≡ 0x20

abbrev IsEnvelope : Header → Type 0
IsEnvelope h = (h.version ≡ 0x20) × (bit_and h.flags 0x20 ≢ 0)

validate_envelope-Ensures :
    (h : Header) (local : Bool) → Ensures (λ _. IsEnvelope h) (validate_envelope h local)
unfolding validate_envelope
validate_envelope-Ensures h local =
    let Q = λ (u : Unit {0}). IsEnvelope h in
    let has = not (bit_and h.flags 8 == 0) in
    let want = not local in
    reject-Ensures Q (not (h.version == 0x20)) _ _ λ v.
      reject-Ensures Q (bit_and h.flags 0x20 == 0) _ _ λ r.
        reject-Ensures Q (has && not want || not has && want) _ _ λ _.
          reject-Ensures Q (not (and_not h.flags flags_mask == 0)) _ _
            λ _. (ground (arith, v), ground (arith, r))

-- The state that is kept differs in the responder's SPI at most.
abbrev pub Validated : ExchangeState → ℕ → ℕ → Header → ExchangeState → Type 0
Validated s exchange msg_id h s' =
    Answers s exchange msg_id h × (s' ≡ record s { responder_spi = s'.responder_spi })

pub validate_response_header-Ensures :
    (s : ExchangeState) (h : Header) (exchange msg_id : ℕ)
    → Ensures (Validated s exchange msg_id h) (validate_response_header s h exchange msg_id)
unfolding validate_response_header
validate_response_header-Ensures s h exchange msg_id =
    let Q = Validated s exchange msg_id h in
    >>=-Ensures (λ (u : Unit {0}). IsEnvelope h) Q (validate_envelope h s.is_original_initiator) _
      (validate_envelope-Ensures h s.is_original_initiator)
      λ u k. reject-Ensures Q (not (spi_uint64 h.initiator_spi == s.initiator_spi)) _ _ λ i.
        reject-Ensures Q
          (not (s.responder_spi == 0) && not (spi_uint64 h.responder_spi == s.responder_spi)) _ _
          λ r. reject-Ensures Q (not (h.exchange_type == exchange)) _ _ λ x.
            reject-Ensures Q (not (h.message_id == msg_id)) _ _ λ m.
              let a : Answers s exchange msg_id h = record {
                initiator = ground (arith, i);
                responder = ground (arith, r);
                exchange_type = ground (arith, x);
                message_id = ground (arith, m);
                response = k.1;
                version = k.0;
              } in
              elim (Bool-cases (exchange == 34)) [
                | inr later ↦ rw later (a, refl)
                | inl init ↦ elim (Bool-cases (spi_is_zero h.responder_spi)) [
                  | inl z ↦
                      rw (init, z)
                        (reject-Ensures Q (not (h.next_payload == 41)) _ _ λ _. (a, refl))
                  | inr nz ↦ rw (init, nz) (a, refl)
                ]
              ]

-- What was handled of a packet: nothing, or its message.
abbrev pub Parsed : List ℕ → Option Message → Type 0
Parsed payload none = Unit
Parsed payload (some msg) = parse_message payload ≡ ok msg

abbrev Any : Disposition → Type 0
Any d = Unit

classify_response-Ensures :
    (s : ExchangeState) (h : Header) (msg_id : ℕ) → Ensures Any (classify_response s h msg_id)
unfolding classify_response
classify_response-Ensures s h msg_id = elim (Bool-cases (is_ours s h)) [
  | inr foreign ↦ rw foreign tt
  | inl ours ↦ rw ours (
      >>=-Ensures (λ (u : Unit {0}). IsEnvelope h) Any (validate_envelope h s.is_original_initiator)
        _ (validate_envelope-Ensures h s.is_original_initiator)
        λ u _. Ensures-if Any (h.message_id == msg_id) _ _ tt (
          Ensures-if Any
            (ltb h.message_id msg_id
              && (s.has_last_completed_response
                  && leb h.message_id s.last_completed_response_message_id))
            _ _ tt (Ensures-if Any (ltb h.message_id msg_id) _ _ tt tt)))
]

classify_parsed-Ensures :
    (s : ExchangeState) (msg_id : ℕ) (payload : List ℕ) (m : Outcome WireError Message)
    → parse_message payload ≡ m
    → Ensures (MessageOf payload) m
    → Ensures (Parsed payload) (classify_parsed s msg_id m)
unfolding classify_parsed
classify_parsed-Ensures s msg_id payload (err x) e k = tt
classify_parsed-Ensures s msg_id payload panic e k = k
classify_parsed-Ensures s msg_id payload (ok msg) e k =
    >>=-Ensures Any (Parsed payload) (classify_response s msg.header msg_id) _
      (classify_response-Ensures s msg.header msg_id) λ d _. known d
  where
    known : (d : Disposition) → Parsed payload (if is_expected d then some msg else none)
    known Disposition.expected = e
    known Disposition.duplicate_or_stale = tt
    known Disposition.ignore = tt

pub handle_inbound-Ensures :
    (s : ExchangeState) (kind : Kind) (payload : List ℕ) (msg_id : ℕ)
    → All IsByte payload
    → Ensures (Parsed payload) (handle_inbound s kind payload msg_id)
unfolding handle_inbound
handle_inbound-Ensures s kind_esp payload msg_id b = tt
handle_inbound-Ensures s kind_keepalive payload msg_id b = tt
handle_inbound-Ensures s kind_ike payload msg_id b =
    classify_parsed-Ensures s msg_id payload (parse_message payload) refl
      (parse_message-Ensures payload b)
