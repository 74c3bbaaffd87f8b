-- ===== src/Control/Exchange.antt =====
-- Requests and their responses: control/exchange.go. A wait is a run over events: a packet, a
-- closed channel, a timeout, a cancelled context. Durations are numbers with no limit.
pub mod Response
pub mod WaitStep
pub mod Wait
use swan.Common.{
  ℕ, zero, suc, ◌+◌, ◌*◌, ◌^◌, ltb, leb, ◌==◌, if◌then◌else◌, Bool, true, false, ◌&&◌, ◌||◌, not,
  List, [], ◌∷◌, ◌++◌, length, take, Option, none, some, bit_and,
}
use swan.Common.Outcome.{Outcome, ok, err, panic, ◌>>=◌, ◌>>◌, reject}
use swan.Wire.Consts.{
  flag_response, flag_initiator, exchange_ike_sa_init, exchange_ike_auth, payload_type_notify,
  ike_default_version,
}
use swan.Wire.Header.{Spi, Header, spi_uint64, spi_is_zero, and_not, flags_mask}
use swan.Wire.Errors.{WireError}
use swan.Wire.Message.{Message, parse_message}
use swan.Transport.Frame.{Kind, kind_ike, kind_esp, kind_keepalive}

pub data Disposition : Type 0 where
  expected : Disposition
  duplicate_or_stale : Disposition
  ignore : Disposition

pub data ExchangeError : Type 0 where
  no_expectation : ExchangeError
  channel_closed : ExchangeError
  cancelled_wait : ExchangeError
  stale_message_id : ℕ → ℕ → ExchangeError
  future_message_id : ℕ → ℕ → ExchangeError
  initiator_spi_mismatch : ExchangeError
  responder_spi_mismatch : ExchangeError
  unexpected_exchange : ℕ → ℕ → ExchangeError
  unexpected_message_id : ℕ → ℕ → ExchangeError
  no_responder_spi : ExchangeError
  unexpected_version : ℕ → ExchangeError
  not_a_response : ExchangeError
  initiator_flag : Bool → Bool → ExchangeError
  reserved_flags : ℕ → ExchangeError
  no_checkpoint : ExchangeError
  checkpoint_mismatch : ExchangeError
  timed_out : ℕ → ExchangeError

pub record Checkpoint : Type 0 where
  pub message_id : ℕ
  pub packets : List (List ℕ)

-- The fields of the handshake's state that an exchange reads and writes. `has_fragments` says that
-- `InboundFragments` is not nil.
pub record ExchangeState : Type 0 where
  pub initiator_spi : ℕ
  pub responder_spi : ℕ
  pub is_original_initiator : Bool
  pub next_request_message_id : ℕ
  pub expected_response_message_id : ℕ
  pub has_expected_response : Bool
  pub last_completed_response_message_id : ℕ
  pub has_last_completed_response : Bool
  pub outbound_request : Option Checkpoint
  pub has_fragments : Bool
  pub first_ike_auth_seen : Bool

abbrev pub max_uint32 : ℕ
max_uint32 = 4294967295

-- The id of the request, and the state that expects its response.
unfoldable pub begin_request : ExchangeState → ExchangeState × ℕ
begin_request s =
    let id = s.next_request_message_id in
    (
      record s {
        expected_response_message_id = id;
        has_expected_response = true;
        next_request_message_id = if not (id == max_uint32) then id + 1 else id;
      },
      id,
    )

-- Frames go to the writer in order; `some k` ends the context behind the first `k` of them.
unfoldable pub write_frames :
    List (List ℕ) → Option ℕ → List (List ℕ) × Outcome ExchangeError (Unit {0})
write_frames frames none = (frames, ok tt)
write_frames frames (some k) =
    if ltb k (length frames) then (take k frames, err cancelled_wait) else (frames, ok tt)

-- `sendRequest`, and the frames that it writes: all of them, or `some k` before the context ends.
unfoldable pub send_request :
    ExchangeState
    → List (List ℕ)
    → Option ℕ
    → ExchangeState × List (List ℕ) × Outcome ExchangeError (Unit {0})
send_request s packets cut =
    if not s.has_expected_response
    then (s, [], err no_expectation)
    else (let s' : ExchangeState = record s {
      outbound_request =
          some (record { message_id = s.expected_response_message_id; packets = packets });
    } in
        let (sent, r) = write_frames packets cut in (s', sent, r))

unfoldable pub validate_envelope : Header → Bool → Outcome ExchangeError (Unit {0})
validate_envelope hdr local_original_initiator = do
  let has = not (bit_and hdr.flags flag_initiator == 0)
  let want = not local_original_initiator
  reject (not (hdr.version == ike_default_version)) (unexpected_version hdr.version)
  reject (bit_and hdr.flags flag_response == 0) not_a_response
  reject (has && not want || not has && want) (initiator_flag has want)
  reject (not (and_not hdr.flags flags_mask == 0)) (reserved_flags (and_not hdr.flags flags_mask))
  ok tt

-- Whether the header is of this SA. A responder SPI of 0 is not known yet.
abbrev pub is_ours : ExchangeState → Header → Bool
is_ours s hdr =
    spi_uint64 hdr.initiator_spi == s.initiator_spi
    && (s.responder_spi == 0 || spi_uint64 hdr.responder_spi == s.responder_spi)

unfoldable pub classify_response : ExchangeState → Header → ℕ → Outcome ExchangeError Disposition
classify_response s hdr msg_id = if not (is_ours s hdr) then ok ignore else (do
  validate_envelope hdr s.is_original_initiator
  let id = hdr.message_id
  if id == msg_id
      then ok expected
      else if ltb id msg_id
          && (s.has_last_completed_response && leb id s.last_completed_response_message_id)
      then ok duplicate_or_stale
      else if ltb id msg_id
      then err (stale_message_id id msg_id)
      else err (future_message_id id msg_id))

-- `validateResponseHeader`: the state, which may learn the responder's SPI.
unfoldable pub validate_response_header :
    ExchangeState → Header → ℕ → ℕ → Outcome ExchangeError ExchangeState
validate_response_header s hdr exchange msg_id = do
  validate_envelope hdr s.is_original_initiator
  reject (not (spi_uint64 hdr.initiator_spi == s.initiator_spi)) initiator_spi_mismatch
  reject (not (s.responder_spi == 0) && not (spi_uint64 hdr.responder_spi == s.responder_spi))
      responder_spi_mismatch
  reject (not (hdr.exchange_type == exchange)) (unexpected_exchange hdr.exchange_type exchange)
  reject (not (hdr.message_id == msg_id)) (unexpected_message_id hdr.message_id msg_id)
  if not (exchange == exchange_ike_sa_init)
      then ok s
      else if spi_is_zero hdr.responder_spi
      then (do reject (not (hdr.next_payload == payload_type_notify)) no_responder_spi; ok s)
      else ok (record s { responder_spi = spi_uint64 hdr.responder_spi })

pub record Timeouts : Type 0 where
  pub initial_rto : ℕ
  pub max_rto : ℕ
  pub max_retries : ℕ

-- The variables of `waitResponse`, and the frames that it wrote so far.
pub record Waiting : Type 0 where
  pub state : ExchangeState
  pub rto : ℕ
  pub retries : ℕ
  pub sent : List (List ℕ)

unfoldable pub start_waiting : Timeouts → ExchangeState → Waiting
start_waiting t s = record { state = s; rto = t.initial_rto; retries = 0; sent = [] }

pub data Event : Type 0 where
  packet : Kind → List ℕ → Event
  nil_packet : Event
  closed : Event
  timeout : Option ℕ → Event
  cancelled : Event

pub data Step : Type 0 where
  goes_on : Waiting → Step
  answered : Waiting → Message → Step
  fails : Waiting → ExchangeError → Step

abbrev is_expected : Disposition → Bool
is_expected expected = true
is_expected d = false

-- `handleInboundResponse` behind the parser: `none` is a packet to pass over. The packet that is
-- parsed again is a copy of the same bytes.
unfoldable pub classify_parsed :
    ExchangeState → ℕ → Outcome WireError Message → Outcome ExchangeError (Option Message)
classify_parsed s msg_id (err e) = ok none
classify_parsed s msg_id panic = panic
classify_parsed s msg_id (ok msg) = do
  d ← classify_response s msg.header msg_id
  ok (if is_expected d then some msg else none)

unfoldable pub handle_inbound :
    ExchangeState → Kind → List ℕ → ℕ → Outcome ExchangeError (Option Message)
handle_inbound s kind_esp payload msg_id = ok none
handle_inbound s kind_keepalive payload msg_id = ok none
handle_inbound s kind_ike payload msg_id = classify_parsed s msg_id (parse_message payload)

-- The bookkeeping of an accepted response.
unfoldable pub complete : ExchangeState → ℕ → ℕ → ExchangeState
complete s exchange msg_id = record s {
  first_ike_auth_seen = if exchange == exchange_ike_auth then true else s.first_ike_auth_seen;
  last_completed_response_message_id = msg_id;
  has_last_completed_response = true;
  outbound_request = none;
  has_fragments = false;
  has_expected_response = false;
}

unfoldable pub accept_response :
    Waiting → ℕ → ℕ → Message → Outcome ExchangeError ExchangeState → Outcome ExchangeError Step
accept_response w exchange msg_id msg panic = panic
accept_response w exchange msg_id msg (err e) = ok (fails w e)
accept_response w exchange msg_id msg (ok s) =
    ok (answered (record w { state = complete s exchange msg_id }) msg)

-- The branch of `waitResponse` for a packet that was handled.
unfoldable pub take_response :
    Waiting → ℕ → ℕ → Outcome ExchangeError (Option Message) → Outcome ExchangeError Step
take_response w exchange msg_id panic = panic
take_response w exchange msg_id (err e) = ok (fails w e)
take_response w exchange msg_id (ok none) = ok (goes_on w)
take_response w exchange msg_id (ok (some msg)) =
    accept_response w exchange msg_id msg
      (validate_response_header w.state msg.header exchange msg_id)

-- The doubled delay, up to its limit, when the frames went out.
abbrev back_off : Timeouts → Waiting → Outcome ExchangeError (Unit {0}) → Step
back_off t w (err e) = fails w e
back_off t w panic = fails w cancelled_wait
back_off t w (ok u) =
    goes_on (record w { rto = if ltb t.max_rto (w.rto * 2) then t.max_rto else w.rto * 2 })

-- The frames of the checkpoint once more.
unfoldable pub resend : Timeouts → Waiting → List (List ℕ) → Option ℕ → Step
resend t w frames cut =
    let (sent, r) = write_frames frames cut in
    back_off t
      (record w {
        state = record w.state { has_fragments = false };
        retries = w.retries + 1;
        sent = w.sent ++ sent;
      })
      r

unfoldable pub retransmit_checkpoint : Timeouts → Waiting → Option ℕ → Option Checkpoint → Step
retransmit_checkpoint t w cut none = fails w no_checkpoint
retransmit_checkpoint t w cut (some c) =
    if not (c.message_id == w.state.expected_response_message_id)
    then fails w checkpoint_mismatch
    else if leb t.max_retries w.retries
    then fails w (timed_out t.max_retries)
    else resend t w c.packets cut

abbrev pub retransmit : Timeouts → Waiting → Option ℕ → Step
retransmit t w cut = retransmit_checkpoint t w cut w.state.outbound_request

-- One turn of the loop of `waitResponse`.
unfoldable pub wait_step : Timeouts → ℕ → ℕ → Waiting → Event → Outcome ExchangeError Step
wait_step t exchange msg_id w (packet kind payload) =
    take_response w exchange msg_id (handle_inbound w.state kind payload msg_id)
wait_step t exchange msg_id w nil_packet = ok (goes_on w)
wait_step t exchange msg_id w closed = ok (fails w channel_closed)
wait_step t exchange msg_id w (timeout cut) = ok (retransmit t w cut)
wait_step t exchange msg_id w cancelled = ok (fails w cancelled_wait)

abbrev pub carry_on : (Waiting → Outcome ExchangeError Step) → Step → Outcome ExchangeError Step
carry_on next (goes_on w) = next w
carry_on next (answered w msg) = ok (answered w msg)
carry_on next (fails w e) = ok (fails w e)

-- The loop, over the events that come.
unfoldable pub wait_response : Timeouts → ℕ → ℕ → Waiting → List Event → Outcome ExchangeError Step
wait_response t exchange msg_id w [] = ok (goes_on w)
wait_response t exchange msg_id w (e ∷ es) =
    wait_step t exchange msg_id w e >>= carry_on (λ w'. wait_response t exchange msg_id w' es)
