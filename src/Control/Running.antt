-- ===== src/Control/Running.antt =====
-- The peer's INFORMATIONAL requests to a running IKE SA: control/running.go. A request comes decrypted. Those
-- to a retained old SA and CREATE_CHILD_SA requests are left out.
pub mod History
pub mod Served
pub mod Once
use swan.Common.{
  ℕ, ◌+◌, ◌-◌, ltb, leb, ◌==◌, if◌then◌else◌, Bool, true, false, ◌&&◌, ◌||◌, not, List, [], ◌∷◌,
  ◌++◌, length, drop, Option, none, some,
}
use swan.Common.Bits.{byte_at}
use swan.Common.Outcome.{Outcome, ok, err, panic, ◌>>=◌, ◌>>◌, reject}
use swan.Wire.Consts.{config_type_set, config_type_ack, delete_protocol_ike, delete_protocol_esp}
use swan.Wire.Message.{Payload}
use swan.Payload.Errors.{PayloadError}
use swan.Payload.Notify.{Delete, parse_delete}
use swan.Payload.Config.{ConfigPayload, parse_config_payload, append_config_payload}
use swan.Control.Protected.{
  ProtectedError, IkeCrypto, IkeEnvelope, Outgoing, response_flags, build_protected,
}
use swan.Control.Assigned.{
  AssignedConfig, AssignedMask, AssignedError, decode_assigned, next_assigned,
}

abbrev pub max_inbound_response_history : ℕ
max_inbound_response_history = 4

abbrev pub payload_type_delete : ℕ
payload_type_delete = 42

abbrev pub payload_type_cp : ℕ
payload_type_cp = 47

abbrev pub exchange_informational : ℕ
exchange_informational = 37

pub data RunningError : Type 0 where
  stale_request : ℕ → ℕ → RunningError
  bad_payload : PayloadError → RunningError
  bad_assigned : AssignedError → RunningError
  bad_protected : ProtectedError → RunningError
  unexpected_payload : RunningError
  multiple_deletes : RunningError
  no_delete : RunningError
  ike_delete_with_spis : RunningError
  esp_delete_spis : RunningError
  unsupported_delete : ℕ → RunningError
  canceled : RunningError

abbrev pub of_payload {ℓ} : {A : Type ℓ} → Outcome PayloadError A → Outcome RunningError A
of_payload (ok a) = ok a
of_payload (err e) = err (bad_payload e)
of_payload panic = panic

abbrev pub of_assigned {ℓ} : {A : Type ℓ} → Outcome AssignedError A → Outcome RunningError A
of_assigned (ok a) = ok a
of_assigned (err e) = err (bad_assigned e)
of_assigned panic = panic

abbrev pub of_protected {ℓ} : {A : Type ℓ} → Outcome ProtectedError A → Outcome RunningError A
of_protected (ok a) = ok a
of_protected (err e) = err (bad_protected e)
of_protected panic = panic

pub record ChildSa : Type 0 where
  pub inbound_spi : ℕ
  pub outbound_spi : ℕ
  pub tsi : List ℕ
  pub tsr : List ℕ
  pub local_child_initiator : Bool

pub record CachedResponse : Type 0 where
  pub message_id : ℕ
  pub response_packets : List (List ℕ)

-- What is offered to the session's data plane.
pub data DataplaneUpdate : Type 0 where
  child_deleted : ChildSa → DataplaneUpdate
  assigned_config : AssignedConfig → DataplaneUpdate

-- The fields of State that these requests touch. `deleting_old` is the phase in which the delete of an old
-- child is in flight, `stopped` the phase of a closed SA; `updates` is what was offered, the last
-- first.
pub record RunningState : Type 0 where
  pub deleting_old : Bool
  pub stopped : Bool
  pub active_child : Option ChildSa
  pub old_child : Option ChildSa
  pub assigned : Option AssignedConfig
  pub inbound_history : List CachedResponse
  pub envelope : IkeEnvelope
  pub updates : List DataplaneUpdate

unfoldable pub remember_response : List CachedResponse → CachedResponse → List CachedResponse
remember_response history entry =
    let all : List CachedResponse = history ++ (entry ∷ []) in
    if ltb max_inbound_response_history (length all)
    then drop (length all - max_inbound_response_history) all
    else all

abbrev or_entry : Option (List (List ℕ)) → CachedResponse → ℕ → Option (List (List ℕ))
or_entry (some frames) entry id = some frames
or_entry none entry id = if entry.message_id == id then some entry.response_packets else none

-- The search goes from the last entry to the first.
unfoldable pub replay_cached_frames : List CachedResponse → ℕ → Option (List (List ℕ))
replay_cached_frames [] id = none
replay_cached_frames (entry ∷ entries) id = or_entry (replay_cached_frames entries id) entry id

abbrev pub newest : List CachedResponse → Option CachedResponse
newest [] = none
newest (x ∷ []) = some x
newest (x ∷ y ∷ ys) = newest (y ∷ ys)

-- The data plane is told of a child, whose field is then cleared.
unfoldable pub drop_active : RunningState → ℕ → Option ChildSa → RunningState
drop_active s spi none = s
drop_active s spi (some child) =
    if spi == child.outbound_spi
    then record s { active_child = none; updates = child_deleted child ∷ s.updates }
    else s

unfoldable pub delete_child : RunningState → ℕ → Option ChildSa → RunningState
delete_child s spi none = drop_active s spi s.active_child
delete_child s spi (some old) =
    if spi == old.outbound_spi
    then record s {
      old_child = none;
      deleting_old = false;
      updates = child_deleted old ∷ s.updates;
    }
    else drop_active s spi s.active_child

unfoldable pub only_delete : Option Delete → List Payload → Outcome RunningError (Option Delete)
only_delete seen [] = ok seen
only_delete seen (p ∷ ps) = do
  reject (not (p.type == payload_type_delete)) unexpected_payload
  d ← of_payload (parse_delete p.body)
  reject (is_some seen) multiple_deletes
  only_delete (some d) ps
  where
    is_some : Option Delete → Bool
    is_some none = false
    is_some (some d) = true

-- What a request did: the new state, whether the peer shuts the SA down, and whether it is answered by CFG_ACK.
abbrev pub Handled : Type 0
Handled = RunningState × Bool × Bool

unfoldable pub delete_esp : RunningState → List ℕ → Outcome RunningError Handled
delete_esp s (spi ∷ []) = ok (delete_child s spi s.old_child, false, false)
delete_esp s spis = err esp_delete_spis

unfoldable pub apply_delete : RunningState → Option Delete → Outcome RunningError Handled
apply_delete s none = err no_delete
apply_delete s (some d) =
    if d.protocol_id == delete_protocol_ike
    then reject (not (length d.spis == 0)) ike_delete_with_spis >> ok (s, true, false)
    else if d.protocol_id == delete_protocol_esp
    then delete_esp s d.spis
    else err (unsupported_delete d.protocol_id)

unfoldable pub apply_config_set : RunningState → List ℕ → Outcome RunningError Handled
apply_config_set s body = do
  cp ← of_payload (parse_config_payload body)
  reject (not (cp.kind == config_type_set)) unexpected_payload
  (incoming, present) ← of_assigned (decode_assigned cp.attributes)
  let next : AssignedConfig = next_assigned false incoming present s.assigned
  ok (record s { assigned = some next; updates = assigned_config next ∷ s.updates }, false, true)

unfoldable pub handle_informational : RunningState → List Payload → Outcome RunningError Handled
handle_informational s [] = ok (s, false, false)
handle_informational s (p ∷ []) =
    if p.type == payload_type_cp
    then apply_config_set s p.body
    else (only_delete none (p ∷ []) >>= λ d. apply_delete s d)
handle_informational s ps = only_delete none ps >>= λ d. apply_delete s d

abbrev single_payload : List ℕ → List ℕ
single_payload body =
    let total : ℕ = 4 + length body in 0 ∷ 0 ∷ byte_at total 8 ∷ byte_at total 0 ∷ body

-- The next payload and the body of the answer.
unfoldable pub answer_body : Bool → Outcome RunningError (ℕ × List ℕ)
answer_body false = ok (0, [])
answer_body true = do
  body ← of_payload (append_config_payload [] (record { kind = config_type_ack; attributes = [] }))
  ok (payload_type_cp, single_payload body)

-- The fields that ClearSession clears, of those here.
unfoldable pub clear_session : RunningState → RunningState
clear_session s = record s {
  active_child = none;
  old_child = none;
  assigned = none;
  inbound_history = [];
  envelope = record s.envelope { ike_keys = none };
}

-- A decrypted request, its exchange, the IVs that the random source gives for the answer, and whether the
-- context still lives when frames are sent.
pub record RunningRequest : Type 0 where
  pub message_id : ℕ
  pub exchange : ℕ
  pub inner : List Payload
  pub ivs : ℕ → Option (List ℕ)
  pub alive : Bool

-- What was sent for a request, and whether the SA goes on.
pub data Reply : Type 0 where
  ignored : Reply
  resent : List (List ℕ) → Reply
  answered : List (List ℕ) → Reply
  shut_down : List (List ℕ) → Reply

abbrev pub RunningStep : Type 0
RunningStep = RunningState × Outcome RunningError Reply

-- Behind the sending of the answer.
unfoldable pub conclude_informational : Bool → RunningState → CachedResponse → RunningStep
conclude_informational shutdown s entry =
    let after : RunningState = record s {
      inbound_history = remember_response s.inbound_history entry;
    } in
    if shutdown
    then (record (clear_session after) { stopped = true }, ok (shut_down entry.response_packets))
    else (after, ok (answered entry.response_packets))

-- The frames are sent unless the context has ended.
unfoldable pub send_answer :
    RunningRequest → Bool → RunningState → Outcome RunningError (List (List ℕ)) → RunningStep
send_answer r shutdown s (err e) = (s, err e)
send_answer r shutdown s panic = (s, panic)
send_answer r shutdown s (ok frames) =
    if r.alive
    then conclude_informational shutdown s
        (record { message_id = r.message_id; response_packets = frames })
    else (s, err canceled)

unfoldable pub answer_handled :
    IkeCrypto → RunningRequest → RunningState → Outcome RunningError Handled → RunningStep
answer_handled c r s (err e) = (s, err e)
answer_handled c r s panic = (s, panic)
answer_handled c r s (ok (after, shutdown, cfg_ack)) = send_answer r shutdown after (
    answer_body cfg_ack >>= λ (next, body). of_protected (
      build_protected c after.envelope
        (record {
          exchange = exchange_informational;
          message_id = r.message_id;
          flags = response_flags after.envelope;
        })
        next 0 r.ivs body))

unfoldable pub process_informational : IkeCrypto → RunningState → RunningRequest → RunningStep
process_informational c s r = answer_handled c r s (handle_informational s r.inner)

unfoldable pub dispatch_exchange : IkeCrypto → RunningState → RunningRequest → RunningStep
dispatch_exchange c s r =
    if r.exchange == exchange_informational then process_informational c s r else (s, ok ignored)

unfoldable pub check_stale :
    IkeCrypto → RunningState → RunningRequest → Option CachedResponse → RunningStep
check_stale c s r none = dispatch_exchange c s r
check_stale c s r (some last) =
    if leb r.message_id last.message_id
    then (s, err (stale_request r.message_id last.message_id))
    else dispatch_exchange c s r

unfoldable pub answer_or_replay :
    IkeCrypto → RunningState → RunningRequest → Option (List (List ℕ)) → RunningStep
answer_or_replay c s r (some frames) =
    if r.alive then (s, ok (resent frames)) else (s, err canceled)
answer_or_replay c s r none = check_stale c s r (newest s.inbound_history)

abbrev pub process_request : IkeCrypto → RunningState → RunningRequest → RunningStep
process_request c s r = answer_or_replay c s r (replay_cached_frames s.inbound_history r.message_id)
