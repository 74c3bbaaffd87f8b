-- ===== src/Eap/Mschapv2/Machine.antt =====
-- The state machine of the EAP-MSCHAPv2 peer: eap/mschapv2/mschapv2.go. Each call gets the packet and
-- what the random source gives for a peer challenge, none for an error.
pub mod Trust
pub mod Steps
pub mod Export
use swan.Common.{
  ℕ, ◌+◌, ltb, leb, ◌==◌, if◌then◌else◌, Bool, true, false, ◌&&◌, ◌||◌, not, List, [], ◌∷◌, ◌++◌,
  length, drop, bit_or, Option, none, some,
}
use swan.Common.Bits.{shl, byte_at}
use swan.Common.Outcome.{Outcome, ok, err, panic, ◌>>=◌, ◌>>◌, reject, index, slice, slice_from}
use swan.Eap.Packet.{
  EapError, EapPacket, code_request, code_response, code_success, code_failure, parse_eap,
  build_request,
}
use swan.Eap.Avp.{type_identity}
use swan.Eap.Mschapv2.Text.{
  MschapError, bad_eap, identity_empty, password_empty, method_failed, success_without_challenge,
  failure_without_challenge, success_before_verified, eap_failure, unsupported_eap_code,
  payload_too_short, invalid_length, unexpected_challenge, challenge_too_short,
  unsupported_challenge_size, no_random, unexpected_in_state, id_mismatch, authentication_failed,
  unsupported_opcode, challenge_len, verify_success, parse_failure_tokens,
}
use swan.Eap.Mschapv2.Derive.{
  MschapCrypto, generate_nt_response, generate_authenticator_response, generate_msk,
}

abbrev pub op_challenge : ℕ
op_challenge = 1

abbrev pub op_response : ℕ
op_response = 2

abbrev pub op_success : ℕ
op_success = 3

abbrev pub op_failure : ℕ
op_failure = 4

abbrev pub type_nak : ℕ
type_nak = 3

abbrev pub type_mschapv2 : ℕ
type_mschapv2 = 26

pub data Phase : Type 0 where
  negotiating : Phase
  challenging : Phase
  verifying : Phase
  completed : Phase
  failed : Phase

-- The challenge in flight.
pub record ChallengeState : Type 0 where
  pub mschap_id : ℕ
  pub expecting_success : Bool
  pub auth_hex : List ℕ
  pub msk : List ℕ

pub record Method : Type 0 where
  pub identity : List ℕ
  pub password : List ℕ
  pub phase : Phase
  pub state : Option ChallengeState

-- The action of a step, with its response or its exported key.
pub data Result : Type 0 where
  action_send : List ℕ → Result
  action_complete : List ℕ → Result

-- A method with what a call on it returned.
abbrev pub Step : Type 0 → Type 0
Step A = Method × Outcome MschapError A

abbrev pub from_eap : Outcome EapError (List ℕ) → Outcome MschapError (List ℕ)
from_eap (ok b) = ok b
from_eap (err e) = err (bad_eap e)
from_eap panic = panic

abbrev pub reset_method : Method → Method
reset_method m = record m { phase = negotiating; state = none }

unfoldable pub initialize : Method → Step (Unit {0})
initialize m =
    if length m.identity == 0
    then (m, err identity_empty)
    else if length m.password == 0
    then (m, err password_empty)
    else (reset_method m, ok tt)

abbrev pub close : Method → Method
close m = record m { state = none; phase = failed }

abbrev pub is_failed : Phase → Bool
is_failed failed = true
is_failed p = false

unfoldable pub nak_response : ℕ → Outcome MschapError (List ℕ)
nak_response eap_id = from_eap (build_request code_response eap_id type_nak (type_mschapv2 ∷ []))

-- What stands behind the first backslash, or all.
unfoldable pub after_backslash : List ℕ → List ℕ → List ℕ
after_backslash whole [] = whole
after_backslash whole (c ∷ cs) = let rest = after_backslash whole cs in if c == 92 then cs else rest

abbrev pub extract_username : List ℕ → List ℕ
extract_username identity = after_backslash identity identity

unfoldable pub build_response : ℕ → ℕ → List ℕ → List ℕ → List ℕ → Outcome MschapError (List ℕ)
build_response eap_id mschap_id peer_challenge nt_response identity =
    let rest : List ℕ =
      49 ∷ (peer_challenge ++ (0 ∷ 0 ∷ 0 ∷ 0 ∷ 0 ∷ 0 ∷ 0 ∷ 0 ∷ (nt_response ++ (0 ∷ identity)))) in
    let n : ℕ = 4 + length rest in
    from_eap (
      build_request code_response eap_id type_mschapv2
        (op_response ∷ mschap_id ∷ byte_at n 8 ∷ byte_at n 0 ∷ rest))

unfoldable pub build_success : ℕ → Outcome MschapError (List ℕ)
build_success eap_id = from_eap (build_request code_response eap_id type_mschapv2 (op_success ∷ []))

-- The fields of a MSCHAPv2 request.
pub record MschapRequest : Type 0 where
  pub opcode : ℕ
  pub mschap_id : ℕ
  pub data' : List ℕ

unfoldable pub read_request : List ℕ → Outcome MschapError MschapRequest
read_request payload = do
  reject (ltb (length payload) 4) payload_too_short
  opcode ← index payload 0
  mschap_id ← index payload 1
  hi ← index payload 2
  lo ← index payload 3
  let declared : ℕ = bit_or (shl 64 hi 8) lo
  reject (ltb declared 4 || not (declared == length payload)) invalid_length
  data' ← slice_from payload 4
  ok (record { opcode = opcode; mschap_id = mschap_id; data' = data' })

abbrev pub is_expecting : Option ChallengeState → Bool
is_expecting none = false
is_expecting (some s) = s.expecting_success

abbrev pub of_random : Option (List ℕ) → Outcome MschapError (List ℕ)
of_random none = err no_random
of_random (some r) = ok r

-- What answers a challenge, and what the peer keeps of it.
pub record Answer : Type 0 where
  pub auth_hex : List ℕ
  pub msk : List ℕ
  pub response : List ℕ

unfoldable pub answer_challenge :
    MschapCrypto → Method → Option (List ℕ) → ℕ → ℕ → List ℕ → Outcome MschapError Answer
answer_challenge c m random eap_id mschap_id data' = do
  reject (is_expecting m.state) unexpected_challenge
  reject (leb (length data') (challenge_len + 1)) challenge_too_short
  value_size ← index data' 0
  reject (not (value_size == challenge_len)) (unsupported_challenge_size value_size)
  auth ← slice data' 1 (1 + challenge_len)
  peer ← of_random random
  let username : List ℕ = extract_username m.identity
  nt_response ← generate_nt_response c peer auth username m.password
  let auth_hex : List ℕ =
      generate_authenticator_response c peer auth username m.password nt_response
  msk ← generate_msk c m.password nt_response
  resp ← build_response eap_id mschap_id peer nt_response m.identity
  ok (record { auth_hex = auth_hex; msk = msk; response = resp })

abbrev pub await_success : Method → ℕ → Outcome MschapError Answer → Step (List ℕ)
await_success m mschap_id (ok a) = (
  record m {
    state = some (record {
      mschap_id = mschap_id;
      expecting_success = true;
      auth_hex = a.auth_hex;
      msk = a.msk;
    });
  },
  ok a.response,
)
await_success m mschap_id (err e) = (m, err e)
await_success m mschap_id panic = (m, panic)

abbrev pub check_open : ChallengeState → ℕ → Outcome MschapError (Unit {0})
check_open s mschap_id =
    reject (not s.expecting_success) unexpected_in_state
    >> reject (not (s.mschap_id == mschap_id)) (id_mismatch s.mschap_id mschap_id)

unfoldable pub check_success : ChallengeState → ℕ → ℕ → List ℕ → Outcome MschapError (List ℕ)
check_success s eap_id mschap_id data' =
    check_open s mschap_id >> (verify_success data' s.auth_hex >> build_success eap_id)

abbrev pub settle : Method → ChallengeState → Outcome MschapError (List ℕ) → Step (List ℕ)
settle m s (ok resp) = (record m { state = some (record s { expecting_success = false }) }, ok resp)
settle m s (err e) = (m, err e)
settle m s panic = (m, panic)

unfoldable pub on_success : Method → Option ChallengeState → ℕ → ℕ → List ℕ → Step (List ℕ)
on_success m none eap_id mschap_id data' = (m, err success_without_challenge)
on_success m (some s) eap_id mschap_id data' = settle m s (check_success s eap_id mschap_id data')

unfoldable pub on_failure : Option ChallengeState → ℕ → List ℕ → Outcome MschapError (Unit {0})
on_failure none mschap_id data' = err failure_without_challenge
on_failure (some s) mschap_id data' = do check_open s mschap_id; parse_failure_tokens data'

-- Behind a failure that the server reports there is no challenge any more.
abbrev pub give_up : Method → Outcome MschapError (Unit {0}) → Step (List ℕ)
give_up m (ok u) = (record m { state = none }, err authentication_failed)
give_up m (err e) = (m, err e)
give_up m panic = (m, panic)

unfoldable pub on_read :
    MschapCrypto → Method → Option (List ℕ) → ℕ → Outcome MschapError MschapRequest → Step (List ℕ)
on_read c m random eap_id (err e) = (record m { phase = failed }, err e)
on_read c m random eap_id panic = (m, panic)
on_read c m random eap_id (ok r) =
    if r.opcode == op_challenge
    then await_success m r.mschap_id (answer_challenge c m random eap_id r.mschap_id r.data')
    else if r.opcode == op_success
    then on_success m m.state eap_id r.mschap_id r.data'
    else if r.opcode == op_failure
    then give_up m (on_failure m.state r.mschap_id r.data')
    else (m, err (unsupported_opcode r.opcode))

abbrev pub on_request : MschapCrypto → Method → Option (List ℕ) → ℕ → List ℕ → Step (List ℕ)
on_request c m random eap_id payload = on_read c m random eap_id (read_request payload)

abbrev pub sent : Outcome MschapError (List ℕ) → Outcome MschapError Result
sent (ok resp) = ok (action_send resp)
sent (err e) = err e
sent panic = panic

abbrev pub of_request : Step (List ℕ) → Step Result
of_request (m, ok resp) = (m, ok (action_send resp))
of_request (m, err e) = (record m { phase = failed }, err e)
of_request (m, panic) = (m, panic)

abbrev pub phase_of : Option ChallengeState → Phase
phase_of none = challenging
phase_of (some s) = verifying

unfoldable pub on_eap_success : Method → Option ChallengeState → Step Result
on_eap_success m none = (record m { phase = failed }, err success_without_challenge)
on_eap_success m (some s) =
    if s.expecting_success
    then (record m { phase = failed }, err success_before_verified)
    else (record m { phase = completed }, ok (action_complete s.msk))

unfoldable pub on_eap_request : MschapCrypto → Method → Option (List ℕ) → EapPacket → Step Result
on_eap_request c m random pkt =
    if pkt.type == type_identity
    then (
      record m { phase = negotiating },
      sent (from_eap (build_request code_response pkt.identifier type_identity m.identity)),
    )
    else if pkt.type == type_mschapv2
    then of_request
        (on_request c (record m { phase = phase_of m.state }) random pkt.identifier pkt.data')
    else (record m { phase = negotiating }, sent (nak_response pkt.identifier))

unfoldable pub on_packet :
    MschapCrypto → Method → Option (List ℕ) → Outcome EapError EapPacket → Step Result
on_packet c m random (err e) = (record m { phase = failed }, err (bad_eap e))
on_packet c m random panic = (m, panic)
on_packet c m random (ok pkt) =
    if pkt.code == code_request
    then on_eap_request c m random pkt
    else if pkt.code == code_success
    then on_eap_success m m.state
    else if pkt.code == code_failure
    then (record m { phase = failed }, err (eap_failure pkt.identifier))
    else (record m { phase = failed }, err (unsupported_eap_code pkt.code))

unfoldable pub handle : MschapCrypto → Method → Option (List ℕ) → List ℕ → Step Result
handle c m random packet =
    if is_failed m.phase then (m, err method_failed) else on_packet c m random (parse_eap packet)
