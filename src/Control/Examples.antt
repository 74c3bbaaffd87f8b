-- ===== src/Control/Examples.antt =====
-- The theorems on rekey collisions and on waits for a response at concrete inputs.
use swan.Common.{
  ℕ, ◌-◌, ◌≡◌, ◌⊎◌, refl, sym, ap, ◌∙◌, arith, List, [], ◌∷◌, ◌++◌, length, take,
  take-append_length, length-append, true, false, Option, none, some,
}
use swan.Common.Outcome.{ok, Ensures}
use swan.Common.Bytes.{are_bytes-All}
use swan.Transport.Frame.{kind_ike, kind_esp}
use swan.Esp.Suite.{EncryptionAlg, Selection}
use swan.Control.Protected.{
  IkeKeys, IkeEnvelope, IkeCrypto, Outgoing, outbound_key_halves, fragment_count, build_protected,
}
use swan.Control.Protected.Parts.{chunks}
use swan.Control.Reassembly.Slots.{Fragmented, has, covers, concat}
use swan.Control.Reassembly.AnyOrder.{Part, deliver, deliver-covers}
use swan.Control.Opening.{inner_payloads}
use swan.Control.Opening.Body.{Keyed}
use swan.Control.Opening.Packet.{IsOutgoing}
use swan.Control.Opening.RoundTrip.{Peers}
use swan.Control.Opening.Steps.{open_all}
use swan.Control.Opening.Delivery.{build_protected-open_all}
use swan.Wire.Message.{Payload}
use swan.Control.Running.{ChildSa, RunningState, RunningRequest}
use swan.Control.Collision.{
  decide_nonce_collision, we_win, we_lose, prefix, decide_nonce_collision-mirror,
}
use swan.Control.Exchange.{
  ExchangeState, Timeouts, Event, packet, timeout, start_waiting, wait_response,
}
use swan.Control.Exchange.WaitStep.{AreBytes, timeouts_in}
use swan.Control.Exchange.Wait.{HasEnded, wait_response-HasEnded}

decide_nonce_collision-mirror_example :
    ((decide_nonce_collision (1 ∷ 2 ∷ []) (1 ∷ 3 ∷ []) ≡ we_lose)
      × (decide_nonce_collision (1 ∷ 3 ∷ []) (1 ∷ 2 ∷ []) ≡ we_win))
    ⊎ ((decide_nonce_collision (1 ∷ 2 ∷ []) (1 ∷ 3 ∷ []) ≡ we_win)
        × (decide_nonce_collision (1 ∷ 3 ∷ []) (1 ∷ 2 ∷ []) ≡ we_lose))
    ⊎ ((decide_nonce_collision (1 ∷ 2 ∷ []) (1 ∷ 3 ∷ []) ≡ we_win)
        × (decide_nonce_collision (1 ∷ 3 ∷ []) (1 ∷ 2 ∷ []) ≡ we_win)
        × (prefix (1 ∷ 2 ∷ []) (1 ∷ 3 ∷ []) ≡ prefix (1 ∷ 3 ∷ []) (1 ∷ 2 ∷ [])))
decide_nonce_collision-mirror_example =
    decide_nonce_collision-mirror (1 ∷ 2 ∷ []) (1 ∷ 3 ∷ []) (omega arith) (omega arith)

-- The state of an initiator that waits for the response to its request 0, of SA_INIT.
abbrev waiting : ExchangeState
waiting = record {
  initiator_spi = 1;
  responder_spi = 0;
  is_original_initiator = true;
  next_request_message_id = 1;
  expected_response_message_id = 0;
  has_expected_response = true;
  last_completed_response_message_id = 0;
  has_last_completed_response = false;
  outbound_request = some (record { message_id = 0; packets = (1 ∷ 2 ∷ []) ∷ [] });
  has_fragments = false;
  first_ike_auth_seen = false;
}

abbrev timeouts : Timeouts
timeouts = record { initial_rto = 1; max_rto = 8; max_retries = 5 }

abbrev response : List ℕ
response =
    0 ∷ 0 ∷ 0 ∷ 0 ∷ 0 ∷ 0 ∷ 0 ∷ 1 ∷ 0 ∷ 0 ∷ 0 ∷ 0 ∷ 0 ∷ 0 ∷ 0 ∷ 9 ∷ 0 ∷ 32 ∷ 34 ∷ 32 ∷ 0 ∷ 0 ∷ 0 ∷ 0
    ∷ 0 ∷ 0 ∷ 0 ∷ 28 ∷ []

-- A timeout, a datagram that is not IKE, and the response.
abbrev events : List Event
events = timeout none ∷ packet kind_esp (7 ∷ []) ∷ packet kind_ike response ∷ []

-- With one retransmission allowed, the second timeout ends the wait at the latest.
abbrev impatient : Timeouts
impatient = record { initial_rto = 1; max_rto = 8; max_retries = 1 }

abbrev late_events : List Event
late_events = timeout none ∷ packet kind_esp (7 ∷ []) ∷ timeout none ∷ []

wait_response-HasEnded_example :
    Ensures HasEnded (wait_response impatient 34 0 (start_waiting impatient waiting) late_events)
unfolding AreBytes timeouts_in
wait_response-HasEnded_example =
    wait_response-HasEnded impatient waiting 34 0 late_events
      (tt, (are_bytes-All (7 ∷ []) refl, (tt, tt))) (omega arith)

-- Three parts; the second comes first and again.
abbrev in_parts : Fragmented
in_parts = record {
  parts = (1 ∷ 2 ∷ []) ∷ (3 ∷ []) ∷ (4 ∷ []) ∷ [];
  first = 40;
  exchange = 35;
  message_id = 1;
  timeout = 100;
}

abbrev rest : List Part
rest = (2, 10) ∷ (1, 20) ∷ (0, 30) ∷ []

deliver-covers_example : (deliver in_parts none ((1, 0) ∷ rest)).1 ≡ ok (some (1 ∷ 2 ∷ 3 ∷ 4 ∷ []))
unfolding covers has concat
deliver-covers_example =
    deliver-covers in_parts 1 0 rest (omega arith)
      (omega arith, omega arith, (omega arith, omega arith, (omega arith, omega arith, tt)))

-- AES-GCM with a tag of 12 bytes, as a cipher that hides nothing.
abbrev gcm12 : EncryptionAlg
gcm12 = record {
  transform_id = 19;
  transform_key_len = 16;
  key_len = 20;
  salt_len = 4;
  iv_len = 8;
  block_len = 1;
  icv_len = 12;
  aead = true;
}

abbrev tag : List ℕ
tag = 0 ∷ 0 ∷ 0 ∷ 0 ∷ 0 ∷ 0 ∷ 0 ∷ 0 ∷ 0 ∷ 0 ∷ 0 ∷ 0 ∷ []

abbrev ike_crypto : IkeCrypto
ike_crypto = record {
  seal = λ alg key iv aad plain. some (plain ++ tag);
  unseal = λ alg key iv aad sealed. some (take (length sealed - 12) sealed);
  sign = λ integ key text. none;
}

abbrev selection : Selection
selection = record { encryption = some gcm12; integrity = none }

abbrev ike_keys : IkeKeys
ike_keys = record { sk_ai = []; sk_ar = []; sk_ei = []; sk_er = [] }

abbrev initiator : IkeEnvelope
initiator = record {
  initiator_spi = 1;
  responder_spi = 9;
  is_original_initiator = true;
  selected_ike = some selection;
  ike_keys = some ike_keys;
  supports_fragmentation = true;
}

abbrev responder : IkeEnvelope
responder = record {
  initiator_spi = 1;
  responder_spi = 9;
  is_original_initiator = false;
  selected_ike = some selection;
  ike_keys = some ike_keys;
  supports_fragmentation = true;
}

some-injective : {x y : List ℕ} → some x ≡ some y → x ≡ y
some-injective {x = x} e = ap (λ o. elim o [ some v ↦ v | none ↦ x ]) e

none-some : {A : Type 0} (x : List ℕ) → none ≡ some x → A
none-some x e = cc

abbrev plain_keyed : Keyed ike_crypto selection [] []
plain_keyed = record {
  enc = gcm12;
  selected = refl;
  block = omega arith;
  unseal-seal = λ iv aad plain sealed e.
      let s : plain ++ tag ≡ sealed = some-injective e in
      ap (λ (t : List ℕ). some (take (length t - 12) t)) (sym s)
      ∙ ap (λ (t : List ℕ). some t)
          (take-append_length plain tag (length (plain ++ tag) - 12)
            (omega (arith, length-append plain tag)));
  length-seal = λ iv aad plain sealed e.
      let s : plain ++ tag ≡ sealed = some-injective e in
      ap (λ (t : List ℕ). length t) (sym s) ∙ length-append plain tag;
  length-sign = λ integ text icv e. none-some icv e;
}

abbrev peers : Peers ike_crypto initiator responder
unfolding outbound_key_halves
peers = record {
  sel = selection;
  keys = ike_keys;
  from_sel = refl;
  from_keys = refl;
  to_sel = refl;
  to_keys = refl;
  roles = refl;
  keyed = plain_keyed;
}

-- A request of the initiator, and its plaintext: one payload, of eight bytes.
abbrev request : Outgoing
request = record { exchange = 35; message_id = 1; flags = 8 }

request-IsOutgoing : IsOutgoing request
request-IsOutgoing = record { exchange_byte = omega arith; flags = refl; message_id = omega arith }

abbrev nonce : List ℕ
nonce = 0 ∷ 0 ∷ 0 ∷ 8 ∷ 1 ∷ 2 ∷ 3 ∷ 4 ∷ []

abbrev some_iv : ℕ → Option (List ℕ)
some_iv n = some (n ∷ 0 ∷ 0 ∷ 0 ∷ 0 ∷ 0 ∷ 0 ∷ 0 ∷ [])

-- With five bytes in a packet there are two packets; the second comes first.
build_protected-open_all_example :
    Ensures
      (λ (frames : List (List ℕ)).
        (length frames ≡ 2)
        × ((open_all ike_crypto responder 100 frames none ((1, 0) ∷ (0, 10) ∷ [])).1
            ≡ inner_payloads nonce 40))
      (build_protected ike_crypto initiator request 40 5 some_iv nonce)
unfolding fragment_count covers has chunks peers
build_protected-open_all_example =
    build_protected-open_all ike_crypto initiator responder peers request request-IsOutgoing some_iv
      (λ n iv e. ap (λ (t : List ℕ). length t) (sym (some-injective e))) 40 5 100 nonce 1 0
      ((0, 10) ∷ []) (omega arith) (omega arith) (omega arith, omega arith, tt)

-- A delete of the active child and a probe, each of which comes twice.
abbrev child : ChildSa
child = record {
  inbound_spi = 256;
  outbound_spi = 512;
  tsi = [];
  tsr = [];
  local_child_initiator = true;
}

abbrev running : RunningState
running = record {
  deleting_old = false;
  stopped = false;
  active_child = some child;
  old_child = none;
  assigned = none;
  inbound_history = [];
  envelope = initiator;
  updates = [];
}

abbrev delete_payload : Payload
delete_payload = record {
  type = 42;
  critical = false;
  next = 0;
  body = 3 ∷ 4 ∷ 0 ∷ 1 ∷ 0 ∷ 0 ∷ 2 ∷ 0 ∷ [];
}

abbrev delete_request : RunningRequest
delete_request = record {
  message_id = 0;
  exchange = 37;
  inner = delete_payload ∷ [];
  ivs = some_iv;
  alive = true;
}

abbrev probe : RunningRequest
probe = record { message_id = 1; exchange = 37; inner = []; ivs = some_iv; alive = true }

abbrev requests : List RunningRequest
requests = delete_request ∷ delete_request ∷ probe ∷ delete_request ∷ []
