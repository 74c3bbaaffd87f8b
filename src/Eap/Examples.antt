-- ===== src/Eap/Examples.antt =====
-- The theorems on EAP packets and PEAP fragments at concrete inputs.
use swan.Common.{ℕ, ◌≡◌, inl, refl, arith, List, [], ◌∷◌, false}
use swan.Common.Outcome.{ok, Ensures}
use swan.Eap.Packet.{EapPacket, parse_eap, build_request, parse_eap-build_request}
use swan.Eap.Avp.{decode_inner_request, encode_inner_response}
use swan.Eap.Avp.Echo.{echoed, decode_inner_request-encode_inner_response}
use swan.Eap.Fragment.{OutboundFragmenter}
use swan.Eap.Fragment.Relay.{transfer, transfer_whole}

abbrev identity_request : EapPacket
identity_request = record { code = 1; identifier = 7; type = 1; data' = 5 ∷ 6 ∷ [] }

parse_eap-build_request_example :
    (b : List ℕ) × (build_request 1 7 1 (5 ∷ 6 ∷ []) ≡ ok b) × (parse_eap b ≡ ok identity_request)
parse_eap-build_request_example = parse_eap-build_request identity_request (inl refl) (omega arith)

-- Seven bytes in chunks of three: three fragments.
abbrev message : List ℕ
message = 1 ∷ 2 ∷ 3 ∷ 4 ∷ 5 ∷ 6 ∷ 7 ∷ []

abbrev idle : OutboundFragmenter
idle = record { payload = []; offset = 0; chunk = 3; include_length = false }

transfer_whole_example : transfer 8 idle message ≡ ok (idle, message)
transfer_whole_example =
    transfer_whole 8 3 false message (omega arith) (omega arith) (ground arith) (omega arith)

-- A server's success, tunnelled.
abbrev tunnelled_success : List ℕ
tunnelled_success = 1 ∷ 5 ∷ 0 ∷ 11 ∷ 33 ∷ 128 ∷ 3 ∷ 0 ∷ 2 ∷ 0 ∷ 1 ∷ []

decode_inner_request-encode_inner_response_example :
    Ensures
      (λ p. encode_inner_response p ≡ ok (echoed tunnelled_success))
      (decode_inner_request tunnelled_success 9)
decode_inner_request-encode_inner_response_example =
    decode_inner_request-encode_inner_response tunnelled_success 9 (omega arith)
