-- ===== src/Eap/Mschapv2/Examples.antt =====
-- EAP-MSCHAPv2 at concrete inputs.
use swan.Common.{ℕ, ◌≡◌, refl, arith, List, [], ◌∷◌, length, map, All, Option, none, some}
use swan.Common.Outcome.{ok, Ensures}
use swan.Wire.Be.{be_uint16}
use swan.Eap.Packet.{EapError, parse_eap, build_request}
use swan.Eap.Mschapv2.Md4.{
  md4_transform, md4_round, md4_step_f, md4_step_g, md4_step_h, md4_f, md4_g, md4_h, block_words,
  full_blocks, md4_tail, md4,
}
use swan.Eap.Mschapv2.DesKey.{
  expand_des_key, ones_count, odd_parity, key_byte, spread_key, set_parity,
}
use swan.Eap.Mschapv2.DesKey.Parity.{HasOddParity, half, of_digits, expand_des_key-HasOddParity}
use swan.Eap.Mschapv2.Runes.{runes_from, lead_of, decode_lead, is_space, fields_from}
use swan.Eap.Mschapv2.Text.{
  hex_digit, hex_decode, hex_encode, to_upper, equal_fold, find_signature, verify_success,
}
use swan.Eap.Mschapv2.Derive.{
  MschapCrypto, challenge_hash, des_encrypt_block, nt_blocks, generate_nt_response,
  generate_authenticator_response, generate_msk,
}
use swan.Eap.Mschapv2.Machine.{
  Method, negotiating, action_complete, handle, reset_method, on_packet, on_eap_request,
  on_eap_success, on_read, on_success, check_success, answer_challenge, read_request,
  build_response, build_success, after_backslash,
}
use swan.Eap.Mschapv2.Machine.Trust.{Input, after, Verified}
use swan.Eap.Mschapv2.Machine.Export.{handle-after}

-- The last block of the empty text gives the words of its digest.
md4_transform_test :
    md4_transform
      (0x67452301, 0xefcdab89, 0x98badcfe, 0x10325476)
      (0x80 ∷ 0 ∷ 0 ∷ 0 ∷ 0 ∷ 0 ∷ 0 ∷ 0 ∷ 0 ∷ 0 ∷ 0 ∷ 0 ∷ 0 ∷ 0 ∷ 0 ∷ 0 ∷ 0 ∷ 0 ∷ 0 ∷ 0 ∷ 0 ∷ 0 ∷ 0
        ∷ 0 ∷ 0 ∷ 0 ∷ 0 ∷ 0 ∷ 0 ∷ 0 ∷ 0 ∷ 0 ∷ 0 ∷ 0 ∷ 0 ∷ 0 ∷ 0 ∷ 0 ∷ 0 ∷ 0 ∷ 0 ∷ 0 ∷ 0 ∷ 0 ∷ 0 ∷ 0
        ∷ 0 ∷ 0 ∷ 0 ∷ 0 ∷ 0 ∷ 0 ∷ 0 ∷ 0 ∷ 0 ∷ 0 ∷ 0 ∷ 0 ∷ 0 ∷ 0 ∷ 0 ∷ 0 ∷ 0 ∷ 0 ∷ [])
    ≡ (0xe0cfd631, 0x31e96ad1, 0xd7593cb7, 0xc089c0e0)
unfolding md4_transform block_words md4_round md4_step_f md4_step_g md4_step_h md4_f md4_g md4_h
md4_transform_test = refl

abbrev key7 : List ℕ
key7 = 1 ∷ 35 ∷ 69 ∷ 103 ∷ 137 ∷ 171 ∷ 205 ∷ []

expand_des_key-HasOddParity_example :
    Ensures
      (λ cs.
        (length cs ≡ 8)
        × All HasOddParity cs
        × (of_digits 128 0 (map half cs) ≡ of_digits 256 0 key7))
      (expand_des_key {E = EapError} key7)
expand_des_key-HasOddParity_example = expand_des_key-HasOddParity EapError key7 refl (
  omega arith,
  (omega arith, (omega arith, (omega arith, (omega arith, (omega arith, (omega arith, tt)))))),
)

-- A digest of zeros, and a cipher that hides nothing.
abbrev mschap_crypto : MschapCrypto
mschap_crypto = record {
  sha1 = λ text. 0 ∷ 0 ∷ 0 ∷ 0 ∷ 0 ∷ 0 ∷ 0 ∷ 0 ∷ 0 ∷ 0 ∷ 0 ∷ 0 ∷ 0 ∷ 0 ∷ 0 ∷ 0 ∷ 0 ∷ 0 ∷ 0 ∷ 0 ∷ [];
  des = λ key. some (λ block. block);
}

abbrev peer : Method
peer = record { identity = 117 ∷ []; password = 112 ∷ []; phase = negotiating; state = none }

abbrev random : Option (List ℕ)
random = some (5 ∷ 5 ∷ 5 ∷ 5 ∷ 5 ∷ 5 ∷ 5 ∷ 5 ∷ 5 ∷ 5 ∷ 5 ∷ 5 ∷ 5 ∷ 5 ∷ 5 ∷ 5 ∷ [])

abbrev challenge_packet : List ℕ
challenge_packet =
    1 ∷ 5 ∷ 0 ∷ 27 ∷ 26 ∷ 1 ∷ 7 ∷ 0 ∷ 22 ∷ 16 ∷ 9 ∷ 9 ∷ 9 ∷ 9 ∷ 9 ∷ 9 ∷ 9 ∷ 9 ∷ 9 ∷ 9 ∷ 9 ∷ 9 ∷ 9
    ∷ 9 ∷ 9 ∷ 9 ∷ 115 ∷ []

abbrev success_packet : List ℕ
success_packet =
    1 ∷ 6 ∷ 0 ∷ 51 ∷ 26 ∷ 3 ∷ 7 ∷ 0 ∷ 46 ∷ 83 ∷ 61 ∷ 48 ∷ 48 ∷ 48 ∷ 48 ∷ 48 ∷ 48 ∷ 48 ∷ 48 ∷ 48 ∷ 48
    ∷ 48 ∷ 48 ∷ 48 ∷ 48 ∷ 48 ∷ 48 ∷ 48 ∷ 48 ∷ 48 ∷ 48 ∷ 48 ∷ 48 ∷ 48 ∷ 48 ∷ 48 ∷ 48 ∷ 48 ∷ 48 ∷ 48
    ∷ 48 ∷ 48 ∷ 48 ∷ 48 ∷ 48 ∷ 48 ∷ 48 ∷ 48 ∷ 48 ∷ 48 ∷ 48 ∷ []

abbrev eap_success : List ℕ
eap_success = 3 ∷ 6 ∷ 0 ∷ 4 ∷ []

abbrev session_key : List ℕ
session_key =
    0 ∷ 0 ∷ 0 ∷ 0 ∷ 0 ∷ 0 ∷ 0 ∷ 0 ∷ 0 ∷ 0 ∷ 0 ∷ 0 ∷ 0 ∷ 0 ∷ 0 ∷ 0 ∷ 0 ∷ 0 ∷ 0 ∷ 0 ∷ 0 ∷ 0 ∷ 0 ∷ 0
    ∷ 0 ∷ 0 ∷ 0 ∷ 0 ∷ 0 ∷ 0 ∷ 0 ∷ 0 ∷ 0 ∷ 0 ∷ 0 ∷ 0 ∷ 0 ∷ 0 ∷ 0 ∷ 0 ∷ 0 ∷ 0 ∷ 0 ∷ 0 ∷ 0 ∷ 0 ∷ 0 ∷ 0
    ∷ 0 ∷ 0 ∷ 0 ∷ 0 ∷ 0 ∷ 0 ∷ 0 ∷ 0 ∷ 0 ∷ 0 ∷ 0 ∷ 0 ∷ 0 ∷ 0 ∷ 0 ∷ 0 ∷ []

abbrev seen : List Input
seen = (none, success_packet) ∷ (random, challenge_packet) ∷ []

session_key_exported :
    (handle mschap_crypto (after mschap_crypto (reset_method peer) seen) none eap_success).1
    ≡ ok (action_complete session_key)
unfolding after handle parse_eap be_uint16 build_request on_packet on_eap_request on_eap_success
    on_read on_success check_success answer_challenge read_request build_response build_success
    after_backslash generate_nt_response generate_authenticator_response generate_msk nt_blocks
    challenge_hash des_encrypt_block md4 md4_tail md4_transform full_blocks block_words md4_round
    md4_step_f md4_step_g md4_step_h md4_f md4_g md4_h expand_des_key set_parity spread_key key_byte
    odd_parity ones_count runes_from lead_of decode_lead is_space fields_from hex_digit hex_decode
    hex_encode to_upper equal_fold find_signature verify_success
session_key_exported = refl

handle-after_example :
    (id : ℕ) × (hex : List ℕ) × Verified mschap_crypto (117 ∷ []) (112 ∷ []) seen id hex session_key
handle-after_example =
    handle-after mschap_crypto peer seen none eap_success session_key session_key_exported
