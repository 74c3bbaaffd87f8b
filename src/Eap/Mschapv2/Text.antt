-- ===== src/Eap/Mschapv2/Text.antt =====
-- The texts of MSCHAPv2 payloads: the success and failure messages and the hex digits in
-- eap/mschapv2/mschapv2.go.
use swan.Common.{
  ℕ, ◌+◌, ◌-◌, ◌*◌, ◌/◌, ◌%◌, ◌^◌, ltb, leb, ◌==◌, if◌then◌else◌, Bool, true, false, ◌&&◌, ◌||◌,
  not, List, [], ◌∷◌, length, Option, none, some, bit_or,
}
use swan.Common.Bits.{shl}
use swan.Common.Outcome.{Outcome, ok, err, ◌>>=◌, ◌>>◌, reject}
use swan.Eap.Packet.{EapError}
use swan.Eap.Mschapv2.Runes.{utf8_valid, fields}

pub data MschapError : Type 0 where
  bad_eap : EapError → MschapError
  identity_empty : MschapError
  password_empty : MschapError
  method_failed : MschapError
  success_without_challenge : MschapError
  failure_without_challenge : MschapError
  success_before_verified : MschapError
  eap_failure : ℕ → MschapError
  unsupported_eap_code : ℕ → MschapError
  payload_too_short : MschapError
  invalid_length : MschapError
  unexpected_challenge : MschapError
  challenge_too_short : MschapError
  unsupported_challenge_size : ℕ → MschapError
  no_random : MschapError
  des_failed : MschapError
  unexpected_in_state : MschapError
  id_mismatch : ℕ → ℕ → MschapError
  authentication_failed : MschapError
  unsupported_opcode : ℕ → MschapError
  text_too_short : MschapError
  text_not_utf8 : MschapError
  missing_authenticator : MschapError
  invalid_auth_length : MschapError
  invalid_auth_encoding : MschapError
  authenticator_mismatch : MschapError
  malformed_token : MschapError
  invalid_token : ℕ → MschapError
  unsupported_token : MschapError
  missing_token : ℕ → MschapError

abbrev pub auth_string_hex_len : ℕ
auth_string_hex_len = 40

abbrev pub challenge_len : ℕ
challenge_len = 16

unfoldable pub hex_digit : ℕ → Option ℕ
hex_digit c =
    if leb 48 c && leb c 57
    then some (c - 48)
    else if leb 97 c && leb c 102
    then some (c - 97 + 10)
    else if leb 65 c && leb c 70
    then some (c - 65 + 10)
    else none

abbrev join_digits : Option ℕ → Option ℕ → Option (List ℕ) → Option (List ℕ)
join_digits (some hi) (some lo) (some rest) = some (bit_or (shl 8 hi 4) lo ∷ rest)
join_digits _ _ _ = none

-- Texts of odd length are refused.
unfoldable pub hex_decode : List ℕ → Option (List ℕ)
hex_decode [] = some []
hex_decode (c ∷ []) = none
hex_decode (c ∷ d ∷ r) = join_digits (hex_digit c) (hex_digit d) (hex_decode r)

abbrev is_some : Option (List ℕ) → Bool
is_some none = false
is_some (some x) = true

abbrev pub is_hex : List ℕ → Bool
is_hex s = is_some (hex_decode s)

-- A digit of "0123456789ABCDEF".
abbrev hex_char : ℕ → ℕ
hex_char n = if ltb n 10 then 48 + n else 55 + n

unfoldable pub hex_encode : List ℕ → List ℕ
hex_encode [] = []
hex_encode (v ∷ vs) = hex_char (v / 16) ∷ hex_char (v % 16) ∷ hex_encode vs

abbrev upper : ℕ → ℕ
upper c = if leb 97 c && leb c 122 then c - 32 else c

unfoldable pub to_upper : List ℕ → List ℕ
to_upper [] = []
to_upper (c ∷ cs) = upper c ∷ to_upper cs

-- `strings.EqualFold` on ASCII texts: the one is hex digits, and the other hexEncode's.
unfoldable pub equal_fold : List ℕ → List ℕ → Bool
equal_fold [] [] = true
equal_fold [] (d ∷ ds) = false
equal_fold (c ∷ cs) [] = false
equal_fold (c ∷ cs) (d ∷ ds) = upper c == upper d && equal_fold cs ds

-- What stands behind "S=" in the first token that begins so, or nothing.
unfoldable pub find_signature : List (List ℕ) → List ℕ
find_signature [] = []
find_signature ((s ∷ e ∷ v) ∷ ts) =
    let rest = find_signature ts in if s == 83 && e == 61 then v else rest
find_signature (t ∷ ts) = find_signature ts

unfoldable pub verify_success : List ℕ → List ℕ → Outcome MschapError (Unit {0})
verify_success payload expected = do
  reject (ltb (length payload) (2 + auth_string_hex_len)) text_too_short
  reject (not (utf8_valid payload)) text_not_utf8
  let sig : List ℕ = find_signature (fields payload)
  reject (length sig == 0) missing_authenticator
  reject (not (length sig == auth_string_hex_len)) invalid_auth_length
  reject (not (is_hex sig)) invalid_auth_encoding
  reject (not (equal_fold sig expected)) authenticator_mismatch

abbrev consed : ℕ → Option (List ℕ × List ℕ) → Option (List ℕ × List ℕ)
consed c none = none
consed c (some (k, v)) = some (c ∷ k, v)

-- `strings.Cut` at the first "=".
unfoldable pub cut : List ℕ → Option (List ℕ × List ℕ)
cut [] = none
cut (c ∷ cs) = let rest = consed c (cut cs) in if c == 61 then some ([], cs) else rest

unfoldable pub is_digits : List ℕ → Bool
is_digits [] = true
is_digits (c ∷ cs) = leb 48 c && leb c 57 && is_digits cs

-- `strconv.ParseUint(value, 10, 32)` on a text that is not empty succeeds.
unfoldable pub fits_uint32 : ℕ → List ℕ → Bool
fits_uint32 n [] = true
fits_uint32 n (c ∷ cs) =
    let m : ℕ = n * 10 + (c - 48) in leb 48 c && leb c 57 && ltb m (2 ^ 32) && fits_uint32 m cs

-- The tokens that a failure message must have.
pub record FailureTokens : Type 0 where
  pub error_code : Bool
  pub retry_flag : Bool
  pub challenge : Bool

unfoldable pub check_token : FailureTokens → List ℕ → List ℕ → Outcome MschapError FailureTokens
check_token f (k ∷ []) value =
    if k == 69
    then reject (length value == 0 || not (fits_uint32 0 value)) (invalid_token 69)
      >> ok (record f { error_code = true })
    else if k == 82
    then reject (not (length value == 1 && is_flag value)) (invalid_token 82)
      >> ok (record f { retry_flag = true })
    else if k == 67
    then reject (not (length value == challenge_len * 2) || not (is_hex value)) (invalid_token 67)
      >> ok (record f { challenge = true })
    else if k == 86
    then reject (length value == 0 || not (is_digits value)) (invalid_token 86) >> ok f
    else if k == 77
    then reject (length value == 0) (invalid_token 77) >> ok f
    else err unsupported_token
  where
    is_flag : List ℕ → Bool
    is_flag [] = false
    is_flag (c ∷ cs) = c == 48 || c == 49
check_token f key value = err unsupported_token

abbrev check_cut : FailureTokens → Option (List ℕ × List ℕ) → Outcome MschapError FailureTokens
check_cut f none = err malformed_token
check_cut f (some (key, value)) = check_token f key value

unfoldable pub check_tokens : FailureTokens → List (List ℕ) → Outcome MschapError FailureTokens
check_tokens f [] = ok f
check_tokens f (t ∷ ts) = check_cut f (cut t) >>= λ f'. check_tokens f' ts

unfoldable pub parse_failure_tokens : List ℕ → Outcome MschapError (Unit {0})
parse_failure_tokens payload = do
  reject (ltb (length payload) 3) text_too_short
  reject (not (utf8_valid payload)) text_not_utf8
  f ←
      check_tokens (record { error_code = false; retry_flag = false; challenge = false })
        (fields payload)
  reject (not f.error_code) (missing_token 69)
  reject (not f.retry_flag) (missing_token 82)
  reject (not f.challenge) (missing_token 67)
