-- ===== src/Eap/Packet.antt =====
-- The EAP packet codec: eap/eap.go.
use swan.Common.{
  ℕ, ◌+◌, ◌≤◌, ◌≡◌, ◌⊎◌, inl, inr, refl, sym, ap, arith, ltb, ◌==◌, if◌then◌else◌, Bool, true,
  false, ◌||◌, not, List, [], ◌∷◌, ◌++◌, length, le→ltb, eq→==,
}
use swan.Common.Bits.{byte_at}
use swan.Common.Outcome.{Outcome, ok, err, ◌>>=◌, ◌>>◌, reject, panic_if, index, slice, slice_from}
use swan.Wire.Be.{be_uint16}
use swan.Wire.Be.Laws.{be_uint16-put}

abbrev pub code_request : ℕ
code_request = 1

abbrev pub code_response : ℕ
code_response = 2

abbrev pub code_success : ℕ
code_success = 3

abbrev pub code_failure : ℕ
code_failure = 4

pub data EapError : Type 0 where
  eap_too_short : ℕ → EapError
  length_mismatch : ℕ → ℕ → EapError
  missing_type : ℕ → EapError
  unsupported_code : ℕ → EapError

-- `type` is 0 for a packet with no type byte.
pub record EapPacket : Type 0 where
  pub code : ℕ
  pub identifier : ℕ
  pub type : ℕ
  pub data' : List ℕ

unfoldable pub parse_eap : List ℕ → Outcome EapError EapPacket
parse_eap b = do
  reject (ltb (length b) 4) (eap_too_short (length b))
  lb ← slice b 2 4
  declared ← be_uint16 lb
  reject (not (declared == length b)) (length_mismatch declared (length b))
  code ← index b 0
  identifier ← index b 1
  if code == code_request
      then (do
        reject (ltb declared 5) (missing_type code)
        type ← index b 4
        rest ← slice_from b 5
        ok (record { code = code; identifier = identifier; type = type; data' = rest }))
      else if code == code_success || code == code_failure
      then (do
        rest ← slice_from b 4
        ok (record { code = code; identifier = identifier; type = 0; data' = rest }))
      else err (unsupported_code code)

abbrev pub has_type : ℕ → Bool
has_type code = code == code_request || code == code_response

unfoldable pub build_request : ℕ → ℕ → ℕ → List ℕ → Outcome EapError (List ℕ)
build_request code id type data' = do
  let n : ℕ = if has_type code then 4 + length data' + 1 else 4 + length data'
  panic_if (ltb 0xffff n)
  let head : List ℕ = code ∷ id ∷ byte_at n 8 ∷ byte_at n 0 ∷ []
  let body : List ℕ = if has_type code then type ∷ data' else data'
  ok (head ++ body)

-- A request, a success or a failure, where the last two have no type.
abbrev pub IsPeerPacket : EapPacket → Type 0
IsPeerPacket p = (p.code ≡ 1) ⊎ (((p.code ≡ 3) ⊎ (p.code ≡ 4)) × (p.type ≡ 0))

-- A request, success or failure of at most 65535 bytes is built without a panic, and parses back.
pub parse_eap-build_request :
    (p : EapPacket)
    → IsPeerPacket p
    → 5 + length p.data' ≤ 0xffff
    → (b : List ℕ) × (build_request p.code p.identifier p.type p.data' ≡ ok b)
      × (parse_eap b ≡ ok p)
unfolding parse_eap build_request
parse_eap-build_request p (inl c) h =
    let n = 4 + length p.data' + 1 in
    let head : List ℕ = p.code ∷ p.identifier ∷ byte_at n 8 ∷ byte_at n 0 ∷ [] in
    let b : List ℕ = head ++ (p.type ∷ p.data') in
    (
      b,
      rw (eq→== p.code 1 c, le→ltb 0xffff n (omega arith)) refl,
      rw
          (
            le→ltb (length b) 4 (omega arith),
            be_uint16-put {E = EapError} n [] (omega arith),
            eq→== n (length b) (omega arith),
            eq→== p.code 1 c,
            le→ltb n 5 (omega arith),
          )
          refl,
    )
parse_eap-build_request p (inr (c, t)) h =
    let n = 4 + length p.data' in
    let head : List ℕ = p.code ∷ p.identifier ∷ byte_at n 8 ∷ byte_at n 0 ∷ [] in
    let b : List ℕ = head ++ p.data' in
    let untyped : has_type p.code ≡ false = ground (arith, c) in
    let no_request : (p.code == 1) ≡ false = ground (arith, c) in
    let ended : (p.code == 3 || p.code == 4) ≡ true = ground (arith, c) in
    (
      b,
      rw (untyped, le→ltb 0xffff n (omega arith)) refl,
      rw
          (
            le→ltb (length b) 4 (omega arith),
            be_uint16-put {E = EapError} n [] (omega arith),
            eq→== n (length b) (omega arith),
            no_request,
            ended,
          )
          (ap
            (λ k.
              ok (record { code = p.code; identifier = p.identifier; type = k; data' = p.data' }))
            (sym t)),
    )
