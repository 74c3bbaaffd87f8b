-- ===== src/Eap/Avp/Echo.antt =====
-- Decoding and encoding tunnelled packets, one behind the other.
use swan.Common.{
  ℕ, ◌+◌, ◌≤◌, ◌<◌, ◌≡◌, refl, ◌∙◌, arith, ltb, ◌==◌, if◌then◌else◌, Bool, true, false, ◌&&◌, List,
  [], ◌∷◌, length, drop, Bool-cases, inl, inr, ltb→ge, lt→ltb, ==_iff, ◌≢◌, ◌⊎◌, le→ltb, eq→==,
  ne→==, bit_or, some, none,
}
use swan.Common.Bits.{shl, byte_at, bit_or_sum}
use swan.Common.Outcome.{ok, Ensures, reject-Ensures}
use swan.Eap.Avp.{
  inner_too_large, equal_bytes, ms_avp_success, ms_avp_failure, is_ms_avp, translate_avp,
  same_bytes, complete_eap_packet, complete_inner_request, decode_complete, wrap_inner,
  decode_inner_request, encode_inner_response,
}

abbrev declared : List ℕ → Bool
declared (a ∷ b ∷ hi ∷ lo ∷ r) = bit_or (shl 64 hi 8) lo == length (a ∷ b ∷ hi ∷ lo ∷ r)
declared r = false

-- A complete request with a type.
abbrev pub is_request : List ℕ → Bool
is_request (a ∷ b ∷ hi ∷ lo ∷ t ∷ r) = declared (a ∷ b ∷ hi ∷ lo ∷ t ∷ r) && a == 1
is_request r = false

-- A request of eleven bytes with the type of MS-AVPs.
abbrev pub is_avp_request : List ℕ → Bool
is_avp_request (a ∷ b ∷ hi ∷ lo ∷ t ∷ r) = length r == 6 && t == 33
is_avp_request r = false

-- The bytes that the tunnel carries back for those that came: an MS-AVP comes back as a response,
-- a request without its header, and any other body as it is.
unfoldable pub echoed : List ℕ → List ℕ
echoed (a ∷ b ∷ r) =
    if is_request (a ∷ b ∷ r)
    then (if is_avp_request (a ∷ b ∷ r) then 2 ∷ b ∷ 0 ∷ 11 ∷ drop 2 r else drop 2 r)
    else a ∷ b ∷ r
echoed r = r

complete_lem :
    (a b hi lo : ℕ) (r : List ℕ)
    → complete_eap_packet (a ∷ b ∷ hi ∷ lo ∷ r) ≡ ok (declared (a ∷ b ∷ hi ∷ lo ∷ r))
unfolding complete_eap_packet
complete_lem a b hi lo r = rw (le→ltb (length (a ∷ b ∷ hi ∷ lo ∷ r)) 4 (omega arith)) refl

same_bytes_sound : (a b : List ℕ) → same_bytes a b ≡ true → a ≡ b
unfolding same_bytes
same_bytes_sound [] [] h = refl
same_bytes_sound [] (y ∷ b) h = cc
same_bytes_sound (x ∷ a) [] h = cc
same_bytes_sound (x ∷ a) (y ∷ b) h = grind (arith, same_bytes_sound a b)

equal_bytes_sound : (a b : List ℕ) → equal_bytes a b ≡ true → a ≡ b
unfolding equal_bytes
equal_bytes_sound a b h = ground (arith, same_bytes_sound a b)

-- A packet that is no success or failure comes back without its header.
encode_packet :
    (a id hi lo t : ℕ) (r : List ℕ)
    → a ≡ 1
    → declared (a ∷ id ∷ hi ∷ lo ∷ t ∷ r) ≡ true
    → encode_inner_response (a ∷ id ∷ hi ∷ lo ∷ t ∷ r) ≡ ok (t ∷ r)
unfolding encode_inner_response
encode_packet a id hi lo t r e h =
    rw
      (
        complete_lem a id hi lo (t ∷ r),
        h,
        e,
        le→ltb (length (a ∷ id ∷ hi ∷ lo ∷ t ∷ r)) 5 (omega arith),
      )
      refl

packet_len : (v : ℕ) → v ≤ 65535 → bit_or (shl 64 (byte_at v 8) 8) (byte_at v 0) ≡ v
packet_len v h = ground (arith, bit_or_sum 8 (byte_at v 8) (byte_at v 0))

wrap_echo :
    (id x : ℕ) (r : List ℕ)
    → Ensures (λ p. encode_inner_response p ≡ ok (x ∷ r)) (wrap_inner (x ∷ r) id)
unfolding wrap_inner
wrap_echo id x r =
    reject-Ensures (λ p. encode_inner_response p ≡ ok (x ∷ r)) (ltb 65535 (4 + length (x ∷ r)))
      (inner_too_large (4 + length (x ∷ r))) _
      (λ h.
        encode_packet 1 id _ _ x r refl
          (eq→== _ _ (packet_len (4 + length (x ∷ r)) (ltb→ge 65535 _ h) ∙ omega arith)))

avp_echo :
    (id hi lo t : ℕ) (r : List ℕ)
    → t ≡ 33
    → Ensures
        (λ p. encode_inner_response p ≡ ok (2 ∷ id ∷ 0 ∷ 11 ∷ t ∷ r))
        (translate_avp (1 ∷ id ∷ hi ∷ lo ∷ t ∷ r) (some r))
unfolding translate_avp encode_inner_response complete_eap_packet
avp_echo id hi lo t r e = elim (Bool-cases (equal_bytes r ms_avp_success)) [
  | inl s ↦ rw (s, equal_bytes_sound r ms_avp_success s, e) refl
  | inr s ↦ elim (Bool-cases (equal_bytes r ms_avp_failure)) [
    | inl f ↦ rw (s, f, equal_bytes_sound r ms_avp_failure f, e) refl
    | inr f ↦ rw (s, f) tt
  ]
]

is_ms_avp_true :
    (id hi lo t : ℕ) (r : List ℕ)
    → length r ≡ 6
    → t ≡ 33
    → is_ms_avp (1 ∷ id ∷ hi ∷ lo ∷ t ∷ r) ≡ ok (some r)
unfolding is_ms_avp
is_ms_avp_true id hi lo t r e k =
    rw (eq→== (length (1 ∷ id ∷ hi ∷ lo ∷ t ∷ r)) 11 (omega arith), eq→== t 33 k) refl

is_ms_avp_false :
    (id hi lo t : ℕ) (r : List ℕ)
    → (length r ≢ 6) ⊎ (t ≢ 33)
    → is_ms_avp (1 ∷ id ∷ hi ∷ lo ∷ t ∷ r) ≡ ok none
unfolding is_ms_avp
is_ms_avp_false id hi lo t r (inl n) =
    rw (ne→== (length (1 ∷ id ∷ hi ∷ lo ∷ t ∷ r)) 11 (λ e. n (omega arith))) refl
is_ms_avp_false id hi lo t r (inr n) = elim (Bool-cases (length (1 ∷ id ∷ hi ∷ lo ∷ t ∷ r) == 11)) [
  | inl l ↦ rw (l, ne→== t 33 n) refl
  | inr l ↦ rw (l) refl
]

other_echo :
    (id hi lo t : ℕ) (r : List ℕ)
    → declared (1 ∷ id ∷ hi ∷ lo ∷ t ∷ r) ≡ true
    → (length r ≢ 6) ⊎ (t ≢ 33)
    → Ensures
        (λ p. encode_inner_response p ≡ ok (t ∷ r))
        (decode_complete (1 ∷ id ∷ hi ∷ lo ∷ t ∷ r))
unfolding decode_complete translate_avp
other_echo id hi lo t r h n = elim (Bool-cases (length (1 ∷ id ∷ hi ∷ lo ∷ t ∷ r) == 5 && t == 1)) [
  | inl c ↦ rw (c) (encode_packet 1 id hi lo t r refl h)
  | inr c ↦ rw (c, is_ms_avp_false id hi lo t r n) (encode_packet 1 id hi lo t r refl h)
]

request_echo :
    (id hi lo t : ℕ) (r : List ℕ)
    → length r ≡ 6
    → t ≡ 33
    → Ensures
        (λ p. encode_inner_response p ≡ ok (2 ∷ id ∷ 0 ∷ 11 ∷ t ∷ r))
        (decode_complete (1 ∷ id ∷ hi ∷ lo ∷ t ∷ r))
unfolding decode_complete
request_echo id hi lo t r l e =
    rw (ne→== (length (1 ∷ id ∷ hi ∷ lo ∷ t ∷ r)) 5 (omega arith), is_ms_avp_true id hi lo t r l e)
      (avp_echo id hi lo t r e)

-- The bytes that `echoed` gives for a complete request.
complete_echo :
    (id hi lo t : ℕ) (r : List ℕ)
    → declared (1 ∷ id ∷ hi ∷ lo ∷ t ∷ r) ≡ true
    → Ensures
        (λ p.
          encode_inner_response p
          ≡ ok (if length r == 6 && t == 33 then 2 ∷ id ∷ 0 ∷ 11 ∷ t ∷ r else t ∷ r))
        (decode_complete (1 ∷ id ∷ hi ∷ lo ∷ t ∷ r))
complete_echo id hi lo t r h = elim (Bool-cases (length r == 6)) [
  | inl l ↦ elim (Bool-cases (t == 33)) [
    | inl e ↦ rw (l, e) (request_echo id hi lo t r ((==_iff (length r) 6).0 l) ((==_iff t 33).0 e))
    | inr e ↦ rw (l, e) (other_echo id hi lo t r h (inr (λ k. ground arith)))
  ]
  | inr l ↦ rw (l) (other_echo id hi lo t r h (inl (λ k. ground arith)))
]

long_echo :
    (id a b hi lo t : ℕ) (r : List ℕ)
    → Ensures
        (λ p. encode_inner_response p ≡ ok (echoed (a ∷ b ∷ hi ∷ lo ∷ t ∷ r)))
        (decode_inner_request (a ∷ b ∷ hi ∷ lo ∷ t ∷ r) id)
unfolding decode_inner_request complete_inner_request echoed
long_echo id a b hi lo t r =
    rw (lt→ltb 4 (length (a ∷ b ∷ hi ∷ lo ∷ t ∷ r)) (omega arith), complete_lem a b hi lo (t ∷ r))
      (elim (Bool-cases (declared (a ∷ b ∷ hi ∷ lo ∷ t ∷ r))) [
        | inl d ↦ elim (Bool-cases (a == 1)) [
          | inl e ↦ rw (d, e, (==_iff a 1).0 e) (complete_echo b hi lo t r d)
          | inr e ↦ rw (d, e) (wrap_echo id a (b ∷ hi ∷ lo ∷ t ∷ r))
        ]
        | inr d ↦ rw (d) (wrap_echo id a (b ∷ hi ∷ lo ∷ t ∷ r))
      ])

-- A tunnelled body that is not empty is refused or decoded, never with a panic; and when it is decoded, encoding
-- the packet gives the body that `echoed` describes: that of a server's success or failure becomes the
-- response with the same identifier and value, that of any other complete request loses its header, and a body that is no
-- complete request is itself.
pub decode_inner_request-encode_inner_response :
    (b : List ℕ) (eap_id : ℕ)
    → 0 < length b
    → Ensures (λ p. encode_inner_response p ≡ ok (echoed b)) (decode_inner_request b eap_id)
unfolding decode_inner_request echoed
decode_inner_request-encode_inner_response [] id h = absurd (omega arith)
decode_inner_request-encode_inner_response (a ∷ []) id h = wrap_echo id a []
decode_inner_request-encode_inner_response (a ∷ b ∷ []) id h = wrap_echo id a (b ∷ [])
decode_inner_request-encode_inner_response (a ∷ b ∷ c ∷ []) id h = wrap_echo id a (b ∷ c ∷ [])
decode_inner_request-encode_inner_response (a ∷ b ∷ c ∷ d ∷ []) id h =
    wrap_echo id a (b ∷ c ∷ d ∷ [])
decode_inner_request-encode_inner_response (a ∷ b ∷ hi ∷ lo ∷ t ∷ r) id h =
    long_echo id a b hi lo t r
