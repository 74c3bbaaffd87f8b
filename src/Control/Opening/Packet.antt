-- ===== src/Control/Opening/Packet.antt =====
-- A sealed packet is found and opened from the bytes of its prefix and body.
use swan.Common.{
  ℕ, suc, ◌+◌, ◌-◌, ◌^◌, ◌≤◌, ◌<◌, ◌≡◌, ◌⊎◌, inl, inr, refl, sym, ap, ◌∙◌, arith, ltb,
  if◌then◌else◌, true, not, List, [], ◌++◌, length, take, Option, none, some, IsByte, ne→==, eq→==,
  le→ltb, append_assoc, length-append, take-append_length, drop-append_length, take_all,
}
use swan.Common.Outcome.{ok, >>=-ok, reject-ok, slice_ok}
use swan.Wire.Be.Laws.{be_uint16-put}
use swan.Wire.Header.{Header, SkfHeader, uint64_spi, and_not, flags_mask, marshal_to, parse_header}
use swan.Wire.Header.Laws.{IsSpi, IsWellFormed, parse_header-marshal}
use swan.Wire.Message.{is_encrypted}
use swan.Wire.Message.Safety.{parse_skf_header_complete}
use swan.Esp.Suite.{Selection}
use swan.Control.Protected.{
  ProtectedError, IkeCrypto, IkeEnvelope, IkeKeys, Outgoing, fragment_bytes, inbound_key_halves,
}
use swan.Control.Protected.Prefix.{payload_head, sealed_header, sealed_prefix}
use swan.Control.Reassembly.{FragmentReassembly}
use swan.Control.Opening.{
  Located, locate, read_fragment_header, iv_start, open_located, open_encrypted_body, finish_opened,
  open_protected_raw, arrival_of, open_with, open_headed, open_found,
}

-- What `buildProtectedEnvelopeAs` seals: an SK packet, or an SKF packet with proper numbers.
abbrev pub IsEnvelopeOf : ℕ → Option SkfHeader → Type 0
IsEnvelopeOf enc_type none = enc_type ≡ 46
IsEnvelopeOf enc_type (some f) =
    (enc_type ≡ 53)
    × (1 ≤ f.fragment_number)
    × (f.fragment_number ≤ f.total_fragments)
    × (f.total_fragments ≤ 0xffff)

-- The fields of the header are in range, and no reserved flag is set.
pub record IsOutgoing (o : Outgoing) : Type 0 where
  pub exchange_byte : IsByte o.exchange
  pub flags : and_not o.flags flags_mask ≡ 0
  pub message_id : o.message_id < 2 ^ 32

uint64_spi-IsSpi : (v : ℕ) → IsSpi (uint64_spi v)
unfolding uint64_spi
uint64_spi-IsSpi v = omega arith

IsEnvelopeOf-type : (t : ℕ) (frag : Option SkfHeader) → IsEnvelopeOf t frag → (t ≡ 46) ⊎ (t ≡ 53)
IsEnvelopeOf-type t none h = inl h
IsEnvelopeOf-type t (some f) h = inr h.0

iv_start_of :
    (frag : Option SkfHeader) (l : Located)
    → l.start ≡ 28
    → iv_start l frag ≡ 32 + length (fragment_bytes frag)
iv_start_of none l e = omega (arith, e)
iv_start_of (some f) l e = omega (arith, e)

-- The fragment header behind the 32 bytes of the two headers.
read_fragment_header_lem :
    (front : List ℕ) (frag : Option SkfHeader) (body : List ℕ) (t inner_next : ℕ)
    → length front ≡ 32
    → IsEnvelopeOf t frag
    → read_fragment_header (front ++ (fragment_bytes frag ++ body)) (record {
      type = t;
      start = 28;
      len = 4 + length (fragment_bytes frag) + length body;
      inner_next = inner_next;
    })
      ≡ ok frag
unfolding read_fragment_header
read_fragment_header_lem front none body t inner_next l h = rw (ne→== t 53 (omega (arith, h))) refl
read_fragment_header_lem front (some f) body t inner_next l (ht, h1, h2, h3) =
    let fb : List ℕ = fragment_bytes (some f) in
    let all : List ℕ = front ++ (fb ++ body) in
    let la : length all ≡ 36 + length body = omega (arith, length-append front (fb ++ body), l) in
    rw
      (
        eq→== t 53 ht,
        read_fragment_header,
        le→ltb (28 + (4 + 4 + length body)) 36 (omega arith),
        slice_ok {E = ProtectedError} all 32 36 (omega arith) (omega (arith, la)),
        drop-append_length front (fb ++ body) 32 (sym l),
        parse_skf_header_complete fb f (
          omega arith,
          be_uint16-put f.fragment_number _ (omega arith),
          be_uint16-put f.total_fragments [] (omega arith),
          h1,
          h2,
        ),
      )
      refl

module _ (env : IkeEnvelope) (o : Outgoing) (enc_type inner_next : ℕ) (frag : Option SkfHeader)
    (body : List ℕ) (wo : IsOutgoing o) (we : IsEnvelopeOf enc_type frag)
    (fits : 4 + length (fragment_bytes frag) + length body ≤ 0xffff) where
  header : Header
  header = sealed_header env o enc_type frag (length body)

  payload_len : ℕ
  payload_len = 4 + length (fragment_bytes frag) + length body

  prefix : List ℕ
  prefix = sealed_prefix env o enc_type inner_next frag (length body)

  payload_len_lem : payload_len ≡ 4 + length (fragment_bytes frag) + length body
  unfolding payload_len
  payload_len_lem = refl

  -- What follows the header.
  rest : List ℕ
  rest = payload_head inner_next payload_len ++ (fragment_bytes frag ++ body)

  raw : List ℕ
  raw = prefix ++ body

  type-IsByte : IsByte enc_type
  type-IsByte = ground (arith, IsEnvelopeOf-type enc_type frag we)

  header-IsWellFormed : IsWellFormed header
  unfolding header
  header-IsWellFormed = record {
    initiator = uint64_spi-IsSpi env.initiator_spi;
    responder = uint64_spi-IsSpi env.responder_spi;
    next_byte = type-IsByte;
    exchange_byte = wo.exchange_byte;
    version = refl;
    flags = wo.flags;
    message_id = wo.message_id;
    length = omega arith;
  }

  raw_lem : raw ≡ marshal_to header [] ++ rest
  unfolding raw prefix header rest payload_len
  raw_lem =
      append_assoc (marshal_to (sealed_header env o enc_type frag (length body)) [])
        (payload_head inner_next (4 + length (fragment_bytes frag) + length body)
          ++ fragment_bytes frag)
        body
      ∙ ap (λ t. marshal_to (sealed_header env o enc_type frag (length body)) [] ++ t)
          (append_assoc (payload_head inner_next (4 + length (fragment_bytes frag) + length body))
            (fragment_bytes frag) body)

  length-rest : length rest ≡ payload_len
  unfolding rest payload_len
  length-rest = omega (arith, length-append (fragment_bytes frag) body)

  length-header : header.length ≡ 28 + length rest
  unfolding header
  length-header = omega (arith, length-rest, payload_len_lem)

  parse_raw : parse_header raw ≡ ok (header, rest)
  parse_raw =
      ap parse_header raw_lem
      ∙ parse_header-marshal header rest header-IsWellFormed (omega (arith, length-header))
          (omega (arith, length-header))
      ∙ ap (λ t. ok (header, t)) (take_all rest (header.length - 28) (omega (arith, length-header)))

  found : Located
  found = record { type = enc_type; start = 28; len = payload_len; inner_next = inner_next }

  locate-raw : (fuel : ℕ) → locate (suc fuel) raw rest enc_type 0 ≡ ok found
  unfolding locate found rest raw prefix marshal_to payload_len
  locate-raw fuel =
      let t = IsEnvelopeOf-type enc_type frag we in
      let n = length (fragment_bytes frag ++ body) in
      let l = length-append (fragment_bytes frag) body in
      let enc : is_encrypted enc_type ≡ true = ground (arith, t) in
      rw
        (
          ne→== enc_type 0 (ground (arith, t)),
          locate,
          le→ltb (suc (suc (suc (suc n))) - 0) 4 (omega arith),
          be_uint16-put {E = ProtectedError} (4 + length (fragment_bytes frag) + length body) []
              (omega arith),
          le→ltb (4 + length (fragment_bytes frag) + length body) 4 (omega arith),
          enc,
          locate,
        )
        (reject-ok _ _ _
          (le→ltb (suc (suc (suc (suc n)))) (0 + (4 + length (fragment_bytes frag) + length body))
            (omega (arith, l)))
          (reject-ok _ ProtectedError.not_terminal _
            (ap not (
              eq→== (0 + (4 + length (fragment_bytes frag) + length body)) (suc (suc (suc (suc n))))
                (omega (arith, l))))
            refl))

  read_raw : read_fragment_header raw found ≡ ok frag
  unfolding raw prefix found payload_len marshal_to
  read_raw =
      read_fragment_header_lem
        (marshal_to (sealed_header env o enc_type frag (length body)) []
          ++ payload_head inner_next (4 + length (fragment_bytes frag) + length body))
        frag body enc_type inner_next refl we

  iv_start_lem : iv_start found frag ≡ length prefix
  unfolding found prefix marshal_to
  iv_start_lem = omega (arith, iv_start_of frag found refl)

  end_lem : found.start + found.len ≡ length raw
  unfolding found raw prefix payload_len marshal_to
  end_lem = omega (arith, length-append (fragment_bytes frag) body)

  open_located-raw :
      (c : IkeCrypto) (to : IkeEnvelope) (sel : Selection) (keys : IkeKeys) (plain : List ℕ)
      → open_encrypted_body c sel
          (inbound_key_halves to keys).0
          (inbound_key_halves to keys).1
          prefix
          body
        ≡ ok plain
      → open_located c to sel keys raw found
        ≡ ok (record { frag = frag; body = body; plain = plain })
  unfolding open_located raw
  open_located-raw c to sel keys plain e =
      let n = iv_start found frag in
      let end = found.start + found.len in
      let ends : end ≡ length raw = omega (arith, iv_start_lem, end_lem) in
      let starts : n ≤ end = omega (arith, iv_start_lem, end_lem, length-append prefix body) in
      >>=-ok _ _ read_raw (
        >>=-ok _ _
          (slice_ok {E = ProtectedError} raw 0 n (omega arith) (omega (arith, ends, starts))
            ∙ ap ok (take-append_length prefix body (n - 0) (omega (arith, iv_start_lem))))
          (>>=-ok _ _
            (slice_ok {E = ProtectedError} raw n end starts (omega (arith, ends))
              ∙ ap ok (
                  ap (take (end - n)) (drop-append_length prefix body n iv_start_lem)
                  ∙ take_all body (end - n)
                      (omega (arith, iv_start_lem, ends, length-append prefix body))))
            (>>=-ok _ _ e refl)))

  -- The body opens in the packet to what it opens to by itself.
  pub open_raw :
      (c : IkeCrypto) (to : IkeEnvelope) (sel : Selection) (keys : IkeKeys)
      (t : Option FragmentReassembly) (now timeout : ℕ) (plain : List ℕ)
      → to.selected_ike ≡ some sel
      → to.ike_keys ≡ some keys
      → open_encrypted_body c sel
          (inbound_key_halves to keys).0
          (inbound_key_halves to keys).1
          (sealed_prefix env o enc_type inner_next frag (length body))
          body
        ≡ ok plain
      → open_protected_raw c to t now timeout
          (sealed_prefix env o enc_type inner_next frag (length body) ++ body)
        ≡ finish_opened t
            (record {
              type = enc_type;
              start = 28;
              len = 4 + length (fragment_bytes frag) + length body;
              inner_next = inner_next;
            })
            (record {
              exchange = o.exchange;
              message_id = o.message_id;
              now = now;
              timeout = if ltb 0 timeout then timeout else 15000000000;
            })
            (ok (record { frag = frag; body = body; plain = plain }))
  unfolding open_protected_raw raw prefix found payload_len header
  open_raw c to sel keys t now timeout plain es ek e =
      ap
        (λ o'.
          open_with c to o' to.ike_keys t now (if ltb 0 timeout then timeout else 15000000000) raw)
        es
      ∙ ap
          (λ o'.
            open_with c to (some sel) o' t now (if ltb 0 timeout then timeout else 15000000000) raw)
          ek
      ∙ ap (open_headed c to sel keys t now (if ltb 0 timeout then timeout else 15000000000) raw)
          parse_raw
      ∙ ap
          (open_found c to sel keys t raw
            (arrival_of now (if ltb 0 timeout then timeout else 15000000000) header))
          (locate-raw (length rest))
      ∙ ap
          (finish_opened t found
            (arrival_of now (if ltb 0 timeout then timeout else 15000000000) header))
          (open_located-raw c to sel keys plain e)
