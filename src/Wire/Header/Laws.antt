-- ===== src/Wire/Header/Laws.antt =====
-- Printing and parsing the IKE header are inverse, and parsing never panics.
use Prim.Native.Nat.{ℕ, ◌+◌, ◌-◌, ◌*◌, ◌^◌, ◌≤◌, ◌<◌}
use swan.Common.{
  ◌≡◌, refl, sym, arith, List, [], ◌∷◌, ◌++◌, length, take, get_or, All, IsByte, ltb, le→ltb, eq→==,
  ltb→ge, take-append,
}
use swan.Common.Bits.{byte_at}
use swan.Common.Outcome.{ok, Ensures, >>=-Ensures, reject-Ensures, slice_ok}
use swan.Wire.Errors.{WireError}
use swan.Wire.Be.Laws.{be_uint32-put, be_uint32_bytes}
use swan.Wire.Header.{
  Spi, Header, spi_bytes, and_not, flags_mask, check_header, read_header, parse_header, marshal_to,
}

abbrev pub IsSpi : Spi → Type 0
IsSpi s = All IsByte (spi_bytes s)

-- A header that the code can send: bytes in its byte fields, a 32-bit id and length, version 2.0,
-- and no reserved flag.
pub record IsWellFormed (h : Header) : Type 0 where
  pub initiator : IsSpi h.initiator_spi
  pub responder : IsSpi h.responder_spi
  pub next_byte : IsByte h.next_payload
  pub exchange_byte : IsByte h.exchange_type
  pub version : h.version ≡ 0x20
  pub flags : and_not h.flags flags_mask ≡ 0
  pub message_id : h.message_id < 2 ^ 32
  pub length : h.length < 2 ^ 32

read_header-marshal :
    (h : Header) (rest : List ℕ)
    → h.message_id < 2 ^ 32
    → read_header (marshal_to h [] ++ rest) h.length ≡ ok h
unfolding read_header marshal_to
read_header-marshal h rest m = rw (be_uint32-put h.message_id [] m) refl

check_header-ok :
    (h : Header) → h.version ≡ 0x20 → and_not h.flags flags_mask ≡ 0 → check_header h ≡ ok tt
unfolding check_header
check_header-ok h v f = rw (eq→== h.version 0x20 v, eq→== (and_not h.flags flags_mask) 0 f) refl

-- A printed header, and what follows it, parses to the header and the rest of the declared length.
pub parse_header-marshal :
    (h : Header) (rest : List ℕ)
    → IsWellFormed h
    → 28 ≤ h.length
    → h.length ≤ length rest + 28
    → parse_header (marshal_to h [] ++ rest) ≡ ok (h, take (h.length - 28) rest)
unfolding parse_header marshal_to
parse_header-marshal h rest w lo hi =
    let b : List ℕ = marshal_to h [] ++ rest in
    rw
      (
        le→ltb (length b) 28 (omega arith),
        be_uint32-put h.length [] w.length,
        le→ltb h.length 28 lo,
        le→ltb (length b) h.length (omega arith),
        read_header-marshal h rest w.message_id,
        check_header-ok h w.version w.flags,
        slice_ok {E = WireError} b 28 h.length lo (omega arith),
      )
      refl

check_header-Ensures :
    (h : Header)
    → Ensures (λ _. (h.version ≡ 0x20) × (and_not h.flags flags_mask ≡ 0)) (check_header h)
unfolding check_header
check_header-Ensures h = ground arith

-- What a parsed header says of the input: it prints back to the front of the input, and `rest` is
-- what follows it, up to the declared length.
abbrev pub HeaderOf : List ℕ → Header × List ℕ → Type 0
HeaderOf b (h, rest) =
    IsWellFormed h
    × (28 ≤ h.length)
    × (h.length ≤ length b)
    × (marshal_to h [] ++ rest ≡ take h.length b)

uint32_parts :
    (x y z w : ℕ)
    → IsByte x
    → IsByte y
    → IsByte z
    → IsByte w
    → let n = x * 16777216 + y * 65536 + z * 256 + w in
      (n < 2 ^ 32) × (byte_at n 24 ≡ x) × (byte_at n 16 ≡ y) × (byte_at n 8 ≡ z) × (byte_at n 0 ≡ w)
uint32_parts x y z w hx hy hz hw = omega arith

-- The header that `read_header` reads from 28 bytes.
abbrev header_of : List ℕ → ℕ → ℕ → Header
header_of b message_id declared = record {
  initiator_spi = record {
    b0 = get_or b 0 0;
    b1 = get_or b 1 0;
    b2 = get_or b 2 0;
    b3 = get_or b 3 0;
    b4 = get_or b 4 0;
    b5 = get_or b 5 0;
    b6 = get_or b 6 0;
    b7 = get_or b 7 0;
  };
  responder_spi = record {
    b0 = get_or b 8 0;
    b1 = get_or b 9 0;
    b2 = get_or b 10 0;
    b3 = get_or b 11 0;
    b4 = get_or b 12 0;
    b5 = get_or b 13 0;
    b6 = get_or b 14 0;
    b7 = get_or b 15 0;
  };
  next_payload = get_or b 16 0;
  version = get_or b 17 0;
  exchange_type = get_or b 18 0;
  flags = get_or b 19 0;
  message_id = message_id;
  length = declared;
}

-- On every input of bytes the parser returns, with no panic; an accepted header prints back.
pub parse_header-Ensures : (b : List ℕ) → All IsByte b → Ensures (HeaderOf b) (parse_header b)
unfolding parse_header read_header marshal_to
parse_header-Ensures
      (x0 ∷ x1 ∷ x2 ∷ x3 ∷ x4 ∷ x5 ∷ x6 ∷ x7 ∷ x8 ∷ x9 ∷ x10 ∷ x11 ∷ x12 ∷ x13 ∷ x14 ∷ x15 ∷ x16
        ∷ x17 ∷ x18 ∷ x19 ∷ x20 ∷ x21 ∷ x22 ∷ x23 ∷ x24 ∷ x25 ∷ x26 ∷ x27 ∷ r)
      h =
    let b : List ℕ =
      x0 ∷ x1 ∷ x2 ∷ x3 ∷ x4 ∷ x5 ∷ x6 ∷ x7 ∷ x8 ∷ x9 ∷ x10 ∷ x11 ∷ x12 ∷ x13 ∷ x14 ∷ x15 ∷ x16
      ∷ x17 ∷ x18 ∷ x19 ∷ x20 ∷ x21 ∷ x22 ∷ x23 ∷ x24 ∷ x25 ∷ x26 ∷ x27 ∷ r in
    let n : ℕ = x24 * 16777216 + x25 * 65536 + x26 * 256 + x27 in
    let m : ℕ = x20 * 16777216 + x21 * 65536 + x22 * 256 + x23 in
    let hd : Header = header_of b m n in
    rw
      (
        be_uint32_bytes x24 x25 x26 x27 [] (omega arith) (omega arith) (omega arith) (omega arith),
        be_uint32_bytes x20 x21 x22 x23 [] (omega arith) (omega arith) (omega arith) (omega arith),
      )
      (reject-Ensures (HeaderOf b) (ltb (length b) 28) _ _ λ _.
        reject-Ensures (HeaderOf b) (ltb n 28) _ _ λ lo.
          reject-Ensures (HeaderOf b) (ltb (length b) n) _ _ λ hi.
            >>=-Ensures (λ _. (hd.version ≡ 0x20) × (and_not hd.flags flags_mask ≡ 0)) (HeaderOf b)
              (check_header hd) _ (check_header-Ensures hd)
              λ _ c.
                let lo' : 28 ≤ n = ltb→ge n 28 lo in
                let hi' : n ≤ length b = ltb→ge (length b) n hi in
                let front : List ℕ =
                  x0 ∷ x1 ∷ x2 ∷ x3 ∷ x4 ∷ x5 ∷ x6 ∷ x7 ∷ x8 ∷ x9 ∷ x10 ∷ x11 ∷ x12 ∷ x13 ∷ x14
                  ∷ x15 ∷ x16 ∷ x17 ∷ x18 ∷ x19 ∷ x20 ∷ x21 ∷ x22 ∷ x23 ∷ x24 ∷ x25 ∷ x26 ∷ x27
                  ∷ [] in
                let pm =
                  uint32_parts x20 x21 x22 x23 (omega arith) (omega arith) (omega arith)
                    (omega arith) in
                let pn =
                  uint32_parts x24 x25 x26 x27 (omega arith) (omega arith) (omega arith)
                    (omega arith) in
                rw (slice_ok {E = WireError} b 28 n lo' hi') (
                  record {
                    initiator = omega arith;
                    responder = omega arith;
                    next_byte = omega arith;
                    exchange_byte = omega arith;
                    version = c.0;
                    flags = c.1;
                    message_id = pm.0;
                    length = pn.0;
                  },
                  lo',
                  hi',
                  rw (pm.1, pm.2, pm.3, pm.4, pn.1, pn.2, pn.3, pn.4)
                      (sym (take-append n front r lo')),
                ))
parse_header-Ensures b h = tt
