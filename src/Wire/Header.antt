-- ===== src/Wire/Header.antt =====
-- The fixed 28-byte IKE header and the SKF fragment header: wire/header.go.
pub mod Laws
use swan.Common.{
  ℕ, ◌-◌, ltb, ◌==◌, if◌then◌else◌, Bool, true, false, ◌&&◌, ◌||◌, not, List, [], ◌∷◌, ◌++◌, length,
  bit_and, bit_or,
}
use swan.Common.Bits.{shl, byte_at}
use swan.Common.Outcome.{Outcome, ok, err, panic, ◌>>=◌, ◌>>◌, reject, index, slice, slice_from}
use swan.Wire.Consts.{
  header_len, skf_header_len, ike_default_version, flag_response, flag_version, flag_initiator,
}
use swan.Wire.Errors.{
  WireError, packet_too_short, total_below_header, total_exceeds_input, unexpected_version,
  invalid_flags, skf_too_short, skf_numbers,
}
use swan.Wire.Be.{be_uint16, be_uint32}

-- `type SPI [8]byte`.
pub record Spi : Type 0 where
  pub b0 : ℕ
  pub b1 : ℕ
  pub b2 : ℕ
  pub b3 : ℕ
  pub b4 : ℕ
  pub b5 : ℕ
  pub b6 : ℕ
  pub b7 : ℕ

-- `putUint64` into a fresh array.
unfoldable pub uint64_spi : ℕ → Spi
uint64_spi v = record {
  b0 = byte_at v 56;
  b1 = byte_at v 48;
  b2 = byte_at v 40;
  b3 = byte_at v 32;
  b4 = byte_at v 24;
  b5 = byte_at v 16;
  b6 = byte_at v 8;
  b7 = byte_at v 0;
}

-- `beUint64` of the array.
unfoldable pub spi_uint64 : Spi → ℕ
spi_uint64 s =
    bit_or
      (bit_or
        (bit_or
          (bit_or
            (bit_or (bit_or (bit_or (shl 64 s.b0 56) (shl 64 s.b1 48)) (shl 64 s.b2 40))
              (shl 64 s.b3 32))
            (shl 64 s.b4 24))
          (shl 64 s.b5 16))
        (shl 64 s.b6 8))
      s.b7

unfoldable pub spi_is_zero : Spi → Bool
spi_is_zero s =
    s.b0 == 0
    && s.b1 == 0
    && s.b2 == 0
    && s.b3 == 0
    && s.b4 == 0
    && s.b5 == 0
    && s.b6 == 0
    && s.b7 == 0

abbrev pub spi_bytes : Spi → List ℕ
spi_bytes s = s.b0 ∷ s.b1 ∷ s.b2 ∷ s.b3 ∷ s.b4 ∷ s.b5 ∷ s.b6 ∷ s.b7 ∷ []

-- `SPI(b)`: the conversion of a slice to an array panics on a shorter slice.
abbrev pub to_spi : {E : Type 0} → List ℕ → Outcome E Spi
to_spi (x0 ∷ x1 ∷ x2 ∷ x3 ∷ x4 ∷ x5 ∷ x6 ∷ x7 ∷ r) =
    ok (record { b0 = x0; b1 = x1; b2 = x2; b3 = x3; b4 = x4; b5 = x5; b6 = x6; b7 = x7 })
to_spi r = panic

pub record Header : Type 0 where
  pub initiator_spi : Spi
  pub responder_spi : Spi
  pub next_payload : ℕ
  pub version : ℕ
  pub exchange_type : ℕ
  pub flags : ℕ
  pub message_id : ℕ
  pub length : ℕ

pub record SkfHeader : Type 0 where
  pub fragment_number : ℕ
  pub total_fragments : ℕ

abbrev pub flags_mask : ℕ
flags_mask = bit_or (bit_or flag_response flag_version) flag_initiator

-- `x &^ m` on bytes.
abbrev pub and_not : ℕ → ℕ → ℕ
and_not x m = bit_and x (255 - m)

-- The checks on the decoded fields.
unfoldable pub check_header : Header → Outcome WireError (Unit {0})
check_header h = do
  reject (not (h.version == ike_default_version)) (unexpected_version h.version)
  reject (not (and_not h.flags flags_mask == 0)) (invalid_flags h.flags)

-- The fields of a buffer that holds a header, at the declared length.
unfoldable pub read_header : List ℕ → ℕ → Outcome WireError Header
read_header b declared = do
  isp ← slice b 0 8
  initiator ← to_spi isp
  rsp ← slice b 8 16
  responder ← to_spi rsp
  next ← index b 16
  version ← index b 17
  exchange ← index b 18
  flags ← index b 19
  mid ← slice b 20 24
  message_id ← be_uint32 mid
  ok (record {
    initiator_spi = initiator;
    responder_spi = responder;
    next_payload = next;
    version = version;
    exchange_type = exchange;
    flags = flags;
    message_id = message_id;
    length = declared;
  })

unfoldable pub parse_header : List ℕ → Outcome WireError (Header × List ℕ)
parse_header b = do
  reject (ltb (length b) header_len) (packet_too_short (length b))
  len ← slice b 24 28
  declared ← be_uint32 len
  reject (ltb declared header_len) (total_below_header declared)
  reject (ltb (length b) declared) (total_exceeds_input declared (length b))
  h ← read_header b declared
  check_header h
  rest ← slice b header_len declared
  ok (h, rest)

-- `MarshalTo`: the 28 bytes at their offsets.
unfoldable pub marshal_to : Header → List ℕ → List ℕ
marshal_to h dst =
    dst
    ++ (spi_bytes h.initiator_spi
        ++ (spi_bytes h.responder_spi
            ++ (h.next_payload
                ∷ h.version
                ∷ h.exchange_type
                ∷ h.flags
                ∷ byte_at h.message_id 24
                ∷ byte_at h.message_id 16
                ∷ byte_at h.message_id 8
                ∷ byte_at h.message_id 0
                ∷ byte_at h.length 24
                ∷ byte_at h.length 16
                ∷ byte_at h.length 8
                ∷ byte_at h.length 0
                ∷ [])))

unfoldable pub parse_skf_header : List ℕ → Outcome WireError (SkfHeader × List ℕ)
parse_skf_header b = do
  reject (ltb (length b) skf_header_len) (skf_too_short (length b))
  nb ← slice b 0 2
  number ← be_uint16 nb
  tb ← slice b 2 4
  total ← be_uint16 tb
  reject (number == 0 || total == 0 || ltb total number) (skf_numbers number total)
  rest ← slice_from b skf_header_len
  ok (record { fragment_number = number; total_fragments = total }, rest)
