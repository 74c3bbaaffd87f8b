-- ===== src/Wire/Examples.antt =====
-- The theorems on the wire format at concrete packets.
use swan.Common.{
  ℕ, ◌-◌, ◌<◌, ◌≡◌, ◌≢◌, ◌↔◌, refl, arith, true, false, List, [], ◌∷◌, ◌++◌, take, none,
}
use swan.Common.Bytes.{are_bytes, are_bytes-All}
use swan.Common.Outcome.{ok, ◌>>=◌, Ensures}
use swan.Wire.Header.{Spi, spi_bytes, Header, SkfHeader, marshal_to, parse_header, parse_skf_header}
use swan.Wire.Header.Laws.{IsWellFormed, HeaderOf, parse_header-marshal, parse_header-Ensures}
use swan.Wire.Message.{Payload, parse_payloads, parse_message}
use swan.Wire.Message.Safety.{FragmentAt, parse_skf_header-Ensures}
use swan.Wire.Message.Walk.{MessageOf, Walks, parse_payloads-Walks, parse_message-Ensures}
use swan.Wire.Builder.{new_builder, finish}
use swan.Wire.Builder.Chain.{Item, push_all, encode_chain}
use swan.Wire.Builder.RoundTrip.{payloads_of, finished_header, parse_message-finish}

abbrev spi_a : Spi
spi_a = record { b0 = 1; b1 = 2; b2 = 3; b3 = 4; b4 = 5; b5 = 6; b6 = 7; b7 = 8 }

abbrev spi_b : Spi
spi_b = record { b0 = 9; b1 = 0; b2 = 0; b3 = 0; b4 = 0; b5 = 0; b6 = 0; b7 = 1 }

-- An INFORMATIONAL request of the initiator, 40 bytes long.
abbrev info_header : Header
info_header = record {
  initiator_spi = spi_a;
  responder_spi = spi_b;
  next_payload = 41;
  version = 0x20;
  exchange_type = 37;
  flags = 8;
  message_id = 7;
  length = 40;
}

info_header-IsWellFormed : IsWellFormed info_header
info_header-IsWellFormed = record {
  initiator = are_bytes-All (spi_bytes spi_a) refl;
  responder = are_bytes-All (spi_bytes spi_b) refl;
  next_byte = omega arith;
  exchange_byte = omega arith;
  version = refl;
  flags = refl;
  message_id = omega arith;
  length = omega arith;
}

abbrev info_body : List ℕ
info_body = 0 ∷ 0 ∷ 0 ∷ 8 ∷ 0 ∷ 0 ∷ 0x40 ∷ 0 ∷ 0 ∷ 0 ∷ 0 ∷ 4 ∷ []

parse_header-marshal_example :
    parse_header (marshal_to info_header [] ++ info_body)
    ≡ ok (info_header, take (40 - 28) info_body)
parse_header-marshal_example =
    parse_header-marshal info_header info_body info_header-IsWellFormed (omega arith) (omega arith)

-- A packet of one NOTIFY.
abbrev info_packet : List ℕ
info_packet = marshal_to info_header [] ++ info_body

info_packet-bytes : are_bytes info_packet ≡ true
unfolding marshal_to
info_packet-bytes = refl

parse_header-Ensures_example : Ensures (HeaderOf info_packet) (parse_header info_packet)
parse_header-Ensures_example =
    parse_header-Ensures info_packet (are_bytes-All info_packet info_packet-bytes)

parse_message-Ensures_example : Ensures (MessageOf info_packet) (parse_message info_packet)
parse_message-Ensures_example =
    parse_message-Ensures info_packet (are_bytes-All info_packet info_packet-bytes)

abbrev info_notify : Payload
info_notify = record { type = 41; critical = false; next = 0; body = 0 ∷ 0 ∷ 0x40 ∷ 0 ∷ [] }

-- Two payloads, the first of type 41.
abbrev two_notifies : List ℕ
two_notifies = 41 ∷ 0 ∷ 0 ∷ 8 ∷ 0 ∷ 0 ∷ 0x40 ∷ 0 ∷ 0 ∷ 0 ∷ 0 ∷ 8 ∷ 0 ∷ 0 ∷ 0x40 ∷ 0 ∷ []

parse_payloads-Walks_example :
    (parse_payloads two_notifies 41 false
      ≡ ok (record info_notify { next = 41 } ∷ info_notify ∷ [], none))
    ↔ Walks false two_notifies 41 (record info_notify { next = 41 } ∷ info_notify ∷ []) none
parse_payloads-Walks_example =
    parse_payloads-Walks two_notifies 41 false (record info_notify { next = 41 } ∷ info_notify ∷ [])
      none

-- Fragment 1 of 2.
abbrev fragment : List ℕ
fragment = 0 ∷ 1 ∷ 0 ∷ 2 ∷ 0xaa ∷ 0xbb ∷ []

parse_skf_header-Ensures_example :
    Ensures
      (λ (r : SkfHeader × List ℕ). FragmentAt fragment r.0 × (r.1 ≡ 0xaa ∷ 0xbb ∷ []))
      (parse_skf_header fragment)
parse_skf_header-Ensures_example = parse_skf_header-Ensures fragment

abbrev two_items : List Item
two_items =
    record { type = 41; critical = false; body = 0 ∷ 0 ∷ 0x40 ∷ 0 ∷ [] }
    ∷ record { type = 47; critical = true; body = 1 ∷ 0 ∷ 0 ∷ 0 ∷ [] }
    ∷ []

positive : (n : ℕ) → 0 < n → n ≢ 0
positive n h e = absurd (omega (arith, e))

parse_message-finish_example :
    (packet : List ℕ) × ((push_all two_items (new_builder info_header) >>= finish) ≡ ok packet)
    × (parse_message packet
        ≡ ok (record {
          header = finished_header info_header two_items;
          payloads = payloads_of two_items;
          encrypted = none;
        }))
unfolding encode_chain
parse_message-finish_example =
    parse_message-finish info_header two_items info_header-IsWellFormed (omega arith)
      (
        (positive 41 (omega arith), refl, omega arith),
        ((positive 47 (omega arith), refl, omega arith), tt),
      )
      (omega arith)
