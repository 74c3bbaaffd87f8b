-- ===== src/Wire/Builder.antt =====
-- The builder of the outer part of an IKE packet: wire/builder.go.
pub mod Chain
pub mod RoundTrip
use swan.Common.{
  ℕ, ◌+◌, ltb, ◌==◌, if◌then◌else◌, Bool, true, false, List, [], ◌∷◌, ◌++◌, length, leb,
}
use swan.Common.Outcome.{Outcome, ok, err, panic, ◌>>=◌, ◌>>◌, reject}
use swan.Wire.Consts.{header_len, payload_header_len, payload_type_none}
use swan.Wire.Errors.{BuildError, payload_none, payload_too_large, packet_too_large}
use swan.Wire.Be.{store, put_uint16, put_uint32}
use swan.Wire.Header.{Header, marshal_to}

-- `last_next_offset` is never negative, so the test for that always passes.
pub record Builder : Type 0 where
  pub buf : List ℕ
  pub first : ℕ
  pub first_set : Bool
  pub last_next_offset : ℕ
  pub header : Header

unfoldable pub new_builder : Header → Builder
new_builder h = record {
  buf = marshal_to h [];
  first = payload_type_none;
  first_set = false;
  last_next_offset = 16;
  header = h;
}

unfoldable pub push : ℕ → Bool → List ℕ → Builder → Outcome BuildError Builder
push t critical body b = do
  reject (t == payload_type_none) payload_none
  let total = payload_header_len + length body
  reject (ltb 0xffff total) (payload_too_large t total)
  reject (ltb (0xffff + header_len) (length b.buf + total))
      (packet_too_large (length b.buf + total))
  let start = length b.buf
  let buf0 = b.buf ++ (0 ∷ 0 ∷ 0 ∷ 0 ∷ [])
  buf1 ← store buf0 start payload_type_none
  buf2 ← store buf1 (start + 1) (if critical then 0x80 else 0)
  buf3 ← put_uint16 buf2 (start + 2) total
  buf4 ← store buf3 b.last_next_offset t
  ok (record {
    buf = buf4 ++ body;
    first = if b.first_set then b.first else t;
    first_set = true;
    last_next_offset = start;
    header = b.header;
  })

unfoldable pub first_payload : Builder → ℕ
first_payload b = if b.first_set then b.first else payload_type_none

-- `PatchLength`; `byte(uint32(len) >> k)` is the byte of the length at `k` below 32.
unfoldable pub patch_length : Builder → Outcome BuildError Builder
patch_length b = do buf ← put_uint32 b.buf 24 (length b.buf); ok (record b { buf = buf })

unfoldable pub finish : Builder → Outcome BuildError (List ℕ)
finish b = do
  buf ← store b.buf 16 (first_payload b)
  b' ← patch_length (record b { buf = buf })
  ok b'.buf
