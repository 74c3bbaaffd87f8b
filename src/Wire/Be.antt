-- ===== src/Wire/Be.antt =====
-- Big-endian accessors: wire/be.go, and wire/payload/be.go, which repeats the 16- and 32-bit ones.
pub mod Laws
use swan.Common.{
  ℕ, zero, suc, ◌+◌, ◌*◌, ◌<◌, ltb, List, [], ◌∷◌, length, set, if◌then◌else◌, bit_or,
}
use swan.Common.Bits.{shl, byte_at}
use swan.Common.Outcome.{Outcome, ok, panic, ◌>>=◌, index}

-- `b[i] = v`.
abbrev pub store : {E : Type 0} → List ℕ → ℕ → ℕ → Outcome E (List ℕ)
store b i v = if ltb i (length b) then ok (set b i v) else panic

unfoldable pub be_uint16 : {E : Type 0} → List ℕ → Outcome E ℕ
be_uint16 b = do b0 ← index b 0; b1 ← index b 1; ok (bit_or (shl 16 b0 8) b1)

unfoldable pub be_uint32 : {E : Type 0} → List ℕ → Outcome E ℕ
be_uint32 b = do
  b0 ← index b 0
  b1 ← index b 1
  b2 ← index b 2
  b3 ← index b 3
  ok (bit_or (bit_or (bit_or (shl 32 b0 24) (shl 32 b1 16)) (shl 32 b2 8)) b3)

-- `putUint16(b[off:off+2], v)`: the subslice shares its memory with `b`.
unfoldable pub put_uint16 : {E : Type 0} → List ℕ → ℕ → ℕ → Outcome E (List ℕ)
put_uint16 b off v = do b1 ← store b off (byte_at v 8); store b1 (off + 1) (byte_at v 0)

unfoldable pub put_uint32 : {E : Type 0} → List ℕ → ℕ → ℕ → Outcome E (List ℕ)
put_uint32 b off v = do
  b1 ← store b off (byte_at v 24)
  b2 ← store b1 (off + 1) (byte_at v 16)
  b3 ← store b2 (off + 2) (byte_at v 8)
  store b3 (off + 3) (byte_at v 0)
