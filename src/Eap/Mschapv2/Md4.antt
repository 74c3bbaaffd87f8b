-- ===== src/Eap/Mschapv2/Md4.antt =====
-- The MD4 digest: eap/mschapv2/md4.go. Words have 32 bits; arrays of a fixed length are lists that are
-- read in range.
use Prim.Native.Nat.{bit_xor}
use swan.Common.{
  ℕ, zero, suc, ◌+◌, ◌-◌, ◌*◌, ◌/◌, ◌%◌, ◌^◌, leb, if◌then◌else◌, List, [], ◌∷◌, ◌++◌, length, take,
  drop, get_or, bit_and, bit_or,
}
use swan.Common.Bits.{byte_at}

-- The four words a, b, c, d.
abbrev pub Words : Type 0
Words = ℕ × ℕ × ℕ × ℕ

abbrev word_add : ℕ → ℕ → ℕ
word_add x y = (x + y) % 2 ^ 32

abbrev word_not : ℕ → ℕ
word_not x = 2 ^ 32 - 1 - x

-- `bits.RotateLeft32`.
abbrev rotate_left : ℕ → ℕ → ℕ
rotate_left x s = bit_or (x * 2 ^ s % 2 ^ 32) (x / 2 ^ (32 - s))

unfoldable pub md4_f : ℕ → ℕ → ℕ → ℕ
md4_f x y z = bit_or (bit_and x y) (bit_and (word_not x) z)

unfoldable pub md4_g : ℕ → ℕ → ℕ → ℕ
md4_g x y z = bit_or (bit_or (bit_and x y) (bit_and x z)) (bit_and y z)

unfoldable pub md4_h : ℕ → ℕ → ℕ → ℕ
md4_h x y z = bit_xor (bit_xor x y) z

unfoldable pub md4_step_f : Words → ℕ → ℕ → Words
md4_step_f (a, b, c, d) x s = (d, rotate_left (word_add (word_add a (md4_f b c d)) x) s, b, c)

unfoldable pub md4_step_g : Words → ℕ → ℕ → Words
md4_step_g (a, b, c, d) x s =
    (d, rotate_left (word_add (word_add (word_add a (md4_g b c d)) x) 0x5a827999) s, b, c)

unfoldable pub md4_step_h : Words → ℕ → ℕ → Words
md4_step_h (a, b, c, d) x s =
    (d, rotate_left (word_add (word_add (word_add a (md4_h b c d)) x) 0x6ed9eba1) s, b, c)

-- One round: the words of the block in an order, each with its shift.
unfoldable pub md4_round : (Words → ℕ → ℕ → Words) → List ℕ → List ℕ → List ℕ → Words → Words
md4_round step x [] shifts w = w
md4_round step x (i ∷ order) [] w = w
md4_round step x (i ∷ order) (s ∷ shifts) w =
    md4_round step x order shifts (step w (get_or x i 0) s)

abbrev order1 : List ℕ
order1 = 0 ∷ 1 ∷ 2 ∷ 3 ∷ 4 ∷ 5 ∷ 6 ∷ 7 ∷ 8 ∷ 9 ∷ 10 ∷ 11 ∷ 12 ∷ 13 ∷ 14 ∷ 15 ∷ []

abbrev order2 : List ℕ
order2 = 0 ∷ 4 ∷ 8 ∷ 12 ∷ 1 ∷ 5 ∷ 9 ∷ 13 ∷ 2 ∷ 6 ∷ 10 ∷ 14 ∷ 3 ∷ 7 ∷ 11 ∷ 15 ∷ []

abbrev order3 : List ℕ
order3 = 0 ∷ 8 ∷ 4 ∷ 12 ∷ 2 ∷ 10 ∷ 6 ∷ 14 ∷ 1 ∷ 9 ∷ 5 ∷ 13 ∷ 3 ∷ 11 ∷ 7 ∷ 15 ∷ []

abbrev four_times : ℕ → ℕ → ℕ → ℕ → List ℕ
four_times p q r s = p ∷ q ∷ r ∷ s ∷ p ∷ q ∷ r ∷ s ∷ p ∷ q ∷ r ∷ s ∷ p ∷ q ∷ r ∷ s ∷ []

-- The little-endian words of a block.
unfoldable pub block_words : ℕ → List ℕ → List ℕ
block_words zero block = []
block_words (suc n) block =
    (get_or block 0 0
      + get_or block 1 0 * 2 ^ 8
      + get_or block 2 0 * 2 ^ 16
      + get_or block 3 0 * 2 ^ 24)
    ∷ block_words n (drop 4 block)

abbrev add_words : Words → Words → Words
add_words (a, b, c, d) (a', b', c', d') =
    (word_add a a', word_add b b', word_add c c', word_add d d')

unfoldable pub md4_transform : Words → List ℕ → Words
md4_transform w block =
    let x : List ℕ = block_words 16 block in
    let w1 : Words = md4_round md4_step_f x order1 (four_times 3 7 11 19) w in
    let w2 : Words = md4_round md4_step_g x order2 (four_times 3 5 9 13) w1 in
    let w3 : Words = md4_round md4_step_h x order3 (four_times 3 9 11 15) w2 in add_words w w3

unfoldable pub full_blocks : ℕ → List ℕ → Words → Words
full_blocks zero input w = w
full_blocks (suc n) input w = full_blocks n (drop 64 input) (md4_transform w (take 64 input))

abbrev zero_bytes : ℕ → List ℕ
zero_bytes zero = []
zero_bytes (suc n) = 0 ∷ zero_bytes n

abbrev little_endian : ℕ → ℕ → List ℕ
little_endian zero v = []
little_endian (suc n) v = byte_at v 0 ∷ little_endian n (v / 256)

-- The last block or two: the tail, the byte 0x80, and the length in bits in the last eight bytes.
unfoldable pub md4_tail : ℕ → List ℕ → Words → Words
md4_tail len tail w =
    let count : List ℕ = little_endian 8 (len * 8 % 2 ^ 64) in
    if leb 56 (length tail)
    then md4_transform (md4_transform w (tail ++ (0x80 ∷ zero_bytes (63 - length tail))))
        (zero_bytes 56 ++ count)
    else md4_transform w (tail ++ (0x80 ∷ (zero_bytes (55 - length tail) ++ count)))

abbrev words_bytes : Words → List ℕ
words_bytes (a, b, c, d) =
    little_endian 4 a ++ (little_endian 4 b ++ (little_endian 4 c ++ little_endian 4 d))

unfoldable pub md4 : List ℕ → List ℕ
md4 input =
    let blocks : ℕ = length input / 64 in
    words_bytes (
      md4_tail (length input) (drop (blocks * 64) input)
        (full_blocks blocks input (0x67452301, 0xefcdab89, 0x98badcfe, 0x10325476)))
