-- ===== src/Eap/Mschapv2/DesKey.antt =====
-- The expansion of seven bytes into a DES key: expandDesKey, oddParity and onesCount of
-- eap/mschapv2/mschapv2.go.
pub mod Parity
use swan.Common.{
  ℕ, zero, suc, ◌+◌, ◌-◌, ◌*◌, ◌/◌, ◌%◌, ◌^◌, ◌==◌, if◌then◌else◌, List, [], ◌∷◌, get_or, bit_and,
  bit_or,
}
use swan.Common.Bits.{shl}
use swan.Common.Outcome.{Outcome, ok, panic, ◌>>=◌}

-- The loop clears the lowest 1 and counts. That the fuel runs out is a panic.
unfoldable pub ones_count : {E : Type 0} → ℕ → ℕ → ℕ → Outcome E ℕ
ones_count zero b n = if b == 0 then ok n else panic
ones_count (suc fuel) b n =
    let rest = ones_count fuel (bit_and b (b - 1)) (n + 1) in if b == 0 then ok n else rest

unfoldable pub odd_parity : {E : Type 0} → ℕ → Outcome E ℕ
odd_parity b = do
  let c : ℕ = bit_and b 0xfe
  n ← ones_count 8 c 0
  ok (if n % 2 == 0 then bit_or c 1 else c)

-- `(x << (8 - k) | y >> k) & 0xfe`, for a byte and the one behind it.
unfoldable pub key_byte : ℕ → ℕ → ℕ → ℕ
key_byte k x y = bit_and (bit_or (shl 8 x (8 - k)) (y / 2 ^ k)) 0xfe

unfoldable pub spread_key : List ℕ → List ℕ
spread_key key7 =
    let k : ℕ → ℕ = λ i. get_or key7 i 0 in
    bit_and (k 0) 0xfe
    ∷ key_byte 1 (k 0) (k 1)
    ∷ key_byte 2 (k 1) (k 2)
    ∷ key_byte 3 (k 2) (k 3)
    ∷ key_byte 4 (k 3) (k 4)
    ∷ key_byte 5 (k 4) (k 5)
    ∷ key_byte 6 (k 5) (k 6)
    ∷ shl 8 (k 6) 1
    ∷ []

unfoldable pub set_parity : {E : Type 0} → List ℕ → Outcome E (List ℕ)
set_parity [] = ok []
set_parity (b ∷ bs) = do c ← odd_parity b; cs ← set_parity bs; ok (c ∷ cs)

-- An array of seven bytes gives one of eight.
unfoldable pub expand_des_key : {E : Type 0} → List ℕ → Outcome E (List ℕ)
expand_des_key key7 = set_parity (spread_key key7)
