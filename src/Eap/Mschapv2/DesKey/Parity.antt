-- ===== src/Eap/Mschapv2/DesKey/Parity.antt =====
-- Of the DES key that expandDesKey makes: the parity of its bytes, and the bits of the key in it.
use swan.Common.{
  ℕ, zero, suc, ◌+◌, ◌-◌, ◌*◌, ◌/◌, ◌%◌, ◌^◌, ◌<◌, ◌≡◌, refl, ap, ◌∙◌, arith, ltb, ◌==◌, Bool, true,
  false, ◌&&◌, List, [], ◌∷◌, length, map, ==_iff, All, IsByte, bit_and, bit_or,
}
use swan.Common.Bits.{shl, bit_or_sum}
use swan.Common.Outcome.{Outcome, ok, err, panic, Ensures, Ensures-mono, >>=-Ensures}
use swan.Eap.Mschapv2.DesKey.{
  ones_count, odd_parity, key_byte, spread_key, set_parity, expand_des_key,
}

-- The sum of the lowest `n` binary digits.
abbrev pub digit_sum : ℕ → ℕ → ℕ
digit_sum zero b = 0
digit_sum (suc n) b = b % 2 + digit_sum n (b / 2)

-- The number whose digits to the base `base` are those of the list, the first the highest.
abbrev pub of_digits : ℕ → ℕ → List ℕ → ℕ
of_digits base n [] = n
of_digits base n (d ∷ ds) = of_digits base (n * base + d) ds

all_below : ℕ → (ℕ → Bool) → Bool
all_below zero t = true
all_below (suc n) t = t n && all_below n t

below : (n : ℕ) (t : ℕ → Bool) (x : ℕ) → all_below n t ≡ true → x < n → t x ≡ true
unfolding all_below
below zero t x h k = absurd (omega arith)
below (suc n) t x h k = ground (arith, below n t x)

-- A byte of the key: its parity is odd, and its upper seven digits are those of `x`.
abbrev pub IsKeyByte : ℕ → ℕ → Type 0
IsKeyByte x c = (c < 256) × (digit_sum 8 c % 2 ≡ 1) × (c / 2 ≡ x / 2)

module _ (E : Type 0) where
  abbrev parity_test : ℕ → Outcome E ℕ → Bool
  parity_test x (ok c) = ltb c 256 && (digit_sum 8 c % 2 == 1 && c / 2 == x / 2)
  parity_test x (err e) = false
  parity_test x panic = false

  parity_table : all_below 256 (λ x. parity_test x (odd_parity x)) ≡ true
  unfolding all_below odd_parity ones_count
  parity_table = refl

  read_test : (x : ℕ) (m : Outcome E ℕ) → parity_test x m ≡ true → Ensures (IsKeyByte x) m
  read_test x (ok c) h = (ground (arith, h), ground (arith, h), ground (arith, h))
  read_test x (err e) h = tt
  read_test x panic h = cc

  odd_parity-IsKeyByte : (x : ℕ) → x < 256 → Ensures (IsKeyByte x) (odd_parity {E = E} x)
  odd_parity-IsKeyByte x h =
      read_test x (odd_parity x) (below 256 (λ y. parity_test y (odd_parity y)) x parity_table h)

even_table : all_below 256 (λ x. bit_and x 0xfe == x / 2 * 2) ≡ true
unfolding all_below
even_table = refl

even_lem : (x : ℕ) → x < 256 → bit_and x 0xfe ≡ x / 2 * 2
even_lem x h = (==_iff _ _).0 (below 256 (λ y. bit_and y 0xfe == y / 2 * 2) x even_table h)

-- The bytes of `c` as the list `x` asks.
abbrev pub AreKeyBytes : List ℕ → List ℕ → Type 0
AreKeyBytes [] cs = cs ≡ []
AreKeyBytes (x ∷ xs) [] = ⊥
AreKeyBytes (x ∷ xs) (c ∷ cs) = IsKeyByte x c × AreKeyBytes xs cs

set_parity-AreKeyBytes :
    (E : Type 0) (xs : List ℕ) → All IsByte xs → Ensures (AreKeyBytes xs) (set_parity {E = E} xs)
unfolding set_parity
set_parity-AreKeyBytes E [] h = refl
set_parity-AreKeyBytes E (x ∷ xs) (h, hs) =
    >>=-Ensures (IsKeyByte x) (AreKeyBytes (x ∷ xs)) (odd_parity x) _ (odd_parity-IsKeyByte E x h)
      (λ c k.
        >>=-Ensures (AreKeyBytes xs) (AreKeyBytes (x ∷ xs)) (set_parity xs) _
          (set_parity-AreKeyBytes E xs hs) (λ cs ks. (k, ks)))

-- The bits of two neighbours that a byte of the key takes.
key_byte_lem :
    (k x y : ℕ)
    → shl 8 x (8 - k) ≡ x % 2 ^ k * 2 ^ (8 - k)
    → y / 2 ^ k < 2 ^ (8 - k)
    → x % 2 ^ k * 2 ^ (8 - k) + y / 2 ^ k < 256
    → key_byte k x y ≡ (x % 2 ^ k * 2 ^ (8 - k) + y / 2 ^ k) / 2 * 2
unfolding key_byte
key_byte_lem k x y e r b =
    ap (λ (t : ℕ). bit_and (bit_or t (y / 2 ^ k)) 0xfe) e
    ∙ ap (λ (t : ℕ). bit_and t 0xfe) (bit_or_sum (8 - k) (x % 2 ^ k) (y / 2 ^ k) r)
    ∙ even_lem _ b

abbrev pub half : ℕ → ℕ
half x = x / 2

halves_lem :
    (n : ℕ) (xs cs : List ℕ)
    → AreKeyBytes xs cs
    → of_digits 128 n (map half cs) ≡ of_digits 128 n (map half xs)
halves_lem n [] cs h = ap (λ (t : List ℕ). of_digits 128 n (map half t)) h
halves_lem n (x ∷ xs) [] h = absurd h
halves_lem n (x ∷ xs) (c ∷ cs) (k, h) =
    ap (λ (t : ℕ). of_digits 128 (n * 128 + t) (map half cs)) k.2
    ∙ halves_lem (n * 128 + x / 2) xs cs h

abbrev pub HasOddParity : ℕ → Type 0
HasOddParity c = (c < 256) × (digit_sum 8 c % 2 ≡ 1)

odd_lem : (xs cs : List ℕ) → AreKeyBytes xs cs → (length cs ≡ length xs) × All HasOddParity cs
odd_lem [] cs h = rw (h) (refl, tt)
odd_lem (x ∷ xs) [] h = absurd h
odd_lem (x ∷ xs) (c ∷ cs) (k, h) = let (e, r) = odd_lem xs cs h in (ap suc e, ((k.0, k.1), r))

-- The bytes before the parity, as numbers.
spread_key-of_digits :
    (a b c d e f g : ℕ)
    → All IsByte (a ∷ b ∷ c ∷ d ∷ e ∷ f ∷ g ∷ [])
    → All IsByte (spread_key (a ∷ b ∷ c ∷ d ∷ e ∷ f ∷ g ∷ []))
      × (of_digits 128 0 (map half (spread_key (a ∷ b ∷ c ∷ d ∷ e ∷ f ∷ g ∷ [])))
          ≡ of_digits 256 0 (a ∷ b ∷ c ∷ d ∷ e ∷ f ∷ g ∷ []))
unfolding spread_key
spread_key-of_digits a b c d e f g h =
    let (a', (b', (c', (d', (e', (f', (g', _))))))) = h in
    let v0 = even_lem a a' in
    let v1 = key_byte_lem 1 a b (omega arith) (omega arith) (omega arith) in
    let v2 = key_byte_lem 2 b c (omega arith) (omega arith) (omega arith) in
    let v3 = key_byte_lem 3 c d (omega arith) (omega arith) (omega arith) in
    let v4 = key_byte_lem 4 d e (omega arith) (omega arith) (omega arith) in
    let v5 = key_byte_lem 5 e f (omega arith) (omega arith) (omega arith) in
    let v6 = key_byte_lem 6 f g (omega arith) (omega arith) (omega arith) in
    (
      (
        omega (arith, v0),
        (
          omega (arith, v1),
          (
            omega (arith, v2),
            (
              omega (arith, v3),
              (omega (arith, v4), (omega (arith, v5), (omega (arith, v6), (omega arith, tt)))),
            ),
          ),
        ),
      ),
      omega (arith, v0, v1, v2, v3, v4, v5, v6),
    )

expand_lem :
    (E : Type 0) (xs ks : List ℕ)
    → All IsByte xs
    → length xs ≡ 8
    → of_digits 128 0 (map half xs) ≡ of_digits 256 0 ks
    → Ensures
        (λ cs.
          (length cs ≡ 8)
          × All HasOddParity cs
          × (of_digits 128 0 (map half cs) ≡ of_digits 256 0 ks))
        (set_parity {E = E} xs)
expand_lem E xs ks bytes len digits =
    Ensures-mono (AreKeyBytes xs) _ (set_parity xs) (set_parity-AreKeyBytes E xs bytes)
      (λ cs h. let (e, odd) = odd_lem xs cs h in (e ∙ len, odd, halves_lem 0 xs cs h ∙ digits))

-- Seven bytes give a DES key of eight, and the count of ones ends within its eight steps: each byte
-- of the key has odd parity, and without their lowest bits they hold the 56 bits of the seven
-- bytes, in their order.
pub expand_des_key-HasOddParity :
    (E : Type 0) (key7 : List ℕ)
    → length key7 ≡ 7
    → All IsByte key7
    → Ensures
        (λ cs.
          (length cs ≡ 8)
          × All HasOddParity cs
          × (of_digits 128 0 (map half cs) ≡ of_digits 256 0 key7))
        (expand_des_key {E = E} key7)
unfolding expand_des_key spread_key
expand_des_key-HasOddParity E (a ∷ b ∷ c ∷ d ∷ e ∷ f ∷ g ∷ []) len h =
    let (bytes, digits) = spread_key-of_digits a b c d e f g h in
    expand_lem E _ (a ∷ b ∷ c ∷ d ∷ e ∷ f ∷ g ∷ []) bytes refl digits
expand_des_key-HasOddParity E [] len h = absurd (omega arith)
expand_des_key-HasOddParity E (a ∷ []) len h = absurd (omega arith)
expand_des_key-HasOddParity E (a ∷ b ∷ []) len h = absurd (omega arith)
expand_des_key-HasOddParity E (a ∷ b ∷ c ∷ []) len h = absurd (omega arith)
expand_des_key-HasOddParity E (a ∷ b ∷ c ∷ d ∷ []) len h = absurd (omega arith)
expand_des_key-HasOddParity E (a ∷ b ∷ c ∷ d ∷ e ∷ []) len h = absurd (omega arith)
expand_des_key-HasOddParity E (a ∷ b ∷ c ∷ d ∷ e ∷ f ∷ []) len h = absurd (omega arith)
expand_des_key-HasOddParity E (a ∷ b ∷ c ∷ d ∷ e ∷ f ∷ g ∷ x ∷ r) len h = absurd (omega arith)
