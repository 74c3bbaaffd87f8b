-- ===== src/Common/TestBit.antt =====
-- The binary digits of a number, and those of `|`, `&`, shifts and truncation.
use Prim.Native.Nat.{ℕ, zero, suc, ◌+◌, ◌*◌, ◌/◌, ◌%◌, ◌^◌, ◌<◌, max, bit_and, bit_or}
use mathlib.Core.Path.{◌≡◌, refl, ap, ◌∙◌}
use mathlib.Core.Logic.{◌≢◌}
use native.Mathlib.Omega.{arith}
use native.Mathlib.Nat.{pow-suc, div-add-mod, one-le-pow}
use swan.Common.Bits.{bit_or_step, bit_and_step, bit_and-zero, shift_twice}

-- Digit `i` of `n`.
abbrev pub bit : ℕ → ℕ → ℕ
bit n zero = n % 2
bit n (suc i) = bit (n / 2) i

pub bit-lt : (n i : ℕ) → bit n i < 2
bit-lt n zero = omega arith
bit-lt n (suc i) = bit-lt (n / 2) i

pub bit-or : (i a b : ℕ) → bit (bit_or a b) i ≡ max (bit a i) (bit b i)
bit-or zero a b = omega (arith, bit_or_step a b)
bit-or (suc i) a b =
    let e : bit_or a b / 2 ≡ bit_or (a / 2) (b / 2) = omega (arith, bit_or_step a b) in
    rw e (bit-or i (a / 2) (b / 2))

pub bit_and_pow : (k n : ℕ) → bit_and n (2 ^ k) ≡ bit n k * 2 ^ k
bit_and_pow zero n = omega (arith, bit_and_step n 1, bit_and-zero (n / 2))
bit_and_pow (suc k) n =
    let half : 2 ^ suc k / 2 ≡ 2 ^ k = omega (arith, pow-suc 2 k) in
    let step = rw half at (bit_and_step n (2 ^ suc k)) in
    omega (arith, step, bit_and_pow k (n / 2), pow-suc 2 k, shift_twice (bit (n / 2) k) k)

pub bit-zero : (i : ℕ) → bit 0 i ≡ 0
bit-zero zero = refl
bit-zero (suc i) = bit-zero i

pub bit-one : (i : ℕ) → bit 1 (suc i) ≡ 0
bit-one i = bit-zero i

pub bit_pow_self : (k : ℕ) → bit (2 ^ k) k ≡ 1
bit_pow_self zero = refl
bit_pow_self (suc k) =
    let half : 2 ^ suc k / 2 ≡ 2 ^ k = omega (arith, pow-suc 2 k) in rw half (bit_pow_self k)

pub bit_pow_other : (k i : ℕ) → i ≢ k → bit (2 ^ k) i ≡ 0
bit_pow_other zero zero h = absurd (h refl)
bit_pow_other zero (suc i) h = bit-zero i
bit_pow_other (suc k) zero h = omega (arith, pow-suc 2 k)
bit_pow_other (suc k) (suc i) h =
    let half : 2 ^ suc k / 2 ≡ 2 ^ k = omega (arith, pow-suc 2 k) in
    rw half (bit_pow_other k i (λ e. h (ap suc e)))

-- `x << k`, before it is cut to a width.
pub bit_shift_low : (k x i : ℕ) → i < k → bit (x * 2 ^ k) i ≡ 0
bit_shift_low zero x i h = absurd (omega arith)
bit_shift_low (suc k) x zero h = omega (arith, shift_twice x k)
bit_shift_low (suc k) x (suc i) h =
    let half : x * 2 ^ suc k / 2 ≡ x * 2 ^ k = omega (arith, shift_twice x k) in
    rw half (bit_shift_low k x i (omega arith))

pub bit_shift_high : (k x i : ℕ) → bit (x * 2 ^ k) (k + i) ≡ bit x i
bit_shift_high zero x i =
    let e1 : x * 2 ^ 0 ≡ x = omega arith in let e2 : 0 + i ≡ i = omega arith in rw (e1, e2)
bit_shift_high (suc k) x i =
    let half : x * 2 ^ suc k / 2 ≡ x * 2 ^ k = omega (arith, shift_twice x k) in
    let e : suc k + i ≡ suc (k + i) = omega arith in
    ap (bit (x * 2 ^ suc k)) e ∙ ap (λ t. bit t (k + i)) half ∙ bit_shift_high k x i

pow-suc_left : (w : ℕ) → 2 ^ suc w ≡ 2 * 2 ^ w
pow-suc_left w = omega (arith, pow-suc 2 w)

half_mod : (n m : ℕ) → 0 < m → n % (2 * m) / 2 ≡ n / 2 % m
half_mod n m h = grind (arith, div-add-mod)

parity_mod : (n m : ℕ) → 0 < m → n % (2 * m) % 2 ≡ n % 2
parity_mod n m h = grind (arith, div-add-mod)

-- Digits below the width survive the truncation.
pub bit_mod : (w n i : ℕ) → i < w → bit (n % 2 ^ w) i ≡ bit n i
bit_mod zero n i h = absurd (omega arith)
bit_mod (suc w) n zero h =
    ap (λ t. n % t % 2) (pow-suc_left w) ∙ parity_mod n (2 ^ w) (one-le-pow w 2 (omega arith))
bit_mod (suc w) n (suc i) h =
    let e : n % 2 ^ suc w / 2 ≡ n / 2 % 2 ^ w =
      ap (λ t. n % t / 2) (pow-suc_left w) ∙ half_mod n (2 ^ w) (one-le-pow w 2 (omega arith)) in
    rw e (bit_mod w (n / 2) i (omega arith))
