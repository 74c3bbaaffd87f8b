-- ===== src/Common/Bits.antt =====
-- `|`, `&` and shifts of unsigned integers as arithmetic on binary digits.
use Prim.Native.Nat.{
  ℕ, zero, suc, ◌+◌, ◌*◌, ◌/◌, ◌%◌, ◌^◌, ◌≤◌, ◌<◌, min, max, bit_and, bit_or, digits, bitwise,
  bit_and-bitwise, bit_or-bitwise,
}
use mathlib.Core.Path.{◌≡◌, refl, sym, ap, ◌∙◌}
use mathlib.Core.Logic.{◌⊎◌, inl, inr}
use native.Mathlib.Omega.{arith}
use native.Mathlib.Nat.{le_refl, pow-suc}

at_most : (x n : ℕ) → x ≤ suc n → (x ≤ n) ⊎ (x ≡ suc n)
at_most x n h = ground arith

-- `|` and `&` are a recursion on digits that counts down fuel; fuel that is not used up changes
-- nothing, so the fuel can be the number itself.
module _ (rest : ℕ → ℕ) (join : ℕ → ℕ → ℕ) where
  digits-spare :
      (fuel x y : ℕ) → x ≤ fuel → digits rest join (suc fuel) x y ≡ digits rest join fuel x y
  digits-spare zero zero y h = refl
  digits-spare (suc fuel) zero y h = refl
  digits-spare zero (suc x) y h = absurd (omega arith)
  digits-spare (suc fuel) (suc x) y h =
      ap (λ (t : ℕ). t * 2 + join (suc x % 2) (y % 2))
        (digits-spare fuel (suc x / 2) (y / 2) (omega arith))

  digits-settle : (fuel x y : ℕ) → x ≤ fuel → digits rest join fuel x y ≡ digits rest join x x y
  digits-settle zero zero y h = refl
  digits-settle zero (suc x) y h = absurd (omega arith)
  digits-settle (suc fuel) x y h = elim (at_most x fuel h) [
    | inl below ↦ digits-spare fuel x y below ∙ digits-settle fuel x y below
    | inr all ↦ ap (λ (k : ℕ). digits rest join k x y) (sym all)
  ]

  -- One digit of a number that is not 0.
  lowest_digit :
      (x y : ℕ)
      → bitwise rest join (suc x) y
        ≡ bitwise rest join (suc x / 2) (y / 2) * 2 + join (suc x % 2) (y % 2)
  lowest_digit x y =
      ap (λ (t : ℕ). t * 2 + join (suc x % 2) (y % 2))
        (digits-settle x (suc x / 2) (y / 2) (omega arith))

pub bit_or_step : (x y : ℕ) → bit_or x y ≡ bit_or (x / 2) (y / 2) * 2 + max (x % 2) (y % 2)
bit_or_step zero y = simp bit_or-bitwise (omega arith)
bit_or_step (suc x) y = simp bit_or-bitwise (lowest_digit (λ k. k) max x y)

pub bit_and_step : (x y : ℕ) → bit_and x y ≡ bit_and (x / 2) (y / 2) * 2 + min (x % 2) (y % 2)
bit_and_step zero y = simp bit_and-bitwise (omega arith)
bit_and_step (suc x) y = simp bit_and-bitwise (lowest_digit (λ k. 0) min x y)

bit_or-zero_below : (n a : ℕ) → a ≤ n → bit_or a 0 ≡ a
bit_or-zero_below n zero h = refl
bit_or-zero_below zero (suc a) h = absurd (omega arith)
bit_or-zero_below (suc n) (suc a) h =
    omega (arith, bit_or_step (suc a) 0, bit_or-zero_below n (suc a / 2) (omega arith))

pub bit_or-zero : (a : ℕ) → bit_or a 0 ≡ a
bit_or-zero a = bit_or-zero_below a a (le_refl a)

bit_and-zero_below : (n a : ℕ) → a ≤ n → bit_and a 0 ≡ 0
bit_and-zero_below n zero h = refl
bit_and-zero_below zero (suc a) h = absurd (omega arith)
bit_and-zero_below (suc n) (suc a) h =
    omega (arith, bit_and_step (suc a) 0, bit_and-zero_below n (suc a / 2) (omega arith))

pub bit_and-zero : (a : ℕ) → bit_and a 0 ≡ 0
bit_and-zero a = bit_and-zero_below a a (le_refl a)

-- Shifting by one place more doubles.
pub shift_twice : (c k : ℕ) → c * 2 ^ suc k ≡ c * 2 ^ k + c * 2 ^ k
shift_twice c k =
    let doubled : c * 2 ^ suc k ≡ c * (2 ^ k * 2) = ap (λ (p : ℕ). c * p) (pow-suc 2 k) in
    omega (arith, doubled)

-- `q << k | r` is a sum when `r` fits `k` bits.
pub bit_or_sum : (k q r : ℕ) → r < 2 ^ k → bit_or (q * 2 ^ k) r ≡ q * 2 ^ k + r
bit_or_sum zero q r fits = ground (arith, bit_or-zero q)
bit_or_sum (suc k) q r fits = ground (
  arith,
  bit_or_step (q * 2 ^ suc k) r,
  shift_twice q k,
  pow-suc 2 k,
  bit_or_sum k q (r / 2) (omega (arith, pow-suc 2 k)),
)

-- `x << k` in `w` bits.
abbrev pub shl : ℕ → ℕ → ℕ → ℕ
shl w x k = x * 2 ^ k % 2 ^ w

-- `byte(v >> k)`.
abbrev pub byte_at : ℕ → ℕ → ℕ
byte_at v k = v / 2 ^ k % 256

abbrev pub IsByte : ℕ → Type 0
IsByte b = b < 256
