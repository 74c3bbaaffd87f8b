-- ===== src/Wire/Be/Laws.antt =====
-- The accessors of wire/be.go as arithmetic, and that reading undoes writing.
use Prim.Native.Nat.{ℕ, zero, suc, ◌+◌, ◌*◌, ◌^◌, ◌≤◌, ◌<◌}
use swan.Common.{
  ◌≡◌, refl, ap, ◌∙◌, arith, List, [], ◌∷◌, ◌++◌, length, set, lt→ltb, IsByte, bit_or,
  length-append, length-set,
}
use swan.Common.Bits.{shl, byte_at, bit_or_sum}
use swan.Common.Outcome.{Outcome, ok, ◌>>=◌, Ensures}
use swan.Wire.Be.{store, be_uint16, be_uint32, put_uint16, put_uint32}

pub be_uint16_bytes :
    {E : Type 0} (x y : ℕ) (r : List ℕ)
    → IsByte x
    → IsByte y
    → be_uint16 {E = E} (x ∷ y ∷ r) ≡ ok (x * 256 + y)
unfolding be_uint16
be_uint16_bytes x y r hx hy = ap ok (ground (arith, bit_or_sum 8 x y))

or_uint32 :
    (x y z w : ℕ)
    → IsByte x
    → IsByte y
    → IsByte z
    → IsByte w
    → bit_or (bit_or (bit_or (shl 32 x 24) (shl 32 y 16)) (shl 32 z 8)) w
      ≡ x * 16777216 + y * 65536 + z * 256 + w
or_uint32 x y z w hx hy hz hw = ground (
  arith,
  bit_or_sum 8 x y,
  bit_or_sum 24 x (shl 32 y 16),
  bit_or_sum 16 (x * 256 + y) (shl 32 z 8),
  bit_or_sum 8 (x * 65536 + y * 256 + z) w,
)

pub be_uint32_bytes :
    {E : Type 0} (x y z w : ℕ) (r : List ℕ)
    → IsByte x
    → IsByte y
    → IsByte z
    → IsByte w
    → be_uint32 {E = E} (x ∷ y ∷ z ∷ w ∷ r) ≡ ok (x * 16777216 + y * 65536 + z * 256 + w)
unfolding be_uint32
be_uint32_bytes x y z w r hx hy hz hw = ap ok (or_uint32 x y z w hx hy hz hw)

-- Reading a number that was written.
pub be_uint16-put :
    {E : Type 0} (v : ℕ) (r : List ℕ)
    → v < 65536
    → be_uint16 {E = E} (byte_at v 8 ∷ byte_at v 0 ∷ r) ≡ ok v
be_uint16-put v r h =
    be_uint16_bytes (byte_at v 8) (byte_at v 0) r (omega arith) (omega arith) ∙ ap ok (omega arith)

pub be_uint32-put :
    {E : Type 0} (v : ℕ) (r : List ℕ)
    → v < 2 ^ 32
    → be_uint32 {E = E} (byte_at v 24 ∷ byte_at v 16 ∷ byte_at v 8 ∷ byte_at v 0 ∷ r) ≡ ok v
be_uint32-put v r h =
    be_uint32_bytes (byte_at v 24) (byte_at v 16) (byte_at v 8) (byte_at v 0) r (omega arith)
      (omega arith) (omega arith) (omega arith)
    ∙ ap ok (omega arith)

-- A read in bounds is no panic.
pub be_uint16_ok : {E : Type 0} (b : List ℕ) → 2 ≤ length b → (v : ℕ) × (be_uint16 {E = E} b ≡ ok v)
unfolding be_uint16
be_uint16_ok [] h = absurd (omega arith)
be_uint16_ok (x ∷ []) h = absurd (omega arith)
be_uint16_ok (x ∷ y ∷ r) h = (_, refl)

pub be_uint32_ok : {E : Type 0} (b : List ℕ) → 4 ≤ length b → (v : ℕ) × (be_uint32 {E = E} b ≡ ok v)
unfolding be_uint32
be_uint32_ok [] h = absurd (omega arith)
be_uint32_ok (x ∷ []) h = absurd (omega arith)
be_uint32_ok (x ∷ y ∷ []) h = absurd (omega arith)
be_uint32_ok (x ∷ y ∷ z ∷ []) h = absurd (omega arith)
be_uint32_ok (x ∷ y ∷ z ∷ w ∷ r) h = (_, refl)

set-append :
    (dst xs : List ℕ) (i j v : ℕ) → j ≡ length dst + i → set (dst ++ xs) j v ≡ dst ++ set xs i v
set-append [] xs i j v e = let e' : j ≡ i = omega arith in rw e'
set-append (d ∷ dst) xs i zero v e = absurd (omega arith)
set-append (d ∷ dst) xs i (suc j) v e = ap (λ t. d ∷ t) (set-append dst xs i j v (omega arith))

-- A write behind `dst` is a write into what was appended to it.
pub store_append :
    {E : Type 0} (dst xs : List ℕ) (i j v : ℕ)
    → j ≡ length dst + i
    → i < length xs
    → store {E = E} (dst ++ xs) j v ≡ ok (dst ++ set xs i v)
store_append dst xs i j v e h =
    rw (lt→ltb j (length (dst ++ xs)) (omega (arith, length-append dst xs)))
      (ap ok (set-append dst xs i j v e))

pub put_uint16_append :
    {E : Type 0} (dst xs : List ℕ) (i j v : ℕ)
    → j ≡ length dst + i
    → i + 1 < length xs
    → put_uint16 {E = E} (dst ++ xs) j v
      ≡ ok (dst ++ set (set xs i (byte_at v 8)) (i + 1) (byte_at v 0))
unfolding put_uint16
put_uint16_append dst xs i j v e h =
    ap (λ m. m >>= λ b. store b (j + 1) (byte_at v 0))
      (store_append dst xs i j (byte_at v 8) e (omega arith))
    ∙ store_append dst (set xs i (byte_at v 8)) (i + 1) (j + 1) (byte_at v 0) (omega arith)
        (omega (arith, length-set xs i (byte_at v 8)))

-- A read in bounds, and the rest of the function.
pub be_uint16_bind {ℓ} :
    {E : Type 0} {B : Type ℓ} (Q : B → Type 0) (b : List ℕ) (f : ℕ → Outcome E B)
    → 2 ≤ length b
    → ((v : ℕ) → be_uint16 {E = E} b ≡ ok v → Ensures Q (f v))
    → Ensures Q (be_uint16 b >>= f)
be_uint16_bind {E} Q b f h k = let (v, e) = be_uint16_ok {E = E} b h in rw e (k v e)

pub store_ok :
    {E : Type 0} (b : List ℕ) (i v : ℕ) → i < length b → store {E = E} b i v ≡ ok (set b i v)
store_ok b i v h = rw (lt→ltb i (length b) h)

pub put_uint32_ok :
    {E : Type 0} (b : List ℕ) (i v : ℕ)
    → i + 3 < length b
    → put_uint32 {E = E} b i v
      ≡ ok (
          set
            (set (set (set b i (byte_at v 24)) (i + 1) (byte_at v 16)) (i + 2) (byte_at v 8))
            (i + 3)
            (byte_at v 0))
unfolding put_uint32
put_uint32_ok {E} b i v h =
    let b1 = set b i (byte_at v 24) in
    let b2 = set b1 (i + 1) (byte_at v 16) in
    let b3 = set b2 (i + 2) (byte_at v 8) in
    let l1 = length-set b i (byte_at v 24) in
    let l2 = length-set b1 (i + 1) (byte_at v 16) in
    let l3 = length-set b2 (i + 2) (byte_at v 8) in
    rw
      (
        store_ok {E = E} b i (byte_at v 24) (omega arith),
        store_ok {E = E} b1 (i + 1) (byte_at v 16) (omega (arith, l1)),
        store_ok {E = E} b2 (i + 2) (byte_at v 8) (omega (arith, l1, l2)),
        store_ok {E = E} b3 (i + 3) (byte_at v 0) (omega (arith, l1, l2, l3)),
      )
      refl

pub put_uint32_append :
    {E : Type 0} (dst xs : List ℕ) (i j v : ℕ)
    → j ≡ length dst + i
    → i + 3 < length xs
    → put_uint32 {E = E} (dst ++ xs) j v
      ≡ ok (
          dst
          ++ set
              (set (set (set xs i (byte_at v 24)) (i + 1) (byte_at v 16)) (i + 2) (byte_at v 8))
              (i + 3)
              (byte_at v 0))
unfolding put_uint32
put_uint32_append {E} dst xs i j v e h =
    let x1 = set xs i (byte_at v 24) in
    let x2 = set x1 (i + 1) (byte_at v 16) in
    let x3 = set x2 (i + 2) (byte_at v 8) in
    let l1 = length-set xs i (byte_at v 24) in
    let l2 = length-set x1 (i + 1) (byte_at v 16) in
    let l3 = length-set x2 (i + 2) (byte_at v 8) in
    rw
      (
        store_append {E = E} dst xs i j (byte_at v 24) e (omega arith),
        store_append {E = E} dst x1 (i + 1) (j + 1) (byte_at v 16) (omega arith)
            (omega (arith, l1)),
        store_append {E = E} dst x2 (i + 2) (j + 2) (byte_at v 8) (omega arith)
            (omega (arith, l1, l2)),
        store_append {E = E} dst x3 (i + 3) (j + 3) (byte_at v 0) (omega arith)
            (omega (arith, l1, l2, l3)),
      )
      refl

pub be_uint32_bind {ℓ} :
    {E : Type 0} {B : Type ℓ} (Q : B → Type 0) (b : List ℕ) (f : ℕ → Outcome E B)
    → 4 ≤ length b
    → ((v : ℕ) → be_uint32 {E = E} b ≡ ok v → Ensures Q (f v))
    → Ensures Q (be_uint32 b >>= f)
be_uint32_bind {E} Q b f h k = let (v, e) = be_uint32_ok {E = E} b h in rw e (k v e)
