-- ===== src/Common/Outcome.antt =====
-- What a Go function does: return a value, return an error, or panic. Slices are lists of numbers;
-- an index or a slice bound out of range panics. (Go lets a slice grow up to its capacity; here the
-- length is the bound, so an absence of panics holds for every capacity.)
use Prim.Native.Nat.{ℕ, ◌-◌, ◌≤◌, ◌<◌}
use mathlib.Core.Path.{◌≡◌, refl, ap, ◌∙◌}
use mathlib.Core.Bool.{Bool, true, false}
use mathlib.Core.Option.{Option, none, some}
use mathlib.Core.List.{List}
use native.Mathlib.Omega.{arith}
use mathlib.Core.Logic.{◌≢◌}
use swan.Common.Tests.{leb, le→leb, if◌then◌else◌}
use swan.Common.Lists.{
  length, get_elem?, get_or, get_elem?-get_or, take?, drop?, take?-some, drop?-some, length-drop,
  take, drop,
}

pub data Outcome {ℓ} (E : Type 0) (A : Type ℓ) : Type ℓ where
  ok : A → Outcome E A
  err : E → Outcome E A
  panic : Outcome E A

infixl 5 ◌>>=◌ ◌>>◌
abbrev pub ◌>>=◌ {ℓ κ} :
    {E : Type 0} {A : Type ℓ} {B : Type κ} → Outcome E A → (A → Outcome E B) → Outcome E B
ok a >>= f = f a
err e >>= f = err e
panic >>= f = panic

abbrev pub ◌>>◌ {ℓ} : {E : Type 0} {B : Type ℓ} → Outcome E (Unit {0}) → Outcome E B → Outcome E B
m >> k = m >>= λ _. k

-- `if c { return err }`: the rest runs when the test fails.
abbrev pub reject : {E : Type 0} → Bool → E → Outcome E (Unit {0})
reject true e = err e
reject false e = ok tt

-- `if c { panic(...) }`.
abbrev pub panic_if : {E : Type 0} → Bool → Outcome E (Unit {0})
panic_if true = panic
panic_if false = ok tt

abbrev pub of_elem {ℓ} : {E : Type 0} {A : Type ℓ} → Option A → Outcome E A
of_elem none = panic
of_elem (some x) = ok x

-- `b[i]`.
abbrev pub index {ℓ} : {E : Type 0} {A : Type ℓ} → List A → ℕ → Outcome E A
index b i = of_elem (get_elem? b i)

-- `b[lo:hi]` and `b[lo:]`.
abbrev pub slice {ℓ} : {E : Type 0} {A : Type ℓ} → List A → ℕ → ℕ → Outcome E (List A)
slice b lo hi =
    if leb lo hi then (of_elem (drop? lo b) >>= λ tail. of_elem (take? (hi - lo) tail)) else panic

abbrev pub slice_from {ℓ} : {E : Type 0} {A : Type ℓ} → List A → ℕ → Outcome E (List A)
slice_from b lo = of_elem (drop? lo b)

-- An outcome that is no panic, and whose value, if it has one, satisfies `P`.
abbrev pub Ensures {ℓ} : {E : Type 0} {A : Type ℓ} → (A → Type 0) → Outcome E A → Type 0
Ensures P (ok a) = P a
Ensures P (err e) = Unit
Ensures P panic = ⊥

module _ {E : Type 0} where
  pub >>=-Ensures {ℓ κ} :
      {A : Type ℓ} {B : Type κ} (P : A → Type 0) (Q : B → Type 0) (m : Outcome E A)
      (f : A → Outcome E B)
      → Ensures P m
      → ((a : A) → P a → Ensures Q (f a))
      → Ensures Q (m >>= f)
  >>=-Ensures P Q (ok a) f h k = k a h
  >>=-Ensures P Q (err e) f h k = tt
  >>=-Ensures P Q panic f h k = h

  pub Ensures-mono {ℓ} :
      {A : Type ℓ} (P Q : A → Type 0) (m : Outcome E A)
      → Ensures P m
      → ((a : A) → P a → Q a)
      → Ensures Q m
  Ensures-mono P Q (ok a) h k = k a h
  Ensures-mono P Q (err e) h k = tt
  Ensures-mono P Q panic h k = h

  pub Ensures-ok {ℓ} :
      {A : Type ℓ} (P : A → Type 0) (m : Outcome E A) (a : A) → m ≡ ok a → Ensures P m → P a
  Ensures-ok P (ok b) a e h = ground (arith, e)
  Ensures-ok P (err x) a e h = cc
  Ensures-ok P panic a e h = cc

  -- A test that rejects, and the rest of the function.
  pub reject-Ensures {ℓ} :
      {B : Type ℓ} (Q : B → Type 0) (c : Bool) (e : E) (k : Outcome E B)
      → (c ≡ false → Ensures Q k)
      → Ensures Q (reject c e >> k)
  reject-Ensures Q true e k h = tt
  reject-Ensures Q false e k h = h refl

  pub index_ok {ℓ} :
      {A : Type ℓ} (b : List A) (i : ℕ) (d : A)
      → i < length b
      → index {E = E} b i ≡ ok (get_or b i d)
  index_ok b i d h = rw (get_elem?-get_or b i d h)

  pub slice_ok {ℓ} :
      {A : Type ℓ} (b : List A) (lo hi : ℕ)
      → lo ≤ hi
      → hi ≤ length b
      → slice {E = E} b lo hi ≡ ok (take (hi - lo) (drop lo b))
  slice_ok b lo hi h k =
      rw (le→leb lo hi h, drop?-some lo b (omega arith))
        (rw (take?-some (hi - lo) (drop lo b) (omega (arith, length-drop lo b))))

  pub slice_from_ok {ℓ} :
      {A : Type ℓ} (b : List A) (lo : ℕ) → lo ≤ length b → slice_from {E = E} b lo ≡ ok (drop lo b)
  slice_from_ok b lo h = rw (drop?-some lo b h)

  pub Ensures-ne-panic {ℓ} :
      {A : Type ℓ} (P : A → Type 0) (m : Outcome E A) → Ensures P m → m ≢ panic
  Ensures-ne-panic P (ok a) h e = cc
  Ensures-ne-panic P (err x) h e = cc
  Ensures-ne-panic P panic h e = h

  -- One step of a do block, and the rest of it.
  pub >>=-ok {ℓ κ} :
      {A : Type ℓ} {B : Type κ} (m : Outcome E A) (f : A → Outcome E B) {a : A} {r : Outcome E B}
      → m ≡ ok a
      → f a ≡ r
      → (m >>= f) ≡ r
  >>=-ok m f e h = ap (λ n. n >>= f) e ∙ h

  pub reject-ok {ℓ} :
      {B : Type ℓ} (c : Bool) (e : E) (k : Outcome E B) {r : Outcome E B}
      → c ≡ false
      → k ≡ r
      → (reject c e >> k) ≡ r
  reject-ok c e k h q = ap (λ b. reject b e >> k) h ∙ q

  pub Ensures-if {ℓ} :
      {A : Type ℓ} (P : A → Type 0) (c : Bool) (m n : Outcome E A)
      → Ensures P m
      → Ensures P n
      → Ensures P (if c then m else n)
  Ensures-if P true m n h k = h
  Ensures-if P false m n h k = k
