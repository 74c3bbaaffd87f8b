-- ===== src/Common/Bytes.antt =====
-- A test that a list holds bytes.
use Prim.Native.Nat.{ℕ}
use mathlib.Core.Path.{◌≡◌}
use mathlib.Core.Bool.{Bool, true, ◌&&◌}
use mathlib.Core.List.{List, [], ◌∷◌}
use native.Mathlib.Omega.{arith}
use swan.Common.Tests.{ltb}
use swan.Common.Lists.{All}
use swan.Common.Bits.{IsByte}

abbrev pub are_bytes : List ℕ → Bool
are_bytes [] = true
are_bytes (x ∷ xs) = ltb x 256 && are_bytes xs

pub are_bytes-All : (xs : List ℕ) → are_bytes xs ≡ true → All IsByte xs
are_bytes-All [] h = tt
are_bytes-All (x ∷ xs) h = (ground (arith, h), are_bytes-All xs (ground (arith, h)))
