-- ===== src/Esp/Replay/Moves.antt =====
-- What the anti-replay window promises, and how it moves.
use Prim.Native.Nat.{ℕ, zero, suc, ◌+◌, ◌-◌, ◌*◌, ◌^◌, ◌<◌, max}
use swan.Common.{
  ◌≡◌, refl, sym, ap, ◌∙◌, arith, Bool, true, false, ◌&&◌, ◌||◌, not, List, [], ◌∷◌, ltb, leb, ◌==◌,
  if◌then◌else◌, bit_or, Bool-cases, inl, inr, lt→ltb, ltb→ge, ltb→lt, ne→==, leb→le,
}
use swan.Common.Bits.{shl}
use swan.Common.TestBit.{bit, bit-or, bit-one, bit_shift_low, bit_shift_high, bit_mod}
use swan.Esp.Replay.{ReplayWindow, advance}

unfoldable pub contains : ℕ → List ℕ → Bool
contains x [] = false
contains x (y ∷ ys) = x == y || contains x ys

unfoldable pub top : List ℕ → ℕ
top [] = 0
top (x ∷ xs) = max x (top xs)

-- The specification: `seen` is what was accepted so far. A number is accepted when it is not 0,
-- was not accepted before, and is less than 64 below the highest one accepted.
unfoldable pub allowed : ℕ → List ℕ → Bool
allowed seq seen = not (seq == 0) && (not (contains seq seen) && ltb (top seen) (seq + 64))

abbrev pub seen_after : ℕ → List ℕ → List ℕ
seen_after seq seen = if allowed seq seen then seq ∷ seen else seen

unfoldable pub allowed_all : List ℕ → List ℕ → List Bool
allowed_all [] seen = []
allowed_all (seq ∷ seqs) seen = allowed seq seen ∷ allowed_all seqs (seen_after seq seen)

abbrev indicator : Bool → ℕ
indicator true = 1
indicator false = 0

-- Bit `d` of the window is set exactly for an accepted number `highest - d`.
pub record Tracks (w : ReplayWindow) (seen : List ℕ) : Type 0 where
  pub highest : w.highest ≡ top seen
  pub bits :
      (d : ℕ) → d < 64 → d < w.highest → bit w.bitmap d ≡ indicator (contains (w.highest - d) seen)

pub contains_above : (x : ℕ) (seen : List ℕ) → top seen < x → contains x seen ≡ false
unfolding contains top
contains_above x [] h = refl
contains_above x (y ∷ ys) h = ground (arith, contains_above x ys)

-- Bits of a window that moved by `k`.
shifted_bit :
    (x k d : ℕ)
    → 0 < k
    → d < 64
    → bit (bit_or (shl 64 x k) 1) d ≡ (if d == 0 then 1 else if ltb d k then 0 else bit x (d - k))
shifted_bit x k zero hk l = omega (arith, bit-or 0 (shl 64 x k) 1)
shifted_bit x k (suc j) hk l =
    let moved : bit (bit_or (shl 64 x k) 1) (suc j) ≡ bit (x * 2 ^ k) (suc j) =
      omega (arith, bit-or (suc j) (shl 64 x k) 1, bit_mod 64 (x * 2 ^ k) (suc j) l, bit-one j) in
    elim (Bool-cases (ltb (suc j) k)) [
      | inl below ↦
          rw (ne→== (suc j) 0 (omega arith), below)
            (moved ∙ bit_shift_low k x (suc j) (ltb→lt (suc j) k below))
      | inr above ↦
          let e : k + (suc j - k) ≡ suc j = omega (arith, ltb→ge (suc j) k above) in
          rw (ne→== (suc j) 0 (omega arith), above)
            (moved ∙ ap (bit (x * 2 ^ k)) (sym e) ∙ bit_shift_high k x (suc j - k))
    ]

advanced_bit :
    (seq d : ℕ) (w : ReplayWindow)
    → w.highest < seq
    → d < 64
    → bit (advance seq w).bitmap d ≡ (
        if d == 0
        then 1
        else if ltb d (seq - w.highest)
        then 0
        else bit w.bitmap (d - (seq - w.highest)))
unfolding advance
advanced_bit seq zero w h l = elim (Bool-cases (leb 64 (seq - w.highest))) [
  | inl far ↦ rw far refl
  | inr near ↦ rw near (shifted_bit w.bitmap (seq - w.highest) 0 (omega arith) l)
]
advanced_bit seq (suc j) w h l = elim (Bool-cases (leb 64 (seq - w.highest))) [
  | inl far ↦
      rw
        (
          far,
          ne→== (suc j) 0 (omega arith),
          lt→ltb (suc j) (seq - w.highest) (omega (arith, leb→le 64 (seq - w.highest) far)),
        )
        (bit-one j)
  | inr near ↦ rw near (shifted_bit w.bitmap (seq - w.highest) (suc j) (omega arith) l)
]

moved_bits :
    (seq d : ℕ) (w : ReplayWindow) (seen : List ℕ)
    → Tracks w seen
    → w.highest < seq
    → d < 64
    → d < seq
    → (if d == 0
        then 1
        else if ltb d (seq - w.highest)
        then 0
        else bit w.bitmap (d - (seq - w.highest)))
      ≡ indicator (contains (seq - d) (seq ∷ seen))
unfolding contains
moved_bits seq d w seen t h l m =
    ground (arith, t.highest, t.bits (d - (seq - w.highest)), contains_above (seq - d) seen)

pub advance-Tracks :
    (seq : ℕ) (w : ReplayWindow) (seen : List ℕ)
    → Tracks w seen
    → w.highest < seq
    → Tracks (advance seq w) (seq ∷ seen)
unfolding advance top
advance-Tracks seq w seen t h = record {
  highest = omega (arith, t.highest);
  bits = λ d l m. advanced_bit seq d w h l ∙ moved_bits seq d w seen t h l m;
}
