-- ===== src/Esp/Replay/Refinement.antt =====
-- The replay window implements a set: what was accepted, and a limit on how far back to look.
use Prim.Native.Nat.{ℕ, zero, suc, ◌+◌, ◌-◌, ◌*◌, ◌^◌, ◌≤◌, ◌<◌}
use swan.Common.{
  ◌≡◌, ◌≢◌, refl, sym, ◌∙◌, arith, Bool, true, false, ◌&&◌, not, List, [], ◌∷◌, ltb, leb, ◌==◌,
  if◌then◌else◌, bit_and, bit_or, Bool-cases, inl, inr, le→ltb, lt→ltb, ltb→ge, ltb→lt, ne→==,
  leb→le,
}
use swan.Common.Bits.{shl}
use swan.Common.TestBit.{bit, bit-lt, bit-or, bit_and_pow, bit-one, bit_pow_self, bit_pow_other}
use native.Mathlib.Nat.{one-le-pow, pow-le-pow_right}
use swan.Esp.Replay.{ReplayWindow, check_old, accept, reset, accept_all}
use swan.Esp.Replay.Moves.{
  contains, top, allowed, seen_after, allowed_all, Tracks, contains_above, advance-Tracks,
}

shl_one : (k : ℕ) → k < 64 → shl 64 1 k ≡ 2 ^ k
shl_one k h = omega (arith, pow-le-pow_right {n = 2} (omega arith) {i = k} {j = 63} (omega arith))

product_zero : (a m : ℕ) → a < 2 → 0 < m → (a * m == 0) ≡ (a == 0)
product_zero zero m h p = ground arith
product_zero (suc zero) m h p = ground arith
product_zero (suc (suc a)) m h p = absurd (omega arith)

-- `bitmap & (1 << delta)` tests bit `delta`, and `bitmap |= 1 << delta` sets it.
mask_bit : (b k : ℕ) → k < 64 → (bit_and b (shl 64 1 k) == 0) ≡ (bit b k == 0)
mask_bit b k h =
    let p : 0 < 2 ^ k = one-le-pow k 2 (omega arith) in
    rw (shl_one k h, bit_and_pow k b) (product_zero (bit b k) (2 ^ k) (bit-lt b k) p)

marked_bit : (b k d : ℕ) → k < 64 → bit (bit_or b (shl 64 1 k)) d ≡ (if d == k then 1 else bit b d)
marked_bit b k d h =
    rw (shl_one k h, bit-or d b (2 ^ k))
      (ground (arith, bit_pow_self k, bit_pow_other k d, bit-lt b d, bit-lt (2 ^ k) d))

mark-Tracks :
    (seq : ℕ) (w : ReplayWindow) (seen : List ℕ)
    → Tracks w seen
    → seq ≤ w.highest
    → w.highest - seq < 64
    → Tracks (record w { bitmap = bit_or w.bitmap (shl 64 1 (w.highest - seq)) }) (seq ∷ seen)
unfolding contains top
mark-Tracks seq w seen t h near = record {
  highest = omega (arith, t.highest);
  bits = λ d l m. ground (arith, marked_bit w.bitmap (w.highest - seq) d near, t.bits d l m);
}

-- The bit of a number in the window tells whether it was accepted.
window_bit :
    (seq : ℕ) (w : ReplayWindow) (seen : List ℕ)
    → Tracks w seen
    → seq ≢ 0
    → seq ≤ w.highest
    → w.highest - seq < 64
    → (bit_and w.bitmap (shl 64 1 (w.highest - seq)) == 0) ≡ not (contains seq seen)
window_bit seq w seen t nz h near =
    let e : w.highest - (w.highest - seq) ≡ seq = omega arith in
    let b = rw e at (t.bits (w.highest - seq) near (omega arith)) in
    rw (mask_bit w.bitmap (w.highest - seq) near, b) (ground arith)

check_old_lem :
    (seq : ℕ) (w : ReplayWindow) (seen : List ℕ)
    → Tracks w seen
    → seq ≢ 0
    → seq ≤ w.highest
    → ((check_old seq w).1 ≡ allowed seq seen) × Tracks (check_old seq w).0 (seen_after seq seen)
unfolding check_old allowed
check_old_lem seq w seen t nz h = elim (Bool-cases (leb 64 (w.highest - seq))) [
  | inl far ↦
      let old : ltb (top seen) (seq + 64) ≡ false =
        le→ltb (top seen) (seq + 64) (omega (arith, t.highest, leb→le 64 (w.highest - seq) far)) in
      rw (far, old) (out_of_window (seq == 0) (contains seq seen))
  | inr near ↦
      let k : w.highest - seq < 64 = ground (arith, near) in
      let recent : ltb (top seen) (seq + 64) ≡ true =
        lt→ltb (top seen) (seq + 64) (omega (arith, t.highest)) in
      elim (Bool-cases (contains seq seen)) [
        | inl dup ↦ rw (near, window_bit seq w seen t nz h k, ne→== seq 0 nz, dup) (refl, t)
        | inr new ↦
            rw (near, window_bit seq w seen t nz h k, ne→== seq 0 nz, new, recent)
              (refl, mark-Tracks seq w seen t h k)
      ]
]
  where
    out_of_window :
        (z c : Bool)
        → (false ≡ (not z && (not c && false)))
          × Tracks w (if not z && (not c && false) then seq ∷ seen else seen)
    out_of_window true c = (refl, t)
    out_of_window false true = (refl, t)
    out_of_window false false = (refl, t)

one_bit : (d : ℕ) → bit 1 d ≡ (if d == 0 then 1 else 0)
one_bit zero = refl
one_bit (suc j) = rw (ne→== (suc j) 0 (omega arith)) (bit-one j)

first-Tracks :
    (seq : ℕ) (seen : List ℕ)
    → seq ≢ 0
    → top seen ≡ 0
    → Tracks (record { highest = seq; bitmap = 1 }) (seq ∷ seen)
unfolding contains top
first-Tracks seq seen nz e = record {
  highest = omega arith;
  bits = λ d l m. ground (arith, one_bit d, contains_above (seq - d) seen);
}

above_allowed : (seq : ℕ) (seen : List ℕ) → top seen < seq → allowed seq seen ≡ true
unfolding allowed
above_allowed seq seen h =
    rw
      (
        ne→== seq 0 (omega arith),
        contains_above seq seen h,
        lt→ltb (top seen) (seq + 64) (omega arith),
      )
      refl

zero_allowed : (seq : ℕ) (seen : List ℕ) → (seq == 0) ≡ true → allowed seq seen ≡ false
unfolding allowed
zero_allowed seq seen z = rw z refl

-- One packet: the window answers as the specification does, and goes on tracking it.
pub accept-allowed :
    (seq : ℕ) (w : ReplayWindow) (seen : List ℕ)
    → Tracks w seen
    → ((accept seq w).1 ≡ allowed seq seen) × Tracks (accept seq w).0 (seen_after seq seen)
unfolding accept
accept-allowed seq w seen t = elim (Bool-cases (seq == 0)) [
  | inl z ↦ rw (z, zero_allowed seq seen z) (refl, t)
  | inr nz ↦ elim (Bool-cases (w.highest == 0)) [
    | inl first ↦
        rw (nz, first, above_allowed seq seen (ground (arith, t.highest, nz, first)))
          (refl, first-Tracks seq seen (ground (arith, nz)) (ground (arith, t.highest, first)))
    | inr later ↦ elim (Bool-cases (ltb w.highest seq)) [
      | inl higher ↦
          let h : w.highest < seq = ltb→lt w.highest seq higher in
          rw (nz, later, higher, above_allowed seq seen (omega (arith, t.highest)))
            (refl, advance-Tracks seq w seen t h)
      | inr older ↦
          rw (nz, later, older)
            (check_old_lem seq w seen t (ground (arith, nz)) (ltb→ge w.highest seq older))
    ]
  ]
]

pub reset-Tracks : Tracks reset []
unfolding top
reset-Tracks = record { highest = refl; bits = λ d l m. elim m [ ] }

accept_all-allowed :
    (seqs : List ℕ) (w : ReplayWindow) (seen : List ℕ)
    → Tracks w seen
    → accept_all seqs w ≡ allowed_all seqs seen
unfolding accept_all allowed_all
accept_all-allowed [] w seen t = refl
accept_all-allowed (seq ∷ seqs) w seen t =
    let (e, t') = accept-allowed seq w seen t in
    rw (e, accept_all-allowed seqs (accept seq w).0 (seen_after seq seen) t')

-- From a fresh window the answers to any sequence of packets are those of the specification.
pub accept_all-reset : (seqs : List ℕ) → accept_all seqs reset ≡ allowed_all seqs []
accept_all-reset seqs = accept_all-allowed seqs reset [] reset-Tracks

-- The window after a sequence of packets.
unfoldable pub run : List ℕ → ReplayWindow → ReplayWindow
run [] w = w
run (seq ∷ seqs) w = run seqs (accept seq w).0

seen_run : List ℕ → List ℕ → List ℕ
seen_run [] seen = seen
seen_run (seq ∷ seqs) seen = seen_run seqs (seen_after seq seen)

run-Tracks :
    (seqs : List ℕ) (w : ReplayWindow) (seen : List ℕ)
    → Tracks w seen
    → Tracks (run seqs w) (seen_run seqs seen)
unfolding run seen_run
run-Tracks [] w seen t = t
run-Tracks (seq ∷ seqs) w seen t =
    run-Tracks seqs (accept seq w).0 (seen_after seq seen) (accept-allowed seq w seen t).1

contains-seen_run :
    (x : ℕ) (seqs seen : List ℕ) → contains x seen ≡ true → contains x (seen_run seqs seen) ≡ true
unfolding seen_run contains
contains-seen_run x [] seen h = h
contains-seen_run x (seq ∷ seqs) seen h =
    contains-seen_run x seqs (seen_after seq seen) (ground arith)

allowed_seen : (seq : ℕ) (seen : List ℕ) → contains seq seen ≡ true → allowed seq seen ≡ false
unfolding allowed
allowed_seen seq seen h = ground (arith, h)

-- A sequence number that was accepted is never accepted again, whatever arrives in between.
pub accept_once :
    (before later : List ℕ) (seq : ℕ)
    → (accept seq (run before reset)).1 ≡ true
    → (accept seq (run later (accept seq (run before reset)).0)).1 ≡ false
unfolding contains
accept_once before later seq h =
    let seen = seen_run before [] in
    let (e, t) =
      accept-allowed seq (run before reset) seen (run-Tracks before reset [] reset-Tracks) in
    let yes' : allowed seq seen ≡ true = sym e ∙ h in
    let here : contains seq (seen_after seq seen) ≡ true = rw yes' (ground arith) in
    let t' = run-Tracks later (accept seq (run before reset)).0 (seen_after seq seen) t in
    (accept-allowed seq (run later (accept seq (run before reset)).0) _ t').0
    ∙ allowed_seen seq (seen_run later (seen_after seq seen)) (contains-seen_run seq later _ here)
