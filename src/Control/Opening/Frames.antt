-- ===== src/Control/Opening/Frames.antt =====
-- The packets that a protected message is built of, one by one.
use mathlib.Core.Path.{subst}
use swan.Common.{
  ℕ, zero, suc, ◌+◌, ◌≤◌, ◌<◌, ◌≡◌, refl, sym, ap, arith, ltb, ◌==◌, if◌then◌else◌, List, [], ◌∷◌,
  length, get_or, Option, some, Bool-cases, inl, inr,
}
use swan.Common.Outcome.{◌>>=◌, Ensures, >>=-Ensures}
use swan.Control.Protected.{
  IkeCrypto, IkeEnvelope, Outgoing, fragment_count, frag_of, seal_protected, build_one, build_from,
}
use swan.Control.Protected.Parts.{parts_of, part_of_lem}
use swan.Control.Opening.RoundTrip.{Peers, Sent, OpensTo, seal_protected-open}
use swan.Control.Opening.Packet.{IsEnvelopeOf, IsOutgoing}

-- What packet `i` of `total` carries.
abbrev pub sent_of : ℕ → ℕ → ℕ → List ℕ → ℕ → Sent
sent_of total chunk next xs i = record {
  enc_type = if ltb 1 total then 53 else 46;
  inner_next = if i == 0 then next else 0;
  frag = frag_of total i;
  plain = get_or (parts_of total chunk xs) i [];
}

frag_of-IsEnvelopeOf :
    (total i : ℕ)
    → i < total
    → total ≤ 0xffff
    → IsEnvelopeOf (if ltb 1 total then 53 else 46) (frag_of total i)
frag_of-IsEnvelopeOf total i h fits = elim (Bool-cases (ltb 1 total)) [
  | inl many ↦ rw many (refl, omega arith, omega arith, fits)
  | inr one ↦ rw one refl
]

-- Every packet from number `i` on opens to its part.
abbrev pub FramesFrom :
    IkeCrypto → IkeEnvelope → Outgoing → ℕ → ℕ → ℕ → List ℕ → ℕ → List (List ℕ) → Type 0
FramesFrom c to o total chunk next xs i [] = Unit
FramesFrom c to o total chunk next xs i (f ∷ fs) =
    OpensTo c to o (sent_of total chunk next xs i) f
    × FramesFrom c to o total chunk next xs (suc i) fs

module _ (c : IkeCrypto) (from to : IkeEnvelope) (p : Peers c from to) (o : Outgoing)
    (wo : IsOutgoing o) (ivs : ℕ → Option (List ℕ))
    (li : (i : ℕ) (iv : List ℕ) → ivs i ≡ some iv → length iv ≡ p.keyed.enc.iv_len) (next chunk : ℕ)
    (xs : List ℕ) (pos : 1 ≤ chunk) (fits : fragment_count from chunk xs ≤ 0xffff) where
  abbrev pub total : ℕ
  total = fragment_count from chunk xs

  build_one-OpensTo :
      (i : ℕ)
      → i < total
      → Ensures
          (OpensTo c to o (sent_of total chunk next xs i))
          (build_one c from p.sel p.keys o next total chunk i (ivs i) xs)
  unfolding build_one
  build_one-OpensTo i h =
      let Q = OpensTo c to o (sent_of total chunk next xs i) in
      subst
        (λ m. Ensures Q (
          m >>= λ part.
          seal_protected c from p.sel p.keys o (if i == 0 then next else 0)
            (if ltb 1 total then 53 else 46) (frag_of total i) (ivs i) part))
        (sym (part_of_lem from chunk xs pos i h))
        (seal_protected-open c from to p o (sent_of total chunk next xs i) (ivs i) wo
          (frag_of-IsEnvelopeOf total i h fits) (li i))

  pub build_from-FramesFrom :
      (left i : ℕ)
      → i + left ≡ total
      → Ensures
          (λ (fs : List (List ℕ)). (length fs ≡ left) × FramesFrom c to o total chunk next xs i fs)
          (build_from c from p.sel p.keys o next total chunk left i ivs xs)
  unfolding build_from
  build_from-FramesFrom zero i e = (refl, tt)
  build_from-FramesFrom (suc left) i e =
      let Q = λ (fs : List (List ℕ)).
        (length fs ≡ suc left) × FramesFrom c to o total chunk next xs i fs in
      let one_more : suc i ≡ i + 1 = omega arith in
      >>=-Ensures (OpensTo c to o (sent_of total chunk next xs i)) Q
        (build_one c from p.sel p.keys o next total chunk i (ivs i) xs) _
        (build_one-OpensTo i (omega (arith, e)))
        λ f k.
          >>=-Ensures
            (λ (fs : List (List ℕ)).
              (length fs ≡ left) × FramesFrom c to o total chunk next xs (suc i) fs)
            Q (build_from c from p.sel p.keys o next total chunk left (i + 1) ivs xs) _
            (subst
              (λ n.
                Ensures
                  (λ (fs : List (List ℕ)).
                    (length fs ≡ left) × FramesFrom c to o total chunk next xs (suc i) fs)
                  (build_from c from p.sel p.keys o next total chunk left n ivs xs))
              one_more (build_from-FramesFrom left (suc i) (omega (arith, e))))
            λ fs (l, ks). (ap suc l, (k, ks))

-- The packet at an index.
pub frame_at :
    (c : IkeCrypto) (to : IkeEnvelope) (o : Outgoing) (total chunk next : ℕ) (xs : List ℕ)
    (k i j : ℕ) (fs : List (List ℕ))
    → FramesFrom c to o total chunk next xs k fs
    → i < length fs
    → j ≡ k + i
    → OpensTo c to o (sent_of total chunk next xs j) (get_or fs i [])
frame_at c to o total chunk next xs k i j [] h l e = absurd (omega arith)
frame_at c to o total chunk next xs k zero j (f ∷ fs) h l e =
    subst (λ n. OpensTo c to o (sent_of total chunk next xs n) f) (omega arith) h.0
frame_at c to o total chunk next xs k (suc i) j (f ∷ fs) h l e =
    frame_at c to o total chunk next xs (suc k) i j fs h.1 (omega arith) (omega arith)
