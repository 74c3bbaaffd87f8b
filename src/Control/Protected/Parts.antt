-- ===== src/Control/Protected/Parts.antt =====
-- The parts of a plaintext that is sealed in fragments.
use native.Mathlib.Nat.{le-div_iff_mul-le, lt-div-mul-add, suc-mul}
use swan.Common.{
  ℕ, zero, suc, ◌+◌, ◌-◌, ◌*◌, ◌/◌, ◌≤◌, ◌<◌, ◌≡◌, refl, sym, ap, ◌∙◌, arith, ltb, if◌then◌else◌,
  ◌&&◌, List, [], ◌∷◌, ◌++◌, length, take, drop, get_or, Bool-cases, inl, inr, ltb→lt, ltb→ge,
  take-append-drop, append-nil, length-drop, drop-drop, take_all,
}
use swan.Common.Outcome.{ok, slice_ok}
use swan.Control.Protected.{ProtectedError, IkeEnvelope, fragment_count, part_of}
use swan.Control.Reassembly.Slots.{concat}

unfoldable pub chunks : ℕ → ℕ → List ℕ → List (List ℕ)
chunks zero c xs = []
chunks (suc n) c xs = take c xs ∷ chunks n c (drop c xs)

-- The parts: chunks of a plaintext that takes more than one packet.
abbrev pub parts_of : ℕ → ℕ → List ℕ → List (List ℕ)
parts_of total chunk xs = if ltb 1 total then chunks total chunk xs else xs ∷ []

length-chunks : (n c : ℕ) (xs : List ℕ) → length (chunks n c xs) ≡ n
unfolding chunks
length-chunks zero c xs = refl
length-chunks (suc n) c xs = ap suc (length-chunks n c (drop c xs))

-- Chunks that reach to the end are the whole.
concat-chunks : (n c : ℕ) (xs : List ℕ) → length xs ≤ n * c → concat (chunks n c xs) ≡ xs
unfolding chunks concat
concat-chunks zero c [] h = refl
concat-chunks zero c (x ∷ xs) h = absurd (omega (arith, h))
concat-chunks (suc n) c xs h =
    ap (λ t. take c xs ++ t)
      (concat-chunks n c (drop c xs) (omega (arith, h, suc-mul n c, length-drop c xs)))
    ∙ take-append-drop c xs

get_or-chunks :
    (n c i : ℕ) (xs : List ℕ) → i < n → get_or (chunks n c xs) i [] ≡ take c (drop (i * c) xs)
unfolding chunks
get_or-chunks zero c i xs h = absurd (omega arith)
get_or-chunks (suc n) c zero xs h =
    let z : 0 ≡ zero * c = omega arith in ap (λ k. take c (drop k xs)) z
get_or-chunks (suc n) c (suc i) xs h =
    get_or-chunks n c i (drop c xs) (omega arith)
    ∙ ap (take c) (drop-drop xs c (i * c) (suc i * c) (omega (arith, suc-mul i c)))

take_over : (xs : List ℕ) (n : ℕ) → length xs ≤ n → take n xs ≡ xs
take_over [] zero h = refl
take_over [] (suc n) h = refl
take_over (x ∷ xs) zero h = absurd (omega arith)
take_over (x ∷ xs) (suc n) h = ap (λ t. x ∷ t) (take_over xs n (omega arith))

pub length-parts_of :
    (total chunk : ℕ) (xs : List ℕ) → 1 ≤ total → length (parts_of total chunk xs) ≡ total
length-parts_of total chunk xs h = elim (Bool-cases (ltb 1 total)) [
  | inl many ↦ rw many (length-chunks total chunk xs)
  | inr one ↦ rw one (omega (arith, ltb→ge 1 total one))
]

module _ (env : IkeEnvelope) (chunk : ℕ) (xs : List ℕ) (pos : 1 ≤ chunk) where
  abbrev pub count : ℕ
  count = fragment_count env chunk xs

  -- Where a plaintext takes more than one packet, the last one begins inside it, and they reach
  -- to its end.
  count_many :
      (i : ℕ) → 1 < count → i < count → (i * chunk < length xs) × (length xs ≤ count * chunk)
  unfolding fragment_count
  count_many i m h = elim (Bool-cases (env.supports_fragmentation && ltb chunk (length xs))) [
    | inl split ↦
        let c : 1 < (length xs + chunk - 1) / chunk = rw split at m in
        let h' : suc i ≤ (length xs + chunk - 1) / chunk = rw split at h in
        let below =
          (le-div_iff_mul-le {k = chunk} {x = suc i} {y = length xs + chunk - 1} pos).0 h' in
        let reach = lt-div-mul-add {a = length xs + chunk - 1} {b = chunk} pos in
        rw split (omega (arith, below, suc-mul i chunk), omega (arith, reach))
    | inr whole ↦ absurd (omega (arith, rw whole at m))
  ]

  pub count_pos : 1 ≤ count
  unfolding fragment_count
  count_pos = elim (Bool-cases (env.supports_fragmentation && ltb chunk (length xs))) [
    | inl split ↦
        let long : chunk < length xs = ground (arith, split) in
        rw split (
          (le-div_iff_mul-le {k = chunk} {x = 1} {y = length xs + chunk - 1} pos).1
            (omega (arith, long)))
    | inr whole ↦ rw whole (omega arith)
  ]

  pub concat-parts_of : concat (parts_of count chunk xs) ≡ xs
  unfolding concat
  concat-parts_of = elim (Bool-cases (ltb 1 count)) [
    | inl many ↦
        let m = ltb→lt 1 count many in
        rw many (concat-chunks count chunk xs (count_many 0 m (omega arith)).1)
    | inr one ↦ rw one (append-nil xs)
  ]

  pub part_of_lem :
      (i : ℕ) → i < count → part_of count chunk i xs ≡ ok (get_or (parts_of count chunk xs) i [])
  unfolding part_of
  part_of_lem i h = elim (Bool-cases (ltb 1 count)) [
    | inr one ↦
        let z : 0 ≡ i = omega (arith, ltb→ge 1 count one, h) in
        rw one (ap (λ k. ok (get_or (xs ∷ []) k [])) z)
    | inl many ↦
        let m = ltb→lt 1 count many in
        let (below, reach) = count_many i m h in
        rw (many, get_or-chunks count chunk i xs h)
          (elim (Bool-cases (ltb (length xs) (i * chunk + chunk))) [
            | inl last ↦ rw last (
                let tail = drop (i * chunk) xs in
                let end = ltb→lt (length xs) (i * chunk + chunk) last in
                let l = length-drop (i * chunk) xs in
                (slice_ok {E = ProtectedError} xs (i * chunk) (length xs) (omega (arith, below))
                    (omega arith)
                  ∙ ap ok (
                      take_all tail (length xs - i * chunk) (omega (arith, l))
                      ∙ sym (take_over tail chunk (omega (arith, l, end))))))
            | inr inner ↦ rw inner (
                let end = ltb→ge (length xs) (i * chunk + chunk) inner in
                let width : i * chunk + chunk - i * chunk ≡ chunk = omega arith in
                (slice_ok {E = ProtectedError} xs (i * chunk) (i * chunk + chunk) (omega arith) end
                  ∙ ap (λ k. ok (take k (drop (i * chunk) xs))) width))
          ])
  ]
