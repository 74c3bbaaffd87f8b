-- ===== src/Payload/Proposal/Safety.antt =====
-- The SA parser on any input: it returns, with no panic.
use swan.Common.{
  ℕ, zero, suc, ◌+◌, ◌-◌, ◌≤◌, ◌<◌, ◌≡◌, arith, not, List, [], ◌∷◌, ◌++◌, length, take, drop, ltb,
  ◌==◌, get_or, ltb→ge, Bool-cases, inl, inr, All, length-append, length-take, length-drop,
  All-append,
}
use swan.Common.Outcome.{
  Ensures, >>=-Ensures, reject-Ensures, Ensures-mono, slice_ok, slice_from_ok, index_ok,
}
use swan.Wire.Be.Laws.{be_uint16_bind}
use swan.Payload.Errors.{PayloadError}
use swan.Payload.Proposal.{
  Transform, Proposal, parse_transform, read_transforms, parse_proposal, read_proposals, parse_sa,
}

-- A transform takes eight bytes at least.
parse_transform-Ensures :
    (b : List ℕ)
    → Ensures (λ (r : Transform × List ℕ). length r.1 + 8 ≤ length b) (parse_transform b)
unfolding parse_transform
parse_transform-Ensures b =
    let Q = λ (r : Transform × List ℕ). length r.1 + 8 ≤ length b in
    reject-Ensures Q (ltb (length b) 8) _ _ λ short.
      let long : 8 ≤ length b = ltb→ge (length b) 8 short in
      rw (slice_ok {E = PayloadError} b 2 4 (omega arith) (omega arith)) (
        be_uint16_bind Q (take 2 (drop 2 b)) _
          (omega (arith, length-take 2 (drop 2 b), length-drop 2 b))
          λ len _. reject-Ensures Q (ltb len 8) _ _ λ lo.
            reject-Ensures Q (ltb (length b) len) _ _ λ hi.
              let lo' : 8 ≤ len = ltb→ge len 8 lo in
              let hi' : len ≤ length b = ltb→ge (length b) len hi in
              rw
                (
                  index_ok {E = PayloadError} b 4 0 (omega arith),
                  slice_ok {E = PayloadError} b 6 8 (omega arith) long,
                  slice_ok {E = PayloadError} b 8 len lo' hi',
                  slice_from_ok {E = PayloadError} b len hi',
                )
                (be_uint16_bind Q (take 2 (drop 6 b)) _
                  (omega (arith, length-take 2 (drop 6 b), length-drop 6 b))
                  λ id _. omega (arith, length-drop len b)))

read_transforms-Ensures :
    (left total : ℕ) (rest : List ℕ) (acc : List Transform)
    → Ensures
        (λ (r : List Transform × List ℕ).
          (length acc + left ≡ length r.0) × (length r.1 ≤ length rest))
        (read_transforms left total rest acc)
unfolding read_transforms
read_transforms-Ensures zero total rest acc = omega arith
read_transforms-Ensures (suc left) total rest acc =
    let Q = λ (r : List Transform × List ℕ).
      (length acc + suc left ≡ length r.0) × (length r.1 ≤ length rest) in
    reject-Ensures Q (ltb (length rest) 8) _ _ λ short.
      rw (index_ok {E = PayloadError} rest 0 0 (omega (arith, ltb→ge (length rest) 8 short))) (
        >>=-Ensures (λ (r : Transform × List ℕ). length r.1 + 8 ≤ length rest) Q
          (parse_transform rest) _ (parse_transform-Ensures rest)
          λ (t, tail) k.
            let grown = length-append acc (t ∷ []) in
            elim (Bool-cases (get_or rest 0 0 == 0)) [
              | inl last ↦ rw last (
                  reject-Ensures Q (not (left == 0)) _ _
                    λ z. let left0 : left ≡ 0 = ground (arith, z) in (omega arith, omega arith))
              | inr more ↦ rw more (
                  reject-Ensures Q (not (get_or rest 0 0 == 3)) _ _ λ _.
                    reject-Ensures Q (left == 0) _ _ λ _.
                      Ensures-mono
                        (λ (r : List Transform × List ℕ).
                          (length (acc ++ (t ∷ [])) + left ≡ length r.0)
                          × (length r.1 ≤ length tail))
                        Q (read_transforms left total tail (acc ++ (t ∷ [])))
                        (read_transforms-Ensures left total tail (acc ++ (t ∷ [])))
                        λ r q. (omega arith, omega arith))
            ])

-- An accepted proposal has a transform, and takes eight bytes at least.
abbrev pub ProposalOf : List ℕ → Proposal × List ℕ → Type 0
ProposalOf b (p, tail) = (1 ≤ length p.transforms) × (length tail + 8 ≤ length b)

parse_proposal-Ensures : (b : List ℕ) → Ensures (ProposalOf b) (parse_proposal b)
unfolding parse_proposal
parse_proposal-Ensures b =
    let Q = ProposalOf b in
    reject-Ensures Q (ltb (length b) 8) _ _ λ short.
      let long : 8 ≤ length b = ltb→ge (length b) 8 short in
      rw (slice_ok {E = PayloadError} b 2 4 (omega arith) (omega arith)) (
        be_uint16_bind Q (take 2 (drop 2 b)) _
          (omega (arith, length-take 2 (drop 2 b), length-drop 2 b))
          λ len _. reject-Ensures Q (ltb len 8) _ _ λ lo.
            reject-Ensures Q (ltb (length b) len) _ _ λ hi.
              let lo' : 8 ≤ len = ltb→ge len 8 lo in
              let hi' : len ≤ length b = ltb→ge (length b) len hi in
              let s = get_or b 6 0 in
              let c = get_or b 7 0 in
              rw
                (
                  index_ok {E = PayloadError} b 6 0 (omega arith),
                  index_ok {E = PayloadError} b 7 0 (omega arith),
                  index_ok {E = PayloadError} b 4 0 (omega arith),
                  index_ok {E = PayloadError} b 5 0 (omega arith),
                )
                (reject-Ensures Q (ltb len (8 + s)) _ _ λ fits.
                  let fits' : 8 + s ≤ len = ltb→ge len (8 + s) fits in
                  reject-Ensures Q (c == 0) _ _ λ nz.
                    rw
                      (
                        slice_ok {E = PayloadError} b 8 (8 + s) (omega arith) (omega arith),
                        slice_ok {E = PayloadError} b (8 + s) len fits' hi',
                        slice_from_ok {E = PayloadError} b len hi',
                      )
                      (>>=-Ensures
                        (λ (r : List Transform × List ℕ).
                          (0 + c ≡ length r.0)
                          × (length r.1 ≤ length (take (len - (8 + s)) (drop (8 + s) b))))
                        Q (read_transforms c c (take (len - (8 + s)) (drop (8 + s) b)) []) _
                        (read_transforms-Ensures c c (take (len - (8 + s)) (drop (8 + s) b)) [])
                        λ (ts, left) q.
                          reject-Ensures Q (not (length left == 0)) _ _
                            λ _. (ground (arith, nz, q.0), omega (arith, length-drop len b)))))

read_proposals-Ensures :
    (fuel : ℕ) (rest : List ℕ) (acc : List Proposal)
    → length rest < fuel
    → All (λ (p : Proposal). 1 ≤ length p.transforms) acc
    → Ensures (All (λ (p : Proposal). 1 ≤ length p.transforms)) (read_proposals fuel rest acc)
unfolding read_proposals
read_proposals-Ensures zero rest acc f h = absurd (omega arith)
read_proposals-Ensures (suc fuel) rest acc f h =
    let Q = All (λ (p : Proposal). 1 ≤ length p.transforms) in
    elim (Bool-cases (length rest == 0)) [
      | inl z ↦ rw (z, read_proposals) h
      | inr nz ↦
          rw (nz, read_proposals)
            (reject-Ensures Q (ltb (length rest) 8) _ _ λ short.
              rw
                (index_ok {E = PayloadError} rest 0 0 (omega (arith, ltb→ge (length rest) 8 short)))
                (>>=-Ensures (ProposalOf rest) Q (parse_proposal rest) _
                  (parse_proposal-Ensures rest)
                  λ (p, tail) k.
                    let h' =
                      All-append (λ (p : Proposal). 1 ≤ length p.transforms) acc (p ∷ []) h
                        (k.0, tt) in
                    elim (Bool-cases (length tail == 0)) [
                      | inl last ↦
                          rw last (reject-Ensures Q (not (get_or rest 0 0 == 0)) _ _ λ _. h')
                      | inr more ↦ rw more (
                          reject-Ensures Q (not (get_or rest 0 0 == 2)) _ _ λ _.
                            read_proposals-Ensures fuel tail (acc ++ (p ∷ [])) (omega arith) h')
                    ]))
    ]

-- On any input at all the SA parser returns, with no panic; what it accepts has a proposal, and
-- every proposal has a transform.
pub parse_sa-Ensures :
    (b : List ℕ)
    → Ensures
        (λ (ps : List Proposal).
          (1 ≤ length ps) × All (λ (p : Proposal). 1 ≤ length p.transforms) ps)
        (parse_sa b)
unfolding parse_sa
parse_sa-Ensures b =
    let Q = λ (ps : List Proposal).
      (1 ≤ length ps) × All (λ (p : Proposal). 1 ≤ length p.transforms) ps in
    >>=-Ensures (All (λ (p : Proposal). 1 ≤ length p.transforms)) Q
      (read_proposals (suc (length b)) b []) _
      (read_proposals-Ensures (suc (length b)) b [] (omega arith) tt)
      λ ps h. reject-Ensures Q (length ps == 0) _ _ λ nz. (ground (arith, nz), h)
