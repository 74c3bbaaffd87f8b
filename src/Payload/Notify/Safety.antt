-- ===== src/Payload/Notify/Safety.antt =====
-- The NOTIFY and DELETE parsers on any input: they return, with no panic.
use swan.Common.{
  ℕ, zero, suc, ◌+◌, ◌-◌, ◌*◌, ◌≤◌, ◌<◌, ◌≡◌, ◌⊎◌, inl, inr, refl, ap, ◌∙◌, arith, not, List, [],
  ◌∷◌, ◌++◌, length, take, drop, ltb, ◌==◌, get_or, ltb→ge, ltb→lt, Bool-cases, length-take,
  length-drop, length-append,
}
use swan.Common.Outcome.{
  Ensures, >>=-Ensures, reject-Ensures, Ensures-mono, index_ok, slice_ok, slice_from_ok,
}
use swan.Wire.Be.Laws.{be_uint16_bind, be_uint32_bind}
use swan.Payload.Errors.{PayloadError}
use swan.Payload.Notify.{
  Notify, check_notify_scope, parse_notify, Delete, read_spis, check_delete_counts, parse_delete,
}
use swan.Payload.Notify.RoundTrip.{IsScoped}

-- The scoping rule, on a protocol and the length of an SPI.
abbrev ScopeOf : ℕ → ℕ → Type 0
ScopeOf p n = ((n ≡ 0) × ((p ≡ 0) ⊎ (p ≡ 1))) ⊎ ((1 ≤ n) × ((p ≡ 2) ⊎ (p ≡ 3)))

check_notify_scope-Ensures : (p n : ℕ) → Ensures (λ _. ScopeOf p n) (check_notify_scope p n)
unfolding check_notify_scope
check_notify_scope-Ensures p n = ground arith

-- What the NOTIFY parser accepts is scoped, and its parts are parts of the input.
pub parse_notify-Ensures :
    (b : List ℕ)
    → Ensures
        (λ (n : Notify).
          IsScoped n
          × (length n.spi ≡ get_or b 1 0)
          × (n.spi ≡ take (get_or b 1 0) (drop 4 b))
          × (n.data' ≡ drop (4 + get_or b 1 0) b))
        (parse_notify b)
unfolding parse_notify
parse_notify-Ensures b =
    let s = get_or b 1 0 in
    let Q = λ (n : Notify).
      IsScoped n × (length n.spi ≡ s) × (n.spi ≡ take s (drop 4 b)) × (n.data' ≡ drop (4 + s) b) in
    reject-Ensures Q (ltb (length b) 4) _ _ λ short.
      let long : 4 ≤ length b = ltb→ge (length b) 4 short in
      rw (index_ok {E = PayloadError} b 1 0 (omega arith)) (
        reject-Ensures Q (ltb (length b) (4 + s)) _ _ λ fits.
          let fits' : 4 + s ≤ length b = ltb→ge (length b) (4 + s) fits in
          let spi = take (4 + s - 4) (drop 4 b) in
          let l : length spi ≡ s =
            length-take (4 + s - 4) (drop 4 b) (omega (arith, length-drop 4 b)) ∙ omega arith in
          let cut : 4 + s - 4 ≡ s = omega arith in
          rw
            (
              index_ok {E = PayloadError} b 0 0 (omega arith),
              slice_ok {E = PayloadError} b 4 (4 + s) (omega arith) fits',
              slice_ok {E = PayloadError} b 2 4 (omega arith) long,
              slice_from_ok {E = PayloadError} b (4 + s) fits',
            )
            (be_uint16_bind Q (take 2 (drop 2 b)) _
              (omega (arith, length-take 2 (drop 2 b), length-drop 2 b))
              λ type _.
                >>=-Ensures (λ _. ScopeOf (get_or b 0 0) (length spi)) Q
                  (check_notify_scope (get_or b 0 0) (length spi)) _
                  (check_notify_scope-Ensures (get_or b 0 0) (length spi))
                  λ _ k. (k, l, ap (λ t. take t (drop 4 b)) cut, refl)))

-- The number of SPIs read grows by one for each four bytes.
read_spis-Ensures :
    (fuel n : ℕ) (b : List ℕ) (off : ℕ) (acc : List ℕ)
    → n < fuel
    → length b ≡ off + n * 4
    → Ensures (λ vs. length vs ≡ length acc + n) (read_spis fuel b off acc)
unfolding read_spis
read_spis-Ensures zero n b off acc f e = absurd (omega arith)
read_spis-Ensures (suc fuel) n b off acc f e =
    let Q = λ (vs : List ℕ). length vs ≡ length acc + n in
    elim (Bool-cases (ltb off (length b))) [
      | inr done ↦ rw (done, read_spis) (omega (arith, ltb→ge off (length b) done))
      | inl more ↦
          let h : off < length b = ltb→lt off (length b) more in
          rw
            (
              more,
              read_spis,
              slice_ok {E = PayloadError} b off (off + 4) (omega arith) (omega arith),
            )
            (be_uint32_bind Q (take (off + 4 - off) (drop off b)) _
              (omega (
                arith,
                length-take (off + 4 - off) (drop off b) (omega (arith, length-drop off b)),
              ))
              λ spi _.
                Ensures-mono (λ vs. length vs ≡ length (acc ++ (spi ∷ [])) + (n - 1)) Q
                  (read_spis fuel b (off + 4) (acc ++ (spi ∷ [])))
                  (read_spis-Ensures fuel (n - 1) b (off + 4) (acc ++ (spi ∷ [])) (omega arith)
                    (omega arith))
                  λ vs q. omega (arith, length-append acc (spi ∷ [])))
    ]

-- The counts that the switch lets pass.
abbrev CountsOf : ℕ → ℕ → ℕ → Type 0
CountsOf p s c = ((p ≡ 1) × (s ≡ 0) × (c ≡ 0)) ⊎ ((p ≡ 3) × (s ≡ 4) × (1 ≤ c))

check_delete_counts-Ensures :
    (p s c : ℕ) → Ensures (λ _. CountsOf p s c) (check_delete_counts p s c)
unfolding check_delete_counts
check_delete_counts-Ensures p s c = ground arith

-- What the DELETE parser accepts has no SPI for IKE, and at least one for ESP.
pub parse_delete-Ensures :
    (b : List ℕ)
    → Ensures
        (λ (d : Delete).
          ((d.protocol_id ≡ 1) × (length d.spis ≡ 0) × (length b ≡ 4))
          ⊎ ((d.protocol_id ≡ 3) × (1 ≤ length d.spis) × (length b ≡ 4 + length d.spis * 4)))
        (parse_delete b)
unfolding parse_delete
parse_delete-Ensures b =
    let Q = λ (d : Delete).
      ((d.protocol_id ≡ 1) × (length d.spis ≡ 0) × (length b ≡ 4))
      ⊎ ((d.protocol_id ≡ 3) × (1 ≤ length d.spis) × (length b ≡ 4 + length d.spis * 4)) in
    let p = get_or b 0 0 in
    let s = get_or b 1 0 in
    reject-Ensures Q (ltb (length b) 4) _ _ λ short.
      let long : 4 ≤ length b = ltb→ge (length b) 4 short in
      rw
        (
          index_ok {E = PayloadError} b 0 0 (omega arith),
          index_ok {E = PayloadError} b 1 0 (omega arith),
          slice_ok {E = PayloadError} b 2 4 (omega arith) long,
        )
        (be_uint16_bind Q (take 2 (drop 2 b)) _
          (omega (arith, length-take 2 (drop 2 b), length-drop 2 b))
          λ c _.
            >>=-Ensures (λ _. CountsOf p s c) Q (check_delete_counts p s c) _
              (check_delete_counts-Ensures p s c)
              λ _ k. reject-Ensures Q (not (length b == 4 + c * s)) _ _ λ e.
                let e' : length b ≡ 4 + c * 4 = exact p s c (length b) k (ground (arith, e)) in
                >>=-Ensures (λ (vs : List ℕ). length vs ≡ 0 + c) Q (read_spis (length b) b 4 []) _
                  (read_spis-Ensures (length b) c b 4 [] (omega arith) e')
                  λ vs q. ground (arith, k, q, e'))
  where
    exact : (p s c n : ℕ) → CountsOf p s c → n ≡ 4 + c * s → n ≡ 4 + c * 4
    exact p s c n (inl (p1, s1, z)) e = omega (arith, ap (λ (t : ℕ). t * s) z)
    exact p s c n (inr (p1, z, c1)) e = omega (arith, ap (λ (t : ℕ). c * t) z)
