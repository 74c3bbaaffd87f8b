-- ===== src/Payload/Simple/Safety.antt =====
-- The parsers of the bodies with one block of data, on any input: they return, with no panic.
use swan.Common.{
  ℕ, ◌≤◌, ◌≡◌, refl, arith, not, ◌||◌, List, length, take, drop, ltb, ◌==◌, get_or, ltb→ge,
  length-take,
}
use swan.Common.Outcome.{Ensures, reject-Ensures, index_ok, slice_ok, slice_from_ok}
use swan.Wire.Be.Laws.{be_uint16_bind}
use swan.Payload.Errors.{PayloadError}
use swan.Payload.Simple.{
  KeyExchange, Auth, Cert, Identity, parse_nonce, parse_ke, parse_auth, parse_cert, parse_id,
}

pub parse_nonce-Ensures : (b : List ℕ) → Ensures (λ n. (1 ≤ length n) × (n ≡ b)) (parse_nonce b)
unfolding parse_nonce
parse_nonce-Ensures b =
    reject-Ensures (λ n. (1 ≤ length n) × (n ≡ b)) (length b == 0) _ _
      λ nz. (ground (arith, nz), refl)

pub parse_ke-Ensures :
    (b : List ℕ)
    → Ensures (λ (k : KeyExchange). (1 ≤ length k.data') × (k.data' ≡ drop 4 b)) (parse_ke b)
unfolding parse_ke
parse_ke-Ensures b =
    let Q = λ (k : KeyExchange). (1 ≤ length k.data') × (k.data' ≡ drop 4 b) in
    reject-Ensures Q (ltb (length b) 4) _ _ λ short.
      let long : 4 ≤ length b = ltb→ge (length b) 4 short in
      rw
        (
          slice_from_ok {E = PayloadError} b 4 long,
          slice_ok {E = PayloadError} b 0 2 (omega arith) (omega arith),
        )
        (reject-Ensures Q (length (drop 4 b) == 0) _ _ λ nz.
          be_uint16_bind Q (take 2 b) _ (omega (arith, length-take 2 b))
            λ g _. (ground (arith, nz), refl))

-- The reserved bytes of an accepted AUTH body are 0.
pub parse_auth-Ensures :
    (b : List ℕ)
    → Ensures
        (λ (a : Auth).
          (a.data' ≡ drop 4 b)
          × (a.method ≡ get_or b 0 0)
          × (get_or b 1 0 ≡ 0)
          × (get_or b 2 0 ≡ 0)
          × (get_or b 3 0 ≡ 0))
        (parse_auth b)
unfolding parse_auth
parse_auth-Ensures b =
    let Q = λ (a : Auth).
      (a.data' ≡ drop 4 b)
      × (a.method ≡ get_or b 0 0)
      × (get_or b 1 0 ≡ 0)
      × (get_or b 2 0 ≡ 0)
      × (get_or b 3 0 ≡ 0) in
    let x = get_or b 1 0 in
    let y = get_or b 2 0 in
    let z = get_or b 3 0 in
    reject-Ensures Q (ltb (length b) 4) _ _ λ short.
      let long : 4 ≤ length b = ltb→ge (length b) 4 short in
      rw
        (
          index_ok {E = PayloadError} b 1 0 (omega arith),
          index_ok {E = PayloadError} b 2 0 (omega arith),
          index_ok {E = PayloadError} b 3 0 (omega arith),
          index_ok {E = PayloadError} b 0 0 (omega arith),
          slice_from_ok {E = PayloadError} b 4 long,
        )
        (reject-Ensures Q (not (x == 0) || not (y == 0) || not (z == 0)) _ _
          λ r. (refl, refl, ground (arith, r), ground (arith, r), ground (arith, r)))

pub parse_cert-Ensures :
    (b : List ℕ) → Ensures (λ (c : Cert). (1 ≤ length c.der) × (c.der ≡ drop 1 b)) (parse_cert b)
unfolding parse_cert
parse_cert-Ensures b =
    let Q = λ (c : Cert). (1 ≤ length c.der) × (c.der ≡ drop 1 b) in
    reject-Ensures Q (ltb (length b) 1) _ _ λ short.
      let long : 1 ≤ length b = ltb→ge (length b) 1 short in
      rw (slice_from_ok {E = PayloadError} b 1 long, index_ok {E = PayloadError} b 0 0 long)
        (reject-Ensures Q (length (drop 1 b) == 0) _ _ λ nz. (ground (arith, nz), refl))

pub parse_id-Ensures :
    (b : List ℕ)
    → Ensures (λ (i : Identity). (1 ≤ length i.data') × (i.data' ≡ drop 4 b)) (parse_id b)
unfolding parse_id
parse_id-Ensures b =
    let Q = λ (i : Identity). (1 ≤ length i.data') × (i.data' ≡ drop 4 b) in
    reject-Ensures Q (ltb (length b) 4) _ _ λ short.
      let long : 4 ≤ length b = ltb→ge (length b) 4 short in
      rw
        (slice_from_ok {E = PayloadError} b 4 long, index_ok {E = PayloadError} b 0 0 (omega arith))
        (reject-Ensures Q (length (drop 4 b) == 0) _ _ λ nz. (ground (arith, nz), refl))
