-- ===== src/Payload/Simple/RoundTrip.antt =====
-- The bodies with one block of data: what is appended parses back.
use swan.Common.{
  ℕ, ◌≤◌, ◌<◌, ◌≡◌, refl, ap, arith, List, [], ◌∷◌, ◌++◌, length, le→ltb, ne→==, append_assoc,
}
use swan.Common.Bits.{byte_at}
use swan.Common.Outcome.{ok}
use swan.Wire.Be.Laws.{put_uint16_append, be_uint16-put}
use swan.Payload.Errors.{PayloadError}
use swan.Payload.Simple.{
  KeyExchange, append_ke, parse_ke, Auth, append_auth, parse_auth, Cert, append_cert, parse_cert,
  Identity, append_id, parse_id,
}

-- A key exchange with a 16-bit group and a public value is appended behind `dst`, and parses back.
pub parse_ke-append :
    (dst : List ℕ) (ke : KeyExchange)
    → ke.dh_group < 65536
    → 1 ≤ length ke.data'
    → (body : List ℕ) × (append_ke dst ke ≡ ok (dst ++ body)) × (parse_ke body ≡ ok ke)
unfolding append_ke parse_ke
parse_ke-append dst ke g d =
    let head : List ℕ = byte_at ke.dh_group 8 ∷ byte_at ke.dh_group 0 ∷ 0 ∷ 0 ∷ [] in
    let b : List ℕ = head ++ ke.data' in
    (
      b,
      rw
          (put_uint16_append {E = PayloadError} dst (0 ∷ 0 ∷ 0 ∷ 0 ∷ []) 0 (length dst) ke.dh_group
            (omega arith) (omega arith))
          (ap ok (append_assoc dst head ke.data')),
      rw
          (
            le→ltb (length b) 4 (omega arith),
            ne→== (length ke.data') 0 (omega arith),
            be_uint16-put {E = PayloadError} ke.dh_group [] g,
          )
          refl,
    )

-- An AUTH body is appended behind `dst`, and parses back.
pub parse_auth-append :
    (dst : List ℕ) (a : Auth)
    → (body : List ℕ) × (append_auth dst a ≡ dst ++ body) × (parse_auth body ≡ ok a)
unfolding append_auth parse_auth
parse_auth-append dst a =
    let head : List ℕ = a.method ∷ 0 ∷ 0 ∷ 0 ∷ [] in
    (
      head ++ a.data',
      append_assoc dst head a.data',
      rw (le→ltb (length (head ++ a.data')) 4 (omega arith)) refl,
    )

-- So is a CERT body that carries data.
pub parse_cert-append :
    (dst : List ℕ) (c : Cert)
    → 1 ≤ length c.der
    → (body : List ℕ) × (append_cert dst c ≡ dst ++ body) × (parse_cert body ≡ ok c)
unfolding append_cert parse_cert
parse_cert-append dst c h =
    let head : List ℕ = c.encoding ∷ [] in
    (
      head ++ c.der,
      append_assoc dst head c.der,
      rw (le→ltb (length (head ++ c.der)) 1 (omega arith), ne→== (length c.der) 0 (omega arith))
          refl,
    )

-- So is an ID body that carries data.
pub parse_id-append :
    (dst : List ℕ) (i : Identity)
    → 1 ≤ length i.data'
    → (body : List ℕ) × (append_id dst i ≡ dst ++ body) × (parse_id body ≡ ok i)
unfolding append_id parse_id
parse_id-append dst i h =
    let head : List ℕ = i.type ∷ 0 ∷ 0 ∷ 0 ∷ [] in
    (
      head ++ i.data',
      append_assoc dst head i.data',
      rw (le→ltb (length (head ++ i.data')) 4 (omega arith), ne→== (length i.data') 0 (omega arith))
          refl,
    )
