-- ===== src/Payload/Simple.antt =====
-- The payload bodies with a fixed head and one block of data: wire/payload/nonce.go, ke.go, auth.go,
-- cert.go and the codec of id.go.
pub mod RoundTrip
pub mod Safety
use swan.Common.{
  ℕ, ◌+◌, ltb, ◌==◌, if◌then◌else◌, Bool, true, false, ◌||◌, not, List, [], ◌∷◌, ◌++◌, length,
}
use swan.Common.Outcome.{Outcome, ok, err, panic, ◌>>=◌, ◌>>◌, reject, index, slice, slice_from}
use swan.Wire.Be.{be_uint16, put_uint16}
use swan.Payload.Errors.{
  PayloadError, nonce_empty, ke_too_short, ke_missing_data, auth_too_short, auth_reserved,
  cert_too_short, cert_missing_der, id_too_short, id_missing_data,
}

abbrev pub append_nonce : List ℕ → List ℕ → List ℕ
append_nonce dst nonce = dst ++ nonce

unfoldable pub parse_nonce : List ℕ → Outcome PayloadError (List ℕ)
parse_nonce b = do reject (length b == 0) nonce_empty; ok b

pub record KeyExchange : Type 0 where
  pub dh_group : ℕ
  pub data' : List ℕ

unfoldable pub append_ke : List ℕ → KeyExchange → Outcome PayloadError (List ℕ)
append_ke dst ke = do
  let start = length dst
  let dst0 = dst ++ (0 ∷ 0 ∷ 0 ∷ 0 ∷ [])
  dst1 ← put_uint16 dst0 start ke.dh_group
  ok (dst1 ++ ke.data')

unfoldable pub parse_ke : List ℕ → Outcome PayloadError KeyExchange
parse_ke b = do
  reject (ltb (length b) 4) (ke_too_short (length b))
  rest ← slice_from b 4
  reject (length rest == 0) ke_missing_data
  gb ← slice b 0 2
  group ← be_uint16 gb
  ok (record { dh_group = group; data' = rest })

pub record Auth : Type 0 where
  pub method : ℕ
  pub data' : List ℕ

unfoldable pub append_auth : List ℕ → Auth → List ℕ
append_auth dst a = (dst ++ (a.method ∷ 0 ∷ 0 ∷ 0 ∷ [])) ++ a.data'

unfoldable pub parse_auth : List ℕ → Outcome PayloadError Auth
parse_auth b = do
  reject (ltb (length b) 4) (auth_too_short (length b))
  b1 ← index b 1
  b2 ← index b 2
  b3 ← index b 3
  reject (not (b1 == 0) || not (b2 == 0) || not (b3 == 0)) auth_reserved
  method ← index b 0
  rest ← slice_from b 4
  ok (record { method = method; data' = rest })

pub record Cert : Type 0 where
  pub encoding : ℕ
  pub der : List ℕ

unfoldable pub append_cert : List ℕ → Cert → List ℕ
append_cert dst c = (dst ++ (c.encoding ∷ [])) ++ c.der

unfoldable pub parse_cert : List ℕ → Outcome PayloadError Cert
parse_cert b = do
  reject (ltb (length b) 1) cert_too_short
  der ← slice_from b 1
  reject (length der == 0) cert_missing_der
  encoding ← index b 0
  ok (record { encoding = encoding; der = der })

pub record Identity : Type 0 where
  pub type : ℕ
  pub data' : List ℕ

unfoldable pub append_id : List ℕ → Identity → List ℕ
append_id dst i = (dst ++ (i.type ∷ 0 ∷ 0 ∷ 0 ∷ [])) ++ i.data'

unfoldable pub parse_id : List ℕ → Outcome PayloadError Identity
parse_id b = do
  reject (ltb (length b) 4) (id_too_short (length b))
  rest ← slice_from b 4
  reject (length rest == 0) id_missing_data
  type ← index b 0
  ok (record { type = type; data' = rest })
