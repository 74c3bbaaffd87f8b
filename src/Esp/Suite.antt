-- ===== src/Esp/Suite.antt =====
-- What the ESP workers use of xcrypto: the descriptors of xcrypto/cipher.go and xcrypto/suite.go,
-- and the keyed states as an interface with its laws. `NewEncryption` is modelled; the states are
-- parameters of the workers.
use swan.Common.{
  ℕ, ◌+◌, ◌≡◌, ◌==◌, if◌then◌else◌, Bool, true, false, ◌&&◌, ◌||◌, not, List, [], ◌∷◌, length,
  Option, none, some,
}
use swan.Common.Outcome.{Outcome, ok, err, ◌>>◌, reject}

pub record EncryptionAlg : Type 0 where
  pub transform_id : ℕ
  pub transform_key_len : ℕ
  pub key_len : ℕ
  pub salt_len : ℕ
  pub iv_len : ℕ
  pub block_len : ℕ
  pub icv_len : ℕ
  pub aead : Bool

pub data CryptoError : Type 0 where
  unsupported_key_length : ℕ → CryptoError
  unsupported_encryption : ℕ → CryptoError

abbrev cbc : ℕ → ℕ → EncryptionAlg
cbc id kl = record {
  transform_id = id;
  transform_key_len = kl;
  key_len = kl;
  salt_len = 0;
  iv_len = 16;
  block_len = 16;
  icv_len = 0;
  aead = false;
}

abbrev ccm : ℕ → ℕ → ℕ → EncryptionAlg
ccm id kl tag = record {
  transform_id = id;
  transform_key_len = kl;
  key_len = kl + 3;
  salt_len = 3;
  iv_len = 8;
  block_len = 1;
  icv_len = tag;
  aead = true;
}

abbrev gcm : ℕ → ℕ → ℕ → EncryptionAlg
gcm id kl tag = record {
  transform_id = id;
  transform_key_len = kl;
  key_len = kl + 4;
  salt_len = 4;
  iv_len = 8;
  block_len = 1;
  icv_len = tag;
  aead = true;
}

-- The names of the algorithms are left out.
unfoldable pub new_encryption : ℕ → ℕ → Outcome CryptoError EncryptionAlg
new_encryption id key_len = do
  reject (not (key_len == 16) && not (key_len == 32)) (unsupported_key_length key_len)
  if id == 12
      then ok (cbc id key_len)
      else if id == 14 || id == 15 || id == 16
      then ok (ccm id key_len (if id == 15 then 12 else if id == 16 then 16 else 8))
      else if id == 19 || id == 20
      then ok (gcm id key_len (if id == 20 then 16 else 12))
      else err (unsupported_encryption id)

pub record Integrity : Type 0 where
  pub id : ℕ
  pub output_len : ℕ
  pub key_len : ℕ

-- The two transforms of a `Selection` that ESP reads; `none` is a nil pointer.
pub record Selection : Type 0 where
  pub encryption : Option EncryptionAlg
  pub integrity : Option Integrity

pub record ChildKeys : Type 0 where
  pub sk_ei : List ℕ
  pub sk_ai : List ℕ
  pub sk_er : List ℕ
  pub sk_ar : List ℕ

-- A keyed state: what `SealTo` appends to its destination and what `OpenTo` appends to its own, for
-- an IV, the authenticated data and a text; `none` is an error.
pub record PreparedEncryption : Type 0 where
  pub seal_to : List ℕ → List ℕ → List ℕ → Option (List ℕ)
  pub open_to : List ℕ → List ℕ → List ℕ → Option (List ℕ)

-- A keyed authenticator: what `Sign` returns, `none` for an error.
pub record PreparedIntegrity : Type 0 where
  pub sign : List ℕ → Option (List ℕ)

-- `hmac.Equal`.
unfoldable pub equal : List ℕ → List ℕ → Bool
equal [] [] = true
equal [] (y ∷ ys) = false
equal (x ∷ xs) [] = false
equal (x ∷ xs) (y ∷ ys) = x == y && equal xs ys

unfoldable pub verify : PreparedIntegrity → List ℕ → List ℕ → Bool
verify p msg icv = elim (p.sign msg) [
  | none ↦ false
  | some got ↦ length got == length icv && equal got icv
]

-- `EncryptionAlg.Prepare` and `Integrity.Prepare`.
pub record Crypto : Type 0 where
  pub prepare : EncryptionAlg → List ℕ → Option PreparedEncryption
  pub prepare_integ : Integrity → List ℕ → Option PreparedIntegrity

-- A sender's and a receiver's state with one key: what is sealed opens again, under the same
-- authenticated data for an AEAD and under any for CBC, and a sealed text has the tag's length more.
pub record Pair (alg : EncryptionAlg) (sender receiver : PreparedEncryption) : Type 0 where
  pub open-seal :
      (iv aad aad' plain sealed : List ℕ)
      → (alg.aead ≡ true → aad' ≡ aad)
      → sender.seal_to iv aad plain ≡ some sealed
      → receiver.open_to iv aad' sealed ≡ some plain
  pub length-seal :
      (iv aad plain sealed : List ℕ)
      → sender.seal_to iv aad plain ≡ some sealed
      → length sealed ≡ length plain + alg.icv_len

-- The two ends of an authenticator with one key: what is signed has the transform's length, and
-- the receiver computes the same.
pub record IntegrityPair (integ : Integrity) (sender receiver : PreparedIntegrity) : Type 0 where
  pub sign_same : (text : List ℕ) → receiver.sign text ≡ sender.sign text
  pub length-sign :
      (text icv : List ℕ) → sender.sign text ≡ some icv → length icv ≡ integ.output_len
