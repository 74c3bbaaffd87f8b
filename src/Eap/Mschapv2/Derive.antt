-- ===== src/Eap/Mschapv2/Derive.antt =====
-- What MSCHAPv2 derives from the password and the challenges: eap/mschapv2/mschapv2.go. SHA-1 and DES are
-- Go's, and parameters.
use swan.Common.{ℕ, zero, suc, List, [], ◌∷◌, ◌++◌, take, drop, Option, none, some}
use swan.Common.Outcome.{Outcome, ok, err, ◌>>=◌, slice}
use swan.Eap.Mschapv2.Md4.{md4}
use swan.Eap.Mschapv2.DesKey.{expand_des_key}
use swan.Eap.Mschapv2.Runes.{utf16_le}
use swan.Eap.Mschapv2.Text.{MschapError, des_failed, hex_encode, to_upper}

-- The digest of a text; and for a key the encryption of one block, or none for an error.
pub record MschapCrypto : Type 0 where
  pub sha1 : List ℕ → List ℕ
  pub des : List ℕ → Option (List ℕ → List ℕ)

-- The bytes of an array of `n` bytes, zero at first, behind a copy.
abbrev copy_into : ℕ → List ℕ → List ℕ
copy_into zero xs = []
copy_into (suc n) [] = 0 ∷ copy_into n []
copy_into (suc n) (x ∷ xs) = x ∷ copy_into n xs

-- "Magic server to client signing constant".
abbrev magic1 : List ℕ
magic1 =
    77 ∷ 97 ∷ 103 ∷ 105 ∷ 99 ∷ 32 ∷ 115 ∷ 101 ∷ 114 ∷ 118 ∷ 101 ∷ 114 ∷ 32 ∷ 116 ∷ 111 ∷ 32 ∷ 99
    ∷ 108 ∷ 105 ∷ 101 ∷ 110 ∷ 116 ∷ 32 ∷ 115 ∷ 105 ∷ 103 ∷ 110 ∷ 105 ∷ 110 ∷ 103 ∷ 32 ∷ 99 ∷ 111
    ∷ 110 ∷ 115 ∷ 116 ∷ 97 ∷ 110 ∷ 116 ∷ []

-- "Pad to make it do more than one iteration".
abbrev magic2 : List ℕ
magic2 =
    80 ∷ 97 ∷ 100 ∷ 32 ∷ 116 ∷ 111 ∷ 32 ∷ 109 ∷ 97 ∷ 107 ∷ 101 ∷ 32 ∷ 105 ∷ 116 ∷ 32 ∷ 100 ∷ 111
    ∷ 32 ∷ 109 ∷ 111 ∷ 114 ∷ 101 ∷ 32 ∷ 116 ∷ 104 ∷ 97 ∷ 110 ∷ 32 ∷ 111 ∷ 110 ∷ 101 ∷ 32 ∷ 105 ∷ 116
    ∷ 101 ∷ 114 ∷ 97 ∷ 116 ∷ 105 ∷ 111 ∷ 110 ∷ []

-- "This is the MPPE Master Key".
abbrev msk_magic1 : List ℕ
msk_magic1 =
    84 ∷ 104 ∷ 105 ∷ 115 ∷ 32 ∷ 105 ∷ 115 ∷ 32 ∷ 116 ∷ 104 ∷ 101 ∷ 32 ∷ 77 ∷ 80 ∷ 80 ∷ 69 ∷ 32 ∷ 77
    ∷ 97 ∷ 115 ∷ 116 ∷ 101 ∷ 114 ∷ 32 ∷ 75 ∷ 101 ∷ 121 ∷ []

-- "On the client side, this is the send key; on the server side, it is the receive key.".
abbrev msk_magic2 : List ℕ
msk_magic2 =
    79 ∷ 110 ∷ 32 ∷ 116 ∷ 104 ∷ 101 ∷ 32 ∷ 99 ∷ 108 ∷ 105 ∷ 101 ∷ 110 ∷ 116 ∷ 32 ∷ 115 ∷ 105 ∷ 100
    ∷ 101 ∷ 44 ∷ 32 ∷ 116 ∷ 104 ∷ 105 ∷ 115 ∷ 32 ∷ 105 ∷ 115 ∷ 32 ∷ 116 ∷ 104 ∷ 101 ∷ 32 ∷ 115 ∷ 101
    ∷ 110 ∷ 100 ∷ 32 ∷ 107 ∷ 101 ∷ 121 ∷ 59 ∷ 32 ∷ 111 ∷ 110 ∷ 32 ∷ 116 ∷ 104 ∷ 101 ∷ 32 ∷ 115 ∷ 101
    ∷ 114 ∷ 118 ∷ 101 ∷ 114 ∷ 32 ∷ 115 ∷ 105 ∷ 100 ∷ 101 ∷ 44 ∷ 32 ∷ 105 ∷ 116 ∷ 32 ∷ 105 ∷ 115 ∷ 32
    ∷ 116 ∷ 104 ∷ 101 ∷ 32 ∷ 114 ∷ 101 ∷ 99 ∷ 101 ∷ 105 ∷ 118 ∷ 101 ∷ 32 ∷ 107 ∷ 101 ∷ 121 ∷ 46 ∷ []

-- "On the client side, this is the receive key; on the server side, it is the send key.".
abbrev msk_magic3 : List ℕ
msk_magic3 =
    79 ∷ 110 ∷ 32 ∷ 116 ∷ 104 ∷ 101 ∷ 32 ∷ 99 ∷ 108 ∷ 105 ∷ 101 ∷ 110 ∷ 116 ∷ 32 ∷ 115 ∷ 105 ∷ 100
    ∷ 101 ∷ 44 ∷ 32 ∷ 116 ∷ 104 ∷ 105 ∷ 115 ∷ 32 ∷ 105 ∷ 115 ∷ 32 ∷ 116 ∷ 104 ∷ 101 ∷ 32 ∷ 114 ∷ 101
    ∷ 99 ∷ 101 ∷ 105 ∷ 118 ∷ 101 ∷ 32 ∷ 107 ∷ 101 ∷ 121 ∷ 59 ∷ 32 ∷ 111 ∷ 110 ∷ 32 ∷ 116 ∷ 104 ∷ 101
    ∷ 32 ∷ 115 ∷ 101 ∷ 114 ∷ 118 ∷ 101 ∷ 114 ∷ 32 ∷ 115 ∷ 105 ∷ 100 ∷ 101 ∷ 44 ∷ 32 ∷ 105 ∷ 116 ∷ 32
    ∷ 105 ∷ 115 ∷ 32 ∷ 116 ∷ 104 ∷ 101 ∷ 32 ∷ 115 ∷ 101 ∷ 110 ∷ 100 ∷ 32 ∷ 107 ∷ 101 ∷ 121 ∷ 46 ∷ []

abbrev repeated : ℕ → ℕ → List ℕ
repeated zero b = []
repeated (suc n) b = b ∷ repeated n b

abbrev shapad1 : List ℕ
shapad1 = repeated 40 0

abbrev shapad2 : List ℕ
shapad2 = repeated 40 0xf2

abbrev pub nt_password_hash : List ℕ → List ℕ
nt_password_hash password = md4 (utf16_le password)

unfoldable pub challenge_hash : MschapCrypto → List ℕ → List ℕ → List ℕ → List ℕ
challenge_hash c peer auth username = copy_into 8 (c.sha1 (peer ++ (auth ++ username)))

abbrev of_cipher : Option (List ℕ → List ℕ) → List ℕ → Outcome MschapError (List ℕ)
of_cipher none block = err des_failed
of_cipher (some encrypt) block = ok (copy_into 8 (encrypt block))

unfoldable pub des_encrypt_block : MschapCrypto → List ℕ → List ℕ → Outcome MschapError (List ℕ)
des_encrypt_block c key block = of_cipher (c.des key) block

-- The blocks from the padded hash, seven bytes of it for each.
unfoldable pub nt_blocks : MschapCrypto → ℕ → List ℕ → List ℕ → Outcome MschapError (List ℕ)
nt_blocks c zero padded challenge = ok []
nt_blocks c (suc n) padded challenge = do
  key8 ← expand_des_key (take 7 padded)
  block ← des_encrypt_block c key8 challenge
  rest ← nt_blocks c n (drop 7 padded) challenge
  ok (block ++ rest)

unfoldable pub generate_nt_response :
    MschapCrypto → List ℕ → List ℕ → List ℕ → List ℕ → Outcome MschapError (List ℕ)
generate_nt_response c peer auth username password =
    nt_blocks c 3 (copy_into 21 (nt_password_hash password)) (challenge_hash c peer auth username)

unfoldable pub generate_authenticator_response :
    MschapCrypto → List ℕ → List ℕ → List ℕ → List ℕ → List ℕ → List ℕ
generate_authenticator_response c peer auth username password nt_response =
    let hash : List ℕ = md4 (nt_password_hash password) in
    let first : List ℕ = c.sha1 (hash ++ (nt_response ++ magic1)) in
    to_upper (hex_encode (c.sha1 (first ++ (challenge_hash c peer auth username ++ magic2))))

unfoldable pub generate_msk : MschapCrypto → List ℕ → List ℕ → Outcome MschapError (List ℕ)
generate_msk c password nt_response = do
  let hash : List ℕ = md4 (nt_password_hash password)
  master ← slice (c.sha1 (hash ++ (nt_response ++ msk_magic1))) 0 16
  recv ← slice (c.sha1 (master ++ (shapad1 ++ (msk_magic2 ++ shapad2)))) 0 16
  send ← slice (c.sha1 (master ++ (shapad1 ++ (msk_magic3 ++ shapad2)))) 0 16
  ok (recv ++ (send ++ repeated 32 0))
