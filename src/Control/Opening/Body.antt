-- ===== src/Control/Opening/Body.antt =====
-- The encrypted body: what one end seals and signs, the other end verifies and opens.
use mathlib.Core.Path.{subst}
use swan.Common.{
  ℕ, ◌+◌, ◌-◌, ◌≤◌, ◌≡◌, refl, sym, ap, ◌∙◌, arith, ◌==◌, if◌then◌else◌, Bool, true, false, not,
  List, [], ◌∷◌, ◌++◌, length, Option, none, some, Bool-cases, inl, inr, eq→==, le→ltb,
  append_assoc, length-append, take-append_length, drop-append_length,
}
use swan.Common.Outcome.{
  Outcome, ok, err, ◌>>=◌, Ensures, >>=-ok, reject-ok, of_elem, slice_ok, slice_from_ok,
}
use swan.Esp.Suite.{EncryptionAlg, Integrity, Selection, equal}
use swan.Control.Protected.{
  ProtectedError, IkeCrypto, or_fail, open_failed, sign_failed, outer_icv_len, append_icv,
  pad_ike_plaintext,
}
use swan.Control.Protected.Padding.{strip_ike_plaintext-pad}
use swan.Control.Opening.{verify_icv, open_signed, open_encrypted_body}

-- What is documented of the cipher and the authenticator, for one pair of keys: a sealed text opens
-- to what it was, and has the tag's length more; an ICV has the transform's length.
pub record Keyed (c : IkeCrypto) (sel : Selection) (enc_key integ_key : List ℕ) : Type 0 where
  pub enc : EncryptionAlg
  pub selected : sel.encryption ≡ some enc
  pub block : enc.block_len ≤ 256
  pub unseal-seal :
      (iv aad plain sealed : List ℕ)
      → c.seal enc enc_key iv aad plain ≡ some sealed
      → c.unseal enc enc_key iv aad sealed ≡ some plain
  pub length-seal :
      (iv aad plain sealed : List ℕ)
      → c.seal enc enc_key iv aad plain ≡ some sealed
      → length sealed ≡ (if enc.aead then length plain + enc.icv_len else length plain)
  pub length-sign :
      (integ : Integrity) (text icv : List ℕ)
      → c.sign integ integ_key text ≡ some icv
      → length icv ≡ integ.output_len

equal_self : (xs : List ℕ) → equal xs xs ≡ true
unfolding equal
equal_self [] = refl
equal_self (x ∷ xs) = rw (eq→== x x refl) (equal_self xs)

verify_icv_lem :
    (c : IkeCrypto) (integ : Integrity) (key text icv : List ℕ)
    → c.sign integ key text ≡ some icv
    → verify_icv c integ key text icv ≡ true
unfolding verify_icv
verify_icv_lem c integ key text icv e =
    rw (e, verify_icv, eq→== (length icv) (length icv) refl) (equal_self icv)

-- The length of what a plaintext is sealed to.
abbrev pub sealed_len : EncryptionAlg → List ℕ → ℕ
sealed_len enc plain =
    let padded = pad_ike_plaintext enc plain in
    if enc.aead then length padded + enc.icv_len else length padded

module _ (c : IkeCrypto) (sel : Selection) (ek ik : List ℕ) (k : Keyed c sel ek ik)
    (pre iv plain sealed : List ℕ) where
  open_aead :
      k.enc.aead ≡ true
      → length iv ≡ k.enc.iv_len
      → c.seal k.enc ek iv pre (pad_ike_plaintext k.enc plain) ≡ some sealed
      → open_encrypted_body c sel ek ik pre (iv ++ sealed) ≡ ok plain
  unfolding open_encrypted_body
  open_aead a li es =
      let body : List ℕ = iv ++ sealed in
      let l = length-append iv sealed in
      >>=-ok _ _ (ap of_elem k.selected) (
        reject-ok _ _ _ (le→ltb (length body) k.enc.iv_len (omega (arith, l, li))) (
          >>=-ok _ _
            (slice_ok {E = ProtectedError} body 0 k.enc.iv_len (omega arith) (omega (arith, l, li))
              ∙ ap ok (take-append_length iv sealed (k.enc.iv_len - 0) (omega (arith, li))))
            (>>=-ok _ _
              (slice_from_ok {E = ProtectedError} body k.enc.iv_len (omega (arith, l, li))
                ∙ ap ok (drop-append_length iv sealed k.enc.iv_len (omega (arith, li))))
              (rw (a, open_encrypted_body)
                (>>=-ok _ _
                  (ap (λ o. or_fail o open_failed)
                    (k.unseal-seal iv pre (pad_ike_plaintext k.enc plain) sealed es))
                  (strip_ike_plaintext-pad k.enc plain k.block))))))

  open_signed_lem :
      (integ : Integrity) (icv : List ℕ)
      → (integ.key_len == 0) ≡ false
      → c.seal k.enc ek iv [] (pad_ike_plaintext k.enc plain) ≡ some sealed
      → c.sign integ ik ((pre ++ iv) ++ sealed) ≡ some icv
      → open_signed c k.enc (some integ) ek ik pre iv (sealed ++ icv) ≡ ok plain
  unfolding open_signed
  open_signed_lem integ icv keyed es eg =
      let rest : List ℕ = sealed ++ icv in
      let l = length-append sealed icv in
      let li = k.length-sign integ ((pre ++ iv) ++ sealed) icv eg in
      let n = length rest - integ.output_len in
      reject-ok _ _ _ keyed (
        reject-ok _ _ _ (le→ltb (length rest) integ.output_len (omega (arith, l, li))) (
          >>=-ok _ _
            (slice_ok {E = ProtectedError} rest 0 n (omega arith) (omega arith)
              ∙ ap ok (take-append_length sealed icv (n - 0) (omega (arith, l, li))))
            (>>=-ok _ _
              (slice_from_ok {E = ProtectedError} rest n (omega arith)
                ∙ ap ok (drop-append_length sealed icv n (omega (arith, l, li))))
              (reject-ok _ _ _ (ap not (verify_icv_lem c integ ik ((pre ++ iv) ++ sealed) icv eg)) (
                >>=-ok _ _
                  (ap (λ o. or_fail o open_failed)
                    (k.unseal-seal iv [] (pad_ike_plaintext k.enc plain) sealed es))
                  (strip_ike_plaintext-pad k.enc plain k.block))))))

  open_cbc :
      (integ : Integrity) (icv : List ℕ)
      → k.enc.aead ≡ false
      → sel.integrity ≡ some integ
      → (integ.key_len == 0) ≡ false
      → length iv ≡ k.enc.iv_len
      → c.seal k.enc ek iv [] (pad_ike_plaintext k.enc plain) ≡ some sealed
      → c.sign integ ik ((pre ++ iv) ++ sealed) ≡ some icv
      → open_encrypted_body c sel ek ik pre (iv ++ (sealed ++ icv)) ≡ ok plain
  unfolding open_encrypted_body
  open_cbc integ icv a ei keyed li es eg =
      let rest : List ℕ = sealed ++ icv in
      let body : List ℕ = iv ++ rest in
      let l = length-append iv rest in
      >>=-ok _ _ (ap of_elem k.selected) (
        reject-ok _ _ _ (le→ltb (length body) k.enc.iv_len (omega (arith, l, li))) (
          >>=-ok _ _
            (slice_ok {E = ProtectedError} body 0 k.enc.iv_len (omega arith) (omega (arith, l, li))
              ∙ ap ok (take-append_length iv rest (k.enc.iv_len - 0) (omega (arith, li))))
            (>>=-ok _ _
              (slice_from_ok {E = ProtectedError} body k.enc.iv_len (omega (arith, l, li))
                ∙ ap ok (drop-append_length iv rest k.enc.iv_len (omega (arith, li))))
              (rw (a, open_encrypted_body)
                (ap (λ o. open_signed c k.enc o ek ik pre iv rest) ei
                  ∙ open_signed_lem integ icv keyed es eg)))))

  -- A packet behind its prefix: its length, and what its body opens to.
  abbrev pub Body : ℕ → List ℕ → Type 0
  Body n raw =
      (tail : List ℕ) × (raw ≡ pre ++ (iv ++ tail))
      × (length (iv ++ tail) ≡ n)
      × (open_encrypted_body c sel ek ik pre (iv ++ tail) ≡ ok plain)

  Body-aead :
      k.enc.aead ≡ true
      → length iv ≡ k.enc.iv_len
      → c.seal k.enc ek iv pre (pad_ike_plaintext k.enc plain) ≡ some sealed
      → Body (k.enc.iv_len + sealed_len k.enc plain + 0) ((pre ++ iv) ++ sealed)
  Body-aead a li es = (
    sealed,
    append_assoc pre iv sealed,
    omega (
      arith,
      length-append iv sealed,
      li,
      k.length-seal iv pre (pad_ike_plaintext k.enc plain) sealed es,
    ),
    open_aead a li es,
  )

  Body-cbc :
      (integ : Integrity) (icv : List ℕ)
      → k.enc.aead ≡ false
      → sel.integrity ≡ some integ
      → (integ.key_len == 0) ≡ false
      → length iv ≡ k.enc.iv_len
      → c.seal k.enc ek iv [] (pad_ike_plaintext k.enc plain) ≡ some sealed
      → c.sign integ ik ((pre ++ iv) ++ sealed) ≡ some icv
      → Body
          (k.enc.iv_len + sealed_len k.enc plain + integ.output_len)
          (((pre ++ iv) ++ sealed) ++ icv)
  Body-cbc integ icv a ei keyed li es eg = (
    sealed ++ icv,
    append_assoc (pre ++ iv) sealed icv ∙ append_assoc pre iv (sealed ++ icv),
    omega (
      arith,
      length-append iv (sealed ++ icv),
      length-append sealed icv,
      li,
      k.length-seal iv [] (pad_ike_plaintext k.enc plain) sealed es,
      k.length-sign integ ((pre ++ iv) ++ sealed) icv eg,
    ),
    open_cbc integ icv a ei keyed li es eg,
  )

  signed_Body :
      (integ : Integrity) (m : Option (List ℕ))
      → k.enc.aead ≡ false
      → sel.integrity ≡ some integ
      → (integ.key_len == 0) ≡ false
      → length iv ≡ k.enc.iv_len
      → c.seal k.enc ek iv [] (pad_ike_plaintext k.enc plain) ≡ some sealed
      → c.sign integ ik ((pre ++ iv) ++ sealed) ≡ m
      → Ensures
          (Body (k.enc.iv_len + sealed_len k.enc plain + integ.output_len))
          (or_fail m sign_failed >>= λ icv. ok (((pre ++ iv) ++ sealed) ++ icv))
  signed_Body integ none a ei keyed li es eg = tt
  signed_Body integ (some icv) a ei keyed li es eg = Body-cbc integ icv a ei keyed li es eg

  with_aad :
      {b : Bool}
      → k.enc.aead ≡ b
      → c.seal k.enc ek iv (if k.enc.aead then pre else []) (pad_ike_plaintext k.enc plain)
        ≡ some sealed
      → c.seal k.enc ek iv (if b then pre else []) (pad_ike_plaintext k.enc plain) ≡ some sealed
  with_aad a es =
      ap (λ (b : Bool). c.seal k.enc ek iv (if b then pre else []) (pad_ike_plaintext k.enc plain))
        (sym a)
      ∙ es

  -- A cipher with a tag of its own has nothing behind the sealed text.
  tagged :
      {icv_len : ℕ} {m : Outcome ProtectedError (List ℕ)}
      → icv_len ≡ 0
      → k.enc.aead ≡ true
      → length iv ≡ k.enc.iv_len
      → c.seal k.enc ek iv (if k.enc.aead then pre else []) (pad_ike_plaintext k.enc plain)
        ≡ some sealed
      → m ≡ ok ((pre ++ iv) ++ sealed)
      → Ensures (Body (k.enc.iv_len + sealed_len k.enc plain + icv_len)) m
  tagged {icv_len} e0 a li es em =
      subst (Ensures (Body (k.enc.iv_len + sealed_len k.enc plain + icv_len))) (sym em) (
        subst (λ n. Body (k.enc.iv_len + sealed_len k.enc plain + n) ((pre ++ iv) ++ sealed))
          (sym e0) (Body-aead a li (with_aad a es)))

  -- The last step of sealing, with the lengths that the prefix was written for.
  pub append_icv-Body :
      (o : Option Integrity) (icv_len : ℕ)
      → sel.integrity ≡ o
      → outer_icv_len k.enc o ≡ ok icv_len
      → length iv ≡ k.enc.iv_len
      → c.seal k.enc ek iv (if k.enc.aead then pre else []) (pad_ike_plaintext k.enc plain)
        ≡ some sealed
      → Ensures
          (Body (k.enc.iv_len + sealed_len k.enc plain + icv_len))
          (append_icv c k.enc o ik ((pre ++ iv) ++ sealed))
  unfolding append_icv outer_icv_len
  append_icv-Body none icv_len ei eo li es = elim (Bool-cases k.enc.aead) [
    | inl a ↦
        let e0 : icv_len ≡ 0 = ground (arith, eo, a) in
        tagged e0 a li es (ap (λ b. if b then ok ((pre ++ iv) ++ sealed) else err sign_failed) a)
    | inr a ↦
        subst (Ensures (Body (k.enc.iv_len + sealed_len k.enc plain + icv_len)))
          (sym (ap (λ b. if b then ok ((pre ++ iv) ++ sealed) else err sign_failed) a)) tt
  ]
  append_icv-Body (some integ) icv_len ei eo li es =
      let signed = or_fail (c.sign integ ik ((pre ++ iv) ++ sealed)) sign_failed >>= λ icv.
      ok (((pre ++ iv) ++ sealed) ++ icv) in
      let by_tag = λ (b : Bool). if b then ok ((pre ++ iv) ++ sealed) else signed in
      elim (Bool-cases k.enc.aead) [
        | inl a ↦ let e0 : icv_len ≡ 0 = ground (arith, eo, a) in tagged e0 a li es (ap by_tag a)
        | inr a ↦
            let keyed : (integ.key_len == 0) ≡ false = ground (arith, eo, a) in
            let en : icv_len ≡ integ.output_len = ground (arith, eo, a) in
            subst (Ensures (Body (k.enc.iv_len + sealed_len k.enc plain + icv_len)))
              (sym (ap by_tag a))
              (subst (λ n. Ensures (Body (k.enc.iv_len + sealed_len k.enc plain + n)) signed)
                (sym en)
                (signed_Body integ (c.sign integ ik ((pre ++ iv) ++ sealed)) a ei keyed li
                  (with_aad a es) refl))
      ]
