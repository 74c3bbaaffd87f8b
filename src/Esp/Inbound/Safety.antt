-- ===== src/Esp/Inbound/Safety.antt =====
-- The inbound worker on any datagram: it returns, and what it hands on was authenticated.
use swan.Common.{
  ℕ, ◌+◌, ◌-◌, ◌≤◌, ◌≡◌, ◌≢◌, inl, inr, refl, sym, ap, ◌∙◌, arith, Bool, true, false, not, ◌&&◌,
  List, length, take, drop, ltb, ◌==◌, get_or, ltb→ge, Bool-cases, length-take, length-drop,
  drop-drop, Option, some, none,
}
use swan.Common.Outcome.{
  Outcome, ok, ◌>>=◌, ◌>>◌, of_elem, Ensures, >>=-Ensures, reject-Ensures, slice_ok, slice_from_ok,
  index_ok,
}
use swan.Wire.Be.{be_uint32}
use swan.Wire.Be.Laws.{be_uint32_bind}
use swan.Esp.Errors.{EspError, decrypt_failed, integrity_required}
use swan.Esp.Suite.{EncryptionAlg, Integrity, PreparedEncryption, PreparedIntegrity, verify}
use swan.Esp.Inbound.{
  Inbound, accept_spi, icv_len_of, open_body, strip_trailer, check_state, decrypt,
}
use swan.Esp.Inbound.Ready.{IsReady, Any, prepared_bind, prepared-Ensures}

-- A text the keyed state opened under the datagram's own header, or one behind a datagram whose
-- last bytes are its ICV.
pub data Authentic (p : Inbound) (d : List ℕ) : List ℕ → Type 0 where
  by_tag :
      (state : PreparedEncryption) (iv sealed : List ℕ) {plain : List ℕ}
      → p.enc ≡ some state
      → state.open_to iv (take 8 d) sealed ≡ some plain
      → Authentic p d plain
  by_icv :
      (integ : PreparedIntegrity) (n : ℕ) {plain : List ℕ}
      → p.integ ≡ some integ
      → verify integ (take (length d - n) d) (drop (length d - n) d) ≡ true
      → Authentic p d plain

verified : {x y : Bool} → x ≡ y → not x ≡ false → y ≡ true
verified {x = true} e v = sym e
verified {x = false} e v = cc

open_body-Ensures :
    (p : Inbound) (enc : EncryptionAlg) (icv_len : ℕ) (d iv : List ℕ)
    → 8 + (enc.iv_len + icv_len) ≤ length d
    → Ensures (Authentic p d) (open_body p enc icv_len d iv (drop enc.iv_len (drop 8 d)))
unfolding open_body
open_body-Ensures p enc icv_len d iv h =
    let Q = Authentic p d in
    let rest = drop enc.iv_len (drop 8 d) in
    let n = length rest - icv_len in
    let lr : length rest + 8 + enc.iv_len ≡ length d =
      omega (arith, length-drop enc.iv_len (drop 8 d), length-drop 8 d) in
    let same_area : take (length d - icv_len - 0) d ≡ take (length d - icv_len) d =
      ap (λ k. take k d) (omega arith) in
    let same_icv : drop n rest ≡ drop (length d - icv_len) d =
      drop-drop (drop 8 d) enc.iv_len n (enc.iv_len + n) refl
      ∙ drop-drop d 8 (enc.iv_len + n) (length d - icv_len) (omega (arith, lr)) in
    elim (Bool-cases enc.aead) [
      | inl e ↦
          rw (e, open_body, slice_ok {E = EspError} d 0 8 (omega arith) (omega arith))
            (prepared_bind Q p.enc decrypt_failed _ λ state es.
              prepared-Ensures Q _ decrypt_failed λ plain eo. by_tag state iv rest es eo)
      | inr e ↦
          rw (e, open_body)
            (prepared_bind Q p.integ integrity_required _ λ integ ei.
              rw
                (
                  slice_ok {E = EspError} rest 0 n (omega arith) (omega arith),
                  slice_from_ok {E = EspError} rest n (omega arith),
                  slice_ok {E = EspError} d 0 (length d - icv_len) (omega arith) (omega arith),
                )
                (reject-Ensures Q
                  (not (verify integ (take (length d - icv_len - 0) d) (drop n rest))) _ _
                  λ v. prepared_bind Q p.enc decrypt_failed _ λ state _.
                    prepared-Ensures Q _ decrypt_failed λ plain _. by_icv integ icv_len ei (
                      verified
                        (ap (λ t. verify integ t (drop n rest)) same_area
                          ∙ ap (λ t. verify integ (take (length d - icv_len) d) t) same_icv)
                        v)))
    ]

strip_trailer-Ensures :
    (plain : List ℕ)
    → Ensures
        (λ (inner : List ℕ).
          (1 ≤ length inner)
          × (length inner + 2 ≤ length plain)
          × (inner ≡ take (length inner) plain))
        (strip_trailer plain)
unfolding strip_trailer
strip_trailer-Ensures plain =
    let Q = λ (inner : List ℕ).
      (1 ≤ length inner)
      × (length inner + 2 ≤ length plain)
      × (inner ≡ take (length inner) plain) in
    let l = length plain in
    reject-Ensures Q (ltb l 2) _ _ λ short.
      let long : 2 ≤ l = ltb→ge l 2 short in
      rw
        (
          index_ok {E = EspError} plain (l - 2) 0 (omega arith),
          index_ok {E = EspError} plain (l - 1) 0 (omega arith),
        )
        (let pad = get_or plain (l - 2) 0 in
          let nh = get_or plain (l - 1) 0 in
          reject-Ensures Q (ltb l (pad + 2)) _ _ λ fits.
            let fits' : pad + 2 ≤ l = ltb→ge l (pad + 2) fits in
            reject-Ensures Q (not (nh == 4) && not (nh == 41)) _ _ λ _.
              let n = l - pad - 2 in
              let inner = take (n - 0) plain in
              let li : length inner ≡ n = omega (arith, length-take (n - 0) plain) in
              rw (slice_ok {E = EspError} plain 0 n (omega arith) (omega arith)) (
                reject-Ensures Q (length inner == 0) _ _ λ nz.
                  (ground (arith, nz), omega arith, ap (λ k. take k plain) (omega (arith, li)))))

accept_spi-Ensures :
    (p : Inbound) (d : List ℕ)
    → Ensures
        (λ (b : Bool). b ≡ true → (8 ≤ length d) × (be_uint32 {E = EspError} (take 4 d) ≡ ok p.spi))
        (accept_spi p d)
unfolding accept_spi
accept_spi-Ensures p d =
    let Q =
      λ (b : Bool). b ≡ true → (8 ≤ length d) × (be_uint32 {E = EspError} (take 4 d) ≡ ok p.spi) in
    elim (Bool-cases (ltb (length d) 8)) [
      | inl short ↦ rw (short, accept_spi) (λ e. cc)
      | inr long ↦
          let l : 8 ≤ length d = ltb→ge (length d) 8 long in
          rw (long, accept_spi, slice_ok {E = EspError} d 0 4 (omega arith) (omega arith))
            (be_uint32_bind Q (take 4 d) _ (omega (arith, length-take 4 d))
              λ spi es e. (l, es ∙ ap ok (ground (arith, e))))
    ]

icv_len_of-Ensures :
    (enc : EncryptionAlg) (integ_alg : Option Integrity) → Ensures Any (icv_len_of enc integ_alg)
unfolding icv_len_of
icv_len_of-Ensures enc integ_alg = elim (Bool-cases enc.aead) [
  | inl e ↦ rw (e, icv_len_of) tt
  | inr e ↦ rw (e, icv_len_of) (prepared_bind Any integ_alg _ _ λ integ _. tt)
]

check_state_err {ℓ} :
    {B : Type ℓ} (Q : B → Type 0) (k : Outcome EspError B) {o : Option EspError} {e : EspError}
    → o ≡ some e
    → Ensures Q (check_state o >> k)
check_state_err Q k h = rw h tt

check_state_bind {ℓ} :
    {B : Type ℓ} (Q : B → Type 0) (k : Outcome EspError B) {o : Option EspError}
    → o ≡ none
    → Ensures Q k
    → Ensures Q (check_state o >> k)
check_state_bind Q k h q = rw h q

of_elem_bind {ℓ κ} :
    {A : Type ℓ} {B : Type κ} (Q : B → Type 0) (f : A → Outcome EspError B) {o : Option A} {a : A}
    → o ≡ some a
    → Ensures Q (f a)
    → Ensures Q (of_elem o >>= f)
of_elem_bind Q f h q = rw h q

-- What a decrypted packet is: the datagram has the worker's SPI and a sequence number that is not
-- 0, and the inner packet, not empty, is the front of an authentic text.
abbrev pub DecryptOf : Inbound → List ℕ → ℕ × List ℕ → Type 0
DecryptOf p d (seq, inner) =
    (be_uint32 {E = EspError} (take 4 d) ≡ ok p.spi)
    × (be_uint32 {E = EspError} (take 4 (drop 4 d)) ≡ ok seq)
    × (seq ≢ 0)
    × (1 ≤ length inner)
    × ((plain : List ℕ) × Authentic p d plain × (inner ≡ take (length inner) plain))

pub decrypt-Ensures : (p : Inbound) (d : List ℕ) → IsReady p → Ensures (DecryptOf p d) (decrypt p d)
unfolding decrypt
decrypt-Ensures p d (inl (e, h)) = check_state_err (DecryptOf p d) _ h
decrypt-Ensures p d (inr (enc, h, alg)) =
    let Q = DecryptOf p d in
    check_state_bind Q _ h (
      >>=-Ensures
        (λ (b : Bool). b ≡ true → (8 ≤ length d) × (be_uint32 {E = EspError} (take 4 d) ≡ ok p.spi))
        Q (accept_spi p d) _ (accept_spi-Ensures p d)
        λ mine k. reject-Ensures Q (not mine) _ _ λ is_mine.
          let (long, spi) = k (ground (arith, is_mine)) in
          reject-Ensures Q (ltb (length d) 8) _ _ λ _.
            rw
              (
                slice_ok {E = EspError} d 4 8 (omega arith) long,
                slice_from_ok {E = EspError} d 8 long,
              )
              (be_uint32_bind Q (take 4 (drop 4 d)) _
                (omega (arith, length-take 4 (drop 4 d), length-drop 4 d))
                λ seq eseq. reject-Ensures Q (seq == 0) _ _ λ nz. of_elem_bind Q _ alg (
                  >>=-Ensures Any Q (icv_len_of enc p.integ_alg) _
                    (icv_len_of-Ensures enc p.integ_alg)
                    λ icv_len _.
                      reject-Ensures Q (ltb (length (drop 8 d)) (enc.iv_len + icv_len)) _ _ λ fits.
                        let body = drop 8 d in
                        let lb = length-drop 8 d in
                        let fits' = ltb→ge (length body) (enc.iv_len + icv_len) fits in
                        rw
                          (
                            slice_ok {E = EspError} body 0 enc.iv_len (omega arith) (omega arith),
                            slice_from_ok {E = EspError} body enc.iv_len (omega arith),
                          )
                          (>>=-Ensures (Authentic p d) Q
                            (open_body p enc icv_len d (take (enc.iv_len - 0) body)
                              (drop enc.iv_len body))
                            _
                            (open_body-Ensures p enc icv_len d (take (enc.iv_len - 0) body)
                              (omega arith))
                            λ plain a.
                              >>=-Ensures
                                (λ (inner : List ℕ).
                                  (1 ≤ length inner)
                                  × (length inner + 2 ≤ length plain)
                                  × (inner ≡ take (length inner) plain))
                                Q (strip_trailer plain) _ (strip_trailer-Ensures plain)
                                λ inner i. (spi, eseq, ground (arith, nz), i.0, (plain, a, i.2))))))
