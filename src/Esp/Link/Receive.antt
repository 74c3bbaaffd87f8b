-- ===== src/Esp/Link/Receive.antt =====
-- The receiving end: a datagram of the sender's form is authenticated and decrypted.
use swan.Common.{
  ℕ, ◌+◌, ◌-◌, ◌^◌, ◌≤◌, ◌<◌, ◌≡◌, ◌≢◌, refl, sym, ap, ◌∙◌, arith, true, false, not, List, [], ◌∷◌,
  ◌++◌, length, take, drop, some, none, ne→==, eq→==, le→ltb, append_assoc, length-append,
  take-append_length, drop-append_length,
}
use swan.Common.Outcome.{ok, >>=-ok, reject-ok, of_elem, slice_ok, slice_from_ok}
use swan.Wire.Be.Laws.{be_uint32-put}
use swan.Esp.Errors.{EspError, decrypt_failed, integrity_required}
use swan.Esp.Suite.{EncryptionAlg, Integrity, PreparedIntegrity, IntegrityPair, verify, equal}
use swan.Esp.Inbound.{
  Inbound, check_state, prepared, accept_spi, icv_len_of, open_body, strip_trailer, decrypt,
}
use swan.Esp.Outbound.{Outbound}
use swan.Esp.Outbound.Numbers.{header_of}
use swan.Esp.Link.{Linked}

tf : true ≢ false
tf e = cc

equal_self : (xs : List ℕ) → equal xs xs ≡ true
unfolding equal
equal_self [] = refl
equal_self (x ∷ xs) = rw (eq→== x x refl) (equal_self xs)

verify_lem :
    (r : PreparedIntegrity) (text icv : List ℕ) → r.sign text ≡ some icv → verify r text icv ≡ true
unfolding verify
verify_lem r text icv e = rw (e, verify, eq→== (length icv) (length icv) refl) (equal_self icv)

accept_spi_lem :
    (q : Inbound) (seq : ℕ) (body : List ℕ)
    → q.spi < 2 ^ 32
    → accept_spi q (header_of q.spi seq ++ body) ≡ ok true
unfolding accept_spi
accept_spi_lem q seq body h =
    let d : List ℕ = header_of q.spi seq ++ body in
    rw (le→ltb (length d) 8 (omega arith), accept_spi, be_uint32-put {E = EspError} q.spi [] h)
      (ap ok (eq→== q.spi q.spi refl))

-- `decrypt`, from the answers of its steps.
pub decrypt_steps :
    (q : Inbound) (alg : EncryptionAlg) (seq icv_len : ℕ) (iv rest plain inner : List ℕ)
    → q.state_err ≡ none
    → q.alg ≡ some alg
    → q.spi < 2 ^ 32
    → 0 < seq
    → seq < 2 ^ 32
    → length iv ≡ alg.iv_len
    → icv_len ≤ length rest
    → icv_len_of alg q.integ_alg ≡ ok icv_len
    → open_body q alg icv_len (header_of q.spi seq ++ (iv ++ rest)) iv rest ≡ ok plain
    → strip_trailer plain ≡ ok inner
    → decrypt q (header_of q.spi seq ++ (iv ++ rest)) ≡ ok (seq, inner)
unfolding decrypt
decrypt_steps q alg seq icv_len iv rest plain inner ready ea hs pos fits li lr ei eo es =
    let body : List ℕ = iv ++ rest in
    let d : List ℕ = header_of q.spi seq ++ body in
    let lb = length-append iv rest in
    let e_iv : take (alg.iv_len - 0) body ≡ iv =
      take-append_length iv rest (alg.iv_len - 0) (omega (arith, li)) in
    let e_rest : drop alg.iv_len body ≡ rest =
      drop-append_length iv rest alg.iv_len (omega (arith, li)) in
    >>=-ok _ _ (ap check_state ready) (
      >>=-ok _ _ (accept_spi_lem q seq body hs) (
        reject-ok _ _ _ (le→ltb (length d) 8 (omega arith)) (
          >>=-ok _ _ (be_uint32-put {E = EspError} seq [] fits) (
            reject-ok _ _ _ (ne→== seq 0 (omega arith)) (
              >>=-ok _ _ (ap of_elem ea) (
                >>=-ok _ _ ei (
                  reject-ok _ _ _
                    (le→ltb (length body) (alg.iv_len + icv_len) (omega (arith, lb, li)))
                    (>>=-ok _ _
                      (slice_ok {E = EspError} body 0 alg.iv_len (omega arith)
                          (omega (arith, lb, li))
                        ∙ ap ok e_iv)
                      (>>=-ok _ _
                        (slice_from_ok {E = EspError} body alg.iv_len (omega (arith, lb, li))
                          ∙ ap ok e_rest)
                        (>>=-ok _ _ eo (>>=-ok _ _ es refl)))))))))))

pub open_body-seal :
    (p : Outbound) (q : Inbound) (l : Linked p q) (seq : ℕ) (iv plain sealed : List ℕ)
    → l.alg.aead ≡ true
    → l.sender.seal_to iv (header_of q.spi seq) plain ≡ some sealed
    → open_body q l.alg l.alg.icv_len (header_of q.spi seq ++ (iv ++ sealed)) iv sealed ≡ ok plain
unfolding open_body
open_body-seal p q l seq iv plain sealed a es =
    let header = header_of q.spi seq in
    rw (a, open_body)
      (>>=-ok _ _ (ap (λ o. prepared o decrypt_failed) l.q_enc) (
        ap (λ o. prepared o decrypt_failed)
          (l.pair.open-seal iv header header plain sealed (λ _. refl) es)))

pub open_body-sign :
    (p : Outbound) (q : Inbound) (l : Linked p q) (ia : Integrity) (si ri : PreparedIntegrity)
    (seq : ℕ) (iv plain sealed icv : List ℕ)
    → l.alg.aead ≡ false
    → q.integ ≡ some ri
    → IntegrityPair ia si ri
    → l.sender.seal_to iv (header_of q.spi seq) plain ≡ some sealed
    → si.sign (header_of q.spi seq ++ (iv ++ sealed)) ≡ some icv
    → open_body q l.alg ia.output_len
        (header_of q.spi seq ++ (iv ++ (sealed ++ icv)))
        iv
        (sealed ++ icv)
      ≡ ok plain
unfolding open_body
open_body-sign p q l ia si ri seq iv plain sealed icv a ei pair es eg =
    let header = header_of q.spi seq in
    let signed : List ℕ = header ++ (iv ++ sealed) in
    let rest : List ℕ = sealed ++ icv in
    let d : List ℕ = header ++ (iv ++ rest) in
    let lr = length-append sealed icv in
    let li : length icv ≡ ia.output_len = pair.length-sign signed icv eg in
    let n = length rest - ia.output_len in
    let n' = length d - ia.output_len in
    let same : d ≡ signed ++ icv = ap (λ t. header ++ t) (sym (append_assoc iv sealed icv)) in
    let ld = length-append iv rest in
    let ls = length-append iv sealed in
    let e_sealed : take (n - 0) rest ≡ sealed =
      take-append_length sealed icv (n - 0) (omega (arith, lr, li)) in
    let e_icv : drop n rest ≡ icv = drop-append_length sealed icv n (omega (arith, lr, li)) in
    let e_area : take (n' - 0) d ≡ signed =
      ap (take (n' - 0)) same
      ∙ take-append_length signed icv (n' - 0) (omega (arith, lr, li, ld, ls)) in
    let v : verify ri signed icv ≡ true = verify_lem ri signed icv (pair.sign_same signed ∙ eg) in
    rw (a, open_body)
      (>>=-ok _ _ (ap (λ o. prepared o integrity_required) ei) (
        >>=-ok _ _ (slice_ok {E = EspError} rest 0 n (omega arith) (omega arith) ∙ ap ok e_sealed) (
          >>=-ok _ _ (slice_from_ok {E = EspError} rest n (omega arith) ∙ ap ok e_icv) (
            >>=-ok _ _ (slice_ok {E = EspError} d 0 n' (omega arith) (omega arith) ∙ ap ok e_area) (
              reject-ok _ _ _ (ap not v) (
                >>=-ok _ _ (ap (λ o. prepared o decrypt_failed) l.q_enc) (
                  ap (λ o. prepared o decrypt_failed)
                    (l.pair.open-seal iv header [] plain sealed (λ t. absurd (tf (sym t ∙ a)))
                      es))))))))
