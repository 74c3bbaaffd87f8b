-- ===== src/Transport/Routing.antt =====
-- The classification of NAT-T payloads and the ESP data path: where `Classify` of
-- transport/frame.go sends the datagrams of esp/outflow.go.
use mathlib.Core.Path.{subst}
use swan.Common.{
  ℕ, ◌^◌, ◌≤◌, ◌<◌, ◌≡◌, inl, inr, refl, sym, ap, ◌∙◌, arith, true, List, [], ◌∷◌, length, take,
  some, Bool-cases,
}
use swan.Common.Outcome.{Outcome, ok, err, panic, Ensures, Ensures-mono}
use swan.Wire.Be.{be_uint32}
use swan.Esp.Errors.{EspError}
use swan.Esp.Inbound.{Inbound, decrypt}
use swan.Esp.Inbound.Ready.{IsReady}
use swan.Esp.Inbound.Safety.{DecryptOf, decrypt-Ensures}
use swan.Esp.Outbound.{Outbound, process}
use swan.Esp.Link.{Linked}
use swan.Esp.Link.Send.{process-decrypt}
use swan.Transport.Frame.{kind_esp, classify, zeros}

abbrev result_of : Outcome EspError ℕ → ℕ
result_of (ok v) = v
result_of (err e) = 0
result_of panic = 0

zero_word :
    (x y z w : ℕ)
    → zeros (x ∷ y ∷ z ∷ w ∷ []) ≡ true
    → be_uint32 {E = EspError} (x ∷ y ∷ z ∷ w ∷ []) ≡ ok 0
unfolding be_uint32 zeros
zero_word x y z w h =
    let ex : x ≡ 0 = ground (arith, h) in
    let ey : y ≡ 0 = ground (arith, h) in
    let ez : z ≡ 0 = ground (arith, h) in
    let ew : w ≡ 0 = ground (arith, h) in rw (ex, ey, ez, ew) refl

-- A datagram whose first word is not 0 goes to ESP.
classify_word :
    (d : List ℕ) (spi : ℕ)
    → be_uint32 {E = EspError} (take 4 d) ≡ ok spi
    → 1 ≤ spi
    → classify d ≡ kind_esp
unfolding classify zeros be_uint32
classify_word [] spi h pos = cc
classify_word (x ∷ []) spi h pos = cc
classify_word (x ∷ y ∷ []) spi h pos = cc
classify_word (x ∷ y ∷ z ∷ []) spi h pos = cc
classify_word (x ∷ y ∷ z ∷ w ∷ r) spi h pos = elim (Bool-cases (zeros (x ∷ y ∷ z ∷ w ∷ []))) [
  | inr other ↦ ground (arith, other)
  | inl z0 ↦ absurd (omega (arith, pos, ap result_of (sym h ∙ zero_word x y z w z0)))
]

-- What a ready worker with an SPI other than 0 decrypts was classified as ESP.
decrypt-classify :
    (q : Inbound) (d inner : List ℕ) (n : ℕ)
    → IsReady q
    → 1 ≤ q.spi
    → decrypt q d ≡ ok (n, inner)
    → classify d ≡ kind_esp
decrypt-classify q d inner n ready pos e =
    let k : DecryptOf q d (n, inner) =
      subst (Ensures (DecryptOf q d)) e (decrypt-Ensures q d ready) in
    classify_word d q.spi k.0 pos

-- Every datagram that the sender of two linked ends with an SPI other than 0 makes is classified as
-- ESP, never as IKE or as a keepalive.
pub process-classify :
    (p : Outbound) (q : Inbound) (l : Linked p q) (iv packet : List ℕ)
    → p.seq < 2 ^ 32
    → length iv ≡ l.alg.iv_len
    → 1 ≤ p.cfg.spi
    → Ensures (λ (d : List ℕ). classify d ≡ kind_esp) (process p (some iv) packet).2
process-classify p q l iv packet fits li pos =
    Ensures-mono (λ (d : List ℕ). decrypt q d ≡ ok (p.seq, packet))
      (λ (d : List ℕ). classify d ≡ kind_esp) (process p (some iv) packet).2
      (process-decrypt p q l iv packet fits li)
      λ d e.
        decrypt-classify q d packet p.seq (inr (l.alg, l.q_ready, l.q_alg))
          (omega (arith, l.same_spi, pos)) e
