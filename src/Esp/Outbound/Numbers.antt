-- ===== src/Esp/Outbound/Numbers.antt =====
-- The sequence numbers of sealed datagrams.
use swan.Common.{
  ℕ, suc, ◌+◌, ◌%◌, ◌^◌, ◌≤◌, ◌<◌, ◌≡◌, ◌≢◌, ◌⊎◌, inl, inr, refl, ap, ◌∙◌, arith, Bool, true, false,
  not, ◌||◌, List, [], ◌∷◌, ◌++◌, ltb, ◌==◌, Bool-cases, Option, append_assoc,
}
use swan.Common.Outcome.{Outcome, ok, err, panic, Ensures, reject-Ensures}
use swan.Common.Bits.{byte_at}
use swan.Wire.Be.Laws.{put_uint32_ok, be_uint32-put}
use swan.Esp.Errors.{EspError, encrypt_failed, integrity_required, sign_failed}
use swan.Esp.Inbound.Ready.{prepared_bind}
use swan.Esp.Inbound.Delivery.{seq_field}
use swan.Esp.Suite.{EncryptionAlg}
use swan.Esp.Outbound.{
  Outbound, take_seq, check_flow_triggers, is_trigger, wire_len, seal_datagram, process,
}

-- The packets handed to a worker, each with the random IV that is drawn for it.
abbrev pub Input : Type 0
Input = Option (List ℕ) × List ℕ

-- The numbers that the sealed datagrams of a run carry.
abbrev pub number : Outcome EspError (List ℕ) → List ℕ → List ℕ
number (ok datagram) rest = seq_field datagram ∷ rest
number (err e) rest = rest
number panic rest = rest

unfoldable pub numbers : Outbound → List Input → List ℕ
numbers p [] = []
numbers p ((fill, packet) ∷ inputs) =
    let (p', sent, r) = process p fill packet in number r (numbers p' inputs)

-- How many rekey triggers a run sends.
abbrev pub one : Bool → ℕ
one true = 1
one false = 0

unfoldable pub triggers : Outbound → List Input → ℕ
triggers p [] = 0
triggers p ((fill, packet) ∷ inputs) =
    let (p', sent, r) = process p fill packet in one sent + triggers p' inputs

-- Numbers from `n` on, each above the one before, all below 2^32 and none of them 0.
unfoldable pub Ascending : ℕ → List ℕ → Type 0
Ascending n [] = Unit
Ascending n (x ∷ xs) = (n ≤ x) × (0 < x) × (x < 2 ^ 32) × Ascending (suc x) xs

abbrev pub header_of : ℕ → ℕ → List ℕ
header_of spi seq =
    byte_at spi 24
    ∷ byte_at spi 16
    ∷ byte_at spi 8
    ∷ byte_at spi 0
    ∷ byte_at seq 24
    ∷ byte_at seq 16
    ∷ byte_at seq 8
    ∷ byte_at seq 0
    ∷ []

-- Either the datagram is refused, or it is the header, the IV, the sealed text and the ICV.
abbrev Sealed : Outbound → ℕ → List ℕ → List ℕ → Type 0
Sealed p seq iv d = (tail : List ℕ) × (d ≡ header_of p.cfg.spi seq ++ (iv ++ tail))

pub seal_datagram-Ensures :
    (p : Outbound) (enc : EncryptionAlg) (seq : ℕ) (iv plain : List ℕ)
    → Ensures (Sealed p seq iv) (seal_datagram p enc seq iv plain)
unfolding seal_datagram
seal_datagram-Ensures p enc seq iv plain =
    let Q = Sealed p seq iv in
    let spi = p.cfg.spi in
    reject-Ensures Q (ltb 65535 (wire_len p enc plain)) _ _ λ _.
      rw
        (
          put_uint32_ok {E = EspError} (0 ∷ 0 ∷ 0 ∷ 0 ∷ 0 ∷ 0 ∷ 0 ∷ 0 ∷ []) 0 spi (omega arith),
          put_uint32_ok {E = EspError}
              (byte_at spi 24 ∷ byte_at spi 16 ∷ byte_at spi 8 ∷ byte_at spi 0 ∷ 0 ∷ 0 ∷ 0 ∷ 0 ∷ [])
              4 seq (omega arith),
        )
        (prepared_bind Q p.enc encrypt_failed _ λ state _.
          prepared_bind Q (state.seal_to iv (header_of spi seq) plain) encrypt_failed _ λ sealed _.
            elim (Bool-cases enc.aead) [
              | inl e ↦ rw (e, seal_datagram) (sealed, refl)
              | inr e ↦
                  rw (e, seal_datagram)
                    (prepared_bind Q p.integ integrity_required _ λ integ _.
                      prepared_bind Q (integ.sign (header_of spi seq ++ (iv ++ sealed))) sign_failed
                        _
                        λ icv _. (
                          sealed ++ icv,
                          ap (λ t. header_of spi seq ++ t) (append_assoc iv sealed icv),
                        ))
            ])

seq_field_lem :
    (p : Outbound) (seq : ℕ) (iv d : List ℕ) → seq < 2 ^ 32 → Sealed p seq iv d → seq_field d ≡ seq
seq_field_lem p seq iv d h (tail, e) = rw (e, be_uint32-put {E = EspError} seq [] h) refl

-- The counters of a worker whose first number is `n`.
abbrev pub Counts : ℕ → Outbound → Type 0
Counts n p = (p.seq ≡ 0) ⊎ ((n ≤ p.seq) × (0 < p.seq) × (p.seq < 2 ^ 32))

check_flow_triggers-seq : (p : Outbound) → (check_flow_triggers p).0.seq ≡ p.seq
unfolding check_flow_triggers
check_flow_triggers-seq p = elim (Bool-cases (p.warned || not p.cfg.has_flow_warn)) [
  | inl e ↦ rw e refl
  | inr e ↦ elim (Bool-cases (is_trigger p)) [ inl t ↦ rw (e, t) refl | inr t ↦ rw (e, t) refl ]
]

pub take_seq-Counts : (p : Outbound) (n : ℕ) → p.seq < 2 ^ 32 → Counts (suc p.seq) (take_seq p n).0
unfolding take_seq
take_seq-Counts p n h =
    let q : Outbound = record p {
      seq = (p.seq + 1) % 2 ^ 32;
      packets = (p.packets + 1) % 2 ^ 64;
      bytes_out = (p.bytes_out + n) % 2 ^ 64;
    } in
    let e : (take_seq p n).0.seq ≡ (p.seq + 1) % 2 ^ 32 = check_flow_triggers-seq q in
    elim (Bool-cases (p.seq == 4294967295)) [
      | inl last ↦ inl (e ∙ ground (arith, last))
      | inr more ↦
          let not_last : p.seq ≢ 4294967295 = ground (arith, more) in
          inr (omega (arith, e), omega (arith, e), omega (arith, e))
    ]

Ascending-weaken : (m n : ℕ) (xs : List ℕ) → m ≤ n → Ascending n xs → Ascending m xs
unfolding Ascending
Ascending-weaken m n [] h a = tt
Ascending-weaken m n (x ∷ xs) h (a, b, c, d) = (omega arith, b, c, d)

-- The number of the datagram, if there is one, in front of the numbers behind it.
pub number-Ascending :
    (k : ℕ) (p : Outbound) (seq : ℕ) (iv : List ℕ) (out : Outcome EspError (List ℕ)) (rest : List ℕ)
    → k ≤ seq
    → 0 < seq
    → seq < 2 ^ 32
    → Ensures (Sealed p seq iv) out
    → Ascending (suc seq) rest
    → Ascending k (number out rest)
unfolding Ascending
number-Ascending k p seq iv (err e) rest h pos fits s a =
    Ascending-weaken k (suc seq) rest (omega arith) a
number-Ascending k p seq iv panic rest h pos fits s a = absurd s
number-Ascending k p seq iv (ok d) rest h pos fits s a =
    rw (seq_field_lem p seq iv d fits s) (h, pos, fits, a)
