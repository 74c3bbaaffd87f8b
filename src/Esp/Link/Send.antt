-- ===== src/Esp/Link/Send.antt =====
-- The sending end, and the two ends together.
use mathlib.Core.Path.{subst}
use swan.Common.{
  ℕ, ◌+◌, ◌%◌, ◌^◌, ◌/◌, ◌≤◌, ◌<◌, ◌≡◌, ◌⊎◌, inl, inr, refl, sym, ap, ◌∙◌, arith, not, ◌||◌, List,
  [], ◌∷◌, ◌++◌, length, ltb, ◌==◌, if◌then◌else◌, Bool-cases, Option, some, none, append_assoc,
  get_or, length-append,
}
use swan.Common.Outcome.{
  Outcome, ok, err, panic, ◌>>=◌, ◌>>◌, Ensures, Ensures-mono, >>=-Ensures, reject-Ensures,
  index_ok,
}
use swan.Common.Bits.{byte_at}
use swan.Wire.Be.Laws.{put_uint32_ok}
use swan.Esp.Errors.{EspError, encrypt_failed, sign_failed, replayed}
use swan.Esp.Suite.{EncryptionAlg}
use swan.Esp.Inbound.{
  Inbound, check_state, prepared, icv_len_of, strip_trailer, decrypt, encryption_of,
}
use swan.Esp.Inbound.{process as receive}
use swan.Esp.Inbound.Ready.{prepared_bind}
use swan.Esp.Inbound.Delivery.{serve, process-serve}
use swan.Esp.Replay.Moves.{allowed, Tracks}
use swan.Esp.Outbound.{
  Outbound, OutboundConfig, process, Begun, ip_next_header, begin, take_seq, check_flow_triggers,
  is_trigger, seal_datagram, wire_len, conclude,
}
use swan.Esp.Outbound.Numbers.{header_of}
use swan.Esp.Link.{Linked}
use swan.Esp.Link.Receive.{decrypt_steps, open_body-seal, open_body-sign}
use swan.Esp.Trailer.{IsBlock, pad_plain-strip_trailer}

abbrev Opens : EncryptionAlg → List ℕ → List ℕ → EncryptionAlg × List ℕ × List ℕ → Type 0
Opens alg iv packet (enc, plain, iv') = (enc ≡ alg) × (iv' ≡ iv) × (strip_trailer plain ≡ ok packet)

ip_next_header-Ensures :
    (first : ℕ) → Ensures (λ (n : ℕ). (n ≡ 4) ⊎ (n ≡ 41)) (ip_next_header first)
unfolding ip_next_header
ip_next_header-Ensures first = elim (Bool-cases (first / 16 == 4)) [
  | inl four ↦ rw four (inl refl)
  | inr other ↦ elim (Bool-cases (first / 16 == 6)) [
    | inl six ↦ rw (other, six) (inr refl)
    | inr neither ↦ rw (other, neither) tt
  ]
]

check_state-Ensures {ℓ} :
    {B : Type ℓ} (Q : B → Type 0) (k : Outcome EspError B) (o : Option EspError)
    → Ensures Q k
    → Ensures Q (check_state o >> k)
check_state-Ensures Q k none h = h
check_state-Ensures Q k (some e) h = tt

begin-Ensures :
    (p : Outbound) (alg : EncryptionAlg) (iv packet : List ℕ)
    → encryption_of p.cfg.selection ≡ some alg
    → IsBlock alg
    → Ensures (Opens alg iv packet) (begin p (some iv) packet)
unfolding begin
begin-Ensures p alg iv packet ea block =
    let Q = Opens alg iv packet in
    reject-Ensures Q p.wrapped _ _ λ _. check_state-Ensures Q _ p.state_err (
      reject-Ensures Q (length packet == 0) _ _ λ nz.
        let some' : 1 ≤ length packet = ground (arith, nz) in
        rw (index_ok {E = EspError} packet 0 0 some', ea)
          (>>=-Ensures (λ (n : ℕ). (n ≡ 4) ⊎ (n ≡ 41)) Q (ip_next_header (get_or packet 0 0)) _
            (ip_next_header-Ensures (get_or packet 0 0))
            λ nh v.
              let (plain, e, s, _) = pad_plain-strip_trailer alg packet nh block some' v in
              rw e (refl, refl, s)))

some_bind {ℓ κ} :
    {A : Type ℓ} {B : Type κ} (Q : B → Type 0) (f : A → Outcome EspError B) (e : EspError)
    {o : Option A} {a : A}
    → o ≡ some a
    → Ensures Q (f a)
    → Ensures Q (prepared o e >>= f)
some_bind Q f e h q = rw h q

-- What is sealed under a number decrypts, at the other end, to the number and the packet.
seal_datagram-decrypt :
    (p : Outbound) (q : Inbound) (l : Linked p q) (seq : ℕ) (iv plain packet : List ℕ)
    → 0 < seq
    → seq < 2 ^ 32
    → length iv ≡ l.alg.iv_len
    → strip_trailer plain ≡ ok packet
    → Ensures (λ (d : List ℕ). decrypt q d ≡ ok (seq, packet)) (seal_datagram p l.alg seq iv plain)
unfolding seal_datagram icv_len_of
seal_datagram-decrypt p q l seq iv plain packet pos fits li strip =
    let Q = λ (d : List ℕ). decrypt q d ≡ ok (seq, packet) in
    let spi = q.spi in
    let header = header_of spi seq in
    let alg = l.alg in
    reject-Ensures Q (ltb 65535 (wire_len p alg plain)) _ _ λ _.
      rw
        (
          l.same_spi,
          put_uint32_ok {E = EspError} (0 ∷ 0 ∷ 0 ∷ 0 ∷ 0 ∷ 0 ∷ 0 ∷ 0 ∷ []) 0 spi (omega arith),
          put_uint32_ok {E = EspError}
              (byte_at spi 24 ∷ byte_at spi 16 ∷ byte_at spi 8 ∷ byte_at spi 0 ∷ 0 ∷ 0 ∷ 0 ∷ 0 ∷ [])
              4 seq (omega arith),
        )
        (some_bind Q _ _ l.p_enc (
          prepared_bind Q (l.sender.seal_to iv header plain) encrypt_failed _ λ sealed es.
            elim l.auth [
              | inl a ↦
                  rw (a, seal_datagram)
                    (decrypt_steps q alg seq alg.icv_len iv sealed plain packet l.q_ready l.q_alg
                      l.spi_fits pos fits li
                      (omega (arith, l.pair.length-seal iv header plain sealed es))
                      (rw (a, icv_len_of) refl) (open_body-seal p q l seq iv plain sealed a es)
                      strip)
              | inr (a, none', (ia, si, ri, eia, esi, eri, pair)) ↦
                  rw (a, seal_datagram)
                    (some_bind Q _ _ esi (
                      prepared_bind Q (si.sign (header ++ (iv ++ sealed))) sign_failed _ λ icv eg.
                        let rest : List ℕ = sealed ++ icv in
                        let signed : List ℕ = header ++ (iv ++ sealed) in
                        let long : ia.output_len ≤ length rest =
                          omega (arith, length-append sealed icv, pair.length-sign signed icv eg) in
                        subst Q (ap (λ t. header ++ t) (sym (append_assoc iv sealed icv))) (
                          decrypt_steps q alg seq ia.output_len iv rest plain packet l.q_ready
                            l.q_alg l.spi_fits pos fits li long (rw (a, icv_len_of, eia) refl)
                            (open_body-sign p q l ia si ri seq iv plain sealed icv a eri pair es eg)
                            strip)))
            ]))

-- A state that differs in its counters alone is linked alike.
Linked-counters :
    (p p' : Outbound) (q : Inbound)
    → p'.cfg ≡ p.cfg
    → p'.enc ≡ p.enc
    → p'.integ ≡ p.integ
    → (l : Linked p q) → (l' : Linked p' q) × (l'.alg ≡ l.alg)
Linked-counters p p' q ec ee ei l = (
  record {
    alg = l.alg;
    sender = l.sender;
    receiver = l.receiver;
    block = l.block;
    p_alg = ap (λ (c : OutboundConfig). encryption_of c.selection) ec ∙ l.p_alg;
    q_alg = l.q_alg;
    p_enc = ee ∙ l.p_enc;
    q_enc = l.q_enc;
    pair = l.pair;
    q_ready = l.q_ready;
    same_spi = ap (λ (c : OutboundConfig). c.spi) ec ∙ l.same_spi;
    spi_fits = l.spi_fits;
    auth = elim l.auth [
      | inl a ↦ inl a
      | inr (a, z, (ia, si, ri, eia, esi, eri, pair)) ↦
          inr (a, z, (ia, si, ri, eia, ei ∙ esi, eri, pair))
    ];
  },
  refl,
)

check_keeps :
    (p : Outbound)
    → ((check_flow_triggers p).0.cfg ≡ p.cfg)
      × ((check_flow_triggers p).0.enc ≡ p.enc)
      × ((check_flow_triggers p).0.integ ≡ p.integ)
unfolding check_flow_triggers
check_keeps p = elim (Bool-cases (p.warned || not p.cfg.has_flow_warn)) [
  | inl e ↦ rw e (refl, refl, refl)
  | inr e ↦ elim (Bool-cases (is_trigger p)) [
    | inl t ↦ rw (e, t) (refl, refl, refl)
    | inr t ↦ rw (e, t) (refl, refl, refl)
  ]
]

take_seq_keeps :
    (p : Outbound) (n : ℕ)
    → ((take_seq p n).0.cfg ≡ p.cfg)
      × ((take_seq p n).0.enc ≡ p.enc)
      × ((take_seq p n).0.integ ≡ p.integ)
unfolding take_seq
take_seq_keeps p n = check_keeps (record p {
  seq = (p.seq + 1) % 2 ^ 32;
  packets = (p.packets + 1) % 2 ^ 64;
  bytes_out = (p.bytes_out + n) % 2 ^ 64;
})

conclude-decrypt :
    (p : Outbound) (q : Inbound) (l : Linked p q) (n : ℕ) (iv packet : List ℕ)
    (m : Outcome EspError Begun)
    → p.seq < 2 ^ 32
    → length iv ≡ l.alg.iv_len
    → Ensures (Opens l.alg iv packet) m
    → Ensures (λ (d : List ℕ). decrypt q d ≡ ok (p.seq, packet)) (conclude p n m).2
unfolding conclude
conclude-decrypt p q l n iv packet (err e) fits li o = tt
conclude-decrypt p q l n iv packet panic fits li o = o
conclude-decrypt p q l n iv packet (ok (enc, plain, iv')) fits li (e_enc, e_iv, strip) =
    let Q = λ (d : List ℕ). decrypt q d ≡ ok (p.seq, packet) in
    let p' : Outbound = (take_seq p n).0 in
    let (kc, ke, ki) = take_seq_keeps p n in
    let (l', same) = Linked-counters p p' q kc ke ki l in
    elim (Bool-cases (p.seq == 0)) [
      | inl z ↦ rw z tt
      | inr nz ↦ rw nz (
          subst (λ a. Ensures Q (seal_datagram p' a p.seq iv' plain)) (same ∙ sym e_enc)
            (subst (λ v. Ensures Q (seal_datagram p' l'.alg p.seq v plain)) (sym e_iv)
              (seal_datagram-decrypt p' q l' p.seq iv plain packet (ground (arith, nz)) fits
                (li ∙ ap (λ (a : EncryptionAlg). a.iv_len) (sym same)) strip)))
    ]

-- For two linked ends the sender never panics, and every datagram it sends for a packet decrypts at
-- the receiver to its sequence number and to the packet itself.
pub process-decrypt :
    (p : Outbound) (q : Inbound) (l : Linked p q) (iv packet : List ℕ)
    → p.seq < 2 ^ 32
    → length iv ≡ l.alg.iv_len
    → Ensures (λ (d : List ℕ). decrypt q d ≡ ok (p.seq, packet)) (process p (some iv) packet).2
unfolding process
process-decrypt p q l iv packet fits li =
    conclude-decrypt p q l (length packet) iv packet (begin p (some iv) packet) fits li
      (begin-Ensures p l.alg iv packet l.p_alg l.block)

-- For two linked ends: a datagram that is sent is delivered as the packet it was made of, when the
-- receiver, having delivered `seen`, allows its number, and is refused as a replay otherwise.
pub process-process :
    (p : Outbound) (q : Inbound) (l : Linked p q) (iv packet seen : List ℕ)
    → p.seq < 2 ^ 32
    → length iv ≡ l.alg.iv_len
    → Tracks q.window seen
    → Ensures
        (λ (d : List ℕ). (receive q d).1 ≡ (if allowed p.seq seen then ok packet else err replayed))
        (process p (some iv) packet).2
process-process p q l iv packet seen fits li t =
    Ensures-mono (λ (d : List ℕ). decrypt q d ≡ ok (p.seq, packet))
      (λ (d : List ℕ). (receive q d).1 ≡ (if allowed p.seq seen then ok packet else err replayed))
      (process p (some iv) packet).2 (process-decrypt p q l iv packet fits li)
      λ d e. (process-serve q seen d t).0 ∙ ap (λ m. (serve seen m).1) e
