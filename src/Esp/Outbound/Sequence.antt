-- ===== src/Esp/Outbound/Sequence.antt =====
-- The outbound worker's sequence numbers and its rekey trigger.
use mathlib.Core.Path.{subst}
use swan.Common.{
  ℕ, suc, ◌+◌, ◌%◌, ◌^◌, ◌≤◌, ◌<◌, ◌≡◌, inl, inr, refl, sym, ap, arith, true, false, not, ◌||◌,
  List, [], ◌∷◌, length, ◌==◌, Bool-cases, ne→==, eq→==,
}
use swan.Common.Outcome.{Outcome, ok, err, panic, Ensures-ok}
use swan.Esp.Errors.{EspError, seq_wrapped}
use swan.Esp.Inbound.{Keyed}
use swan.Esp.Suite.{EncryptionAlg, Crypto}
use swan.Esp.Outbound.{
  Outbound, OutboundConfig, begin, take_seq, check_flow_triggers, is_trigger, seal_datagram,
  process, conclude, Begun, Step, bind_outbound, new_outbound, prepare_outbound,
}
use swan.Esp.Outbound.Numbers.{
  Input, number, numbers, one, triggers, Ascending, seal_datagram-Ensures, Counts, take_seq-Counts,
  number-Ascending,
}

abbrev IsNew : Outbound → Type 0
IsNew p = (p.seq ≡ 1) × (p.warned ≡ false)

bind_outbound-IsNew :
    (cfg : OutboundConfig) (m : Outcome EspError Keyed) (p : Outbound)
    → bind_outbound cfg m ≡ ok p
    → IsNew p
bind_outbound-IsNew cfg (ok (enc, integ)) p e = Ensures-ok IsNew _ p e (refl, refl)
bind_outbound-IsNew cfg (err x) p e = Ensures-ok IsNew _ p e (refl, refl)
bind_outbound-IsNew cfg panic p e = cc

new_outbound-IsNew :
    (crypto : Crypto) (cfg : OutboundConfig) (p : Outbound)
    → new_outbound crypto cfg ≡ ok p
    → IsNew p
unfolding new_outbound
new_outbound-IsNew crypto cfg p e = bind_outbound-IsNew cfg (prepare_outbound crypto cfg) p e

conclude_wrapped :
    (p : Outbound) (n : ℕ) (b : Begun)
    → p.seq ≡ 0
    → conclude p n (ok b) ≡ (record p { wrapped = true }, false, err seq_wrapped)
unfolding conclude
conclude_wrapped p n (enc, plain, iv) z = rw (eq→== p.seq 0 z) refl

conclude_sealed :
    (p : Outbound) (n : ℕ) (enc : EncryptionAlg) (plain iv : List ℕ)
    → 0 < p.seq
    → conclude p n (ok (enc, plain, iv))
      ≡ ((take_seq p n).0, (take_seq p n).1, seal_datagram (take_seq p n).0 enc p.seq iv plain)
unfolding conclude
conclude_sealed p n enc plain iv h = rw (ne→== p.seq 0 (omega arith)) refl

conclude-Ascending :
    (k : ℕ) (p : Outbound) (n : ℕ) (m : Outcome EspError Begun) (rest : List ℕ)
    → Counts k p
    → ((k' : ℕ) → Counts k' (conclude p n m).0 → Ascending k' rest)
    → Ascending k (number (conclude p n m).2 rest)
unfolding conclude
conclude-Ascending k p n (err e) rest h next = next k h
conclude-Ascending k p n panic rest h next = next k h
conclude-Ascending k p n (ok b) rest (inl z) next =
    let e = conclude_wrapped p n b z in
    subst (λ (r : Step). Ascending k (number r.2 rest)) (sym e)
      (next k (subst (λ (r : Step). Counts k r.0) (sym e) (inl z)))
conclude-Ascending k p n (ok (enc, plain, iv)) rest (inr (a, b, c)) next =
    let e = conclude_sealed p n enc plain iv b in
    let p' : Outbound = (take_seq p n).0 in
    subst (λ (r : Step). Ascending k (number r.2 rest)) (sym e)
      (number-Ascending k p' p.seq iv (seal_datagram p' enc p.seq iv plain) rest a b c
        (seal_datagram-Ensures p' enc p.seq iv plain)
        (next (suc p.seq)
          (subst (λ (r : Step). Counts (suc p.seq) r.0) (sym e) (take_seq-Counts p n c))))

numbers_lem :
    (k : ℕ) (p : Outbound) (inputs : List Input) → Counts k p → Ascending k (numbers p inputs)
unfolding numbers Ascending process
numbers_lem k p [] h = tt
numbers_lem k p ((fill, packet) ∷ inputs) h =
    let m = begin p fill packet in
    let p' : Outbound = (conclude p (length packet) m).0 in
    conclude-Ascending k p (length packet) m (numbers p' inputs) h
      λ k' h'. numbers_lem k' p' inputs h'

-- The datagrams of a worker carry ever larger sequence numbers from 1 on, all below 2^32 and none
-- of them 0: none is used twice and the counter never wraps, whatever packets it is handed and
-- whichever of them fail.
pub numbers-Ascending :
    (crypto : Crypto) (cfg : OutboundConfig) (p : Outbound) (inputs : List Input)
    → new_outbound crypto cfg ≡ ok p
    → Ascending 1 (numbers p inputs)
numbers-Ascending crypto cfg p inputs e =
    let (one', _) = new_outbound-IsNew crypto cfg p e in
    numbers_lem 1 p inputs (inr (omega arith, omega arith, omega arith))

check_flow_triggers-one :
    (p : Outbound)
    → one (check_flow_triggers p).1 + one p.warned ≡ one (check_flow_triggers p).0.warned
unfolding check_flow_triggers
check_flow_triggers-one p = elim (Bool-cases (p.warned || not p.cfg.has_flow_warn)) [
  | inl e ↦ rw e (omega arith)
  | inr e ↦
      let w : p.warned ≡ false = ground (arith, e) in
      elim (Bool-cases (is_trigger p)) [
        | inl t ↦ rw (e, t) (omega (arith, ap one w))
        | inr t ↦ rw (e, t) (omega arith)
      ]
]

take_seq-one :
    (p : Outbound) (n : ℕ) → one (take_seq p n).1 + one p.warned ≡ one (take_seq p n).0.warned
unfolding take_seq
take_seq-one p n = check_flow_triggers-one (record p {
  seq = (p.seq + 1) % 2 ^ 32;
  packets = (p.packets + 1) % 2 ^ 64;
  bytes_out = (p.bytes_out + n) % 2 ^ 64;
})

conclude-one :
    (p : Outbound) (n : ℕ) (m : Outcome EspError Begun)
    → one (conclude p n m).1 + one p.warned ≡ one (conclude p n m).0.warned
unfolding conclude
conclude-one p n (err e) = omega arith
conclude-one p n panic = omega arith
conclude-one p n (ok (enc, plain, iv)) = elim (Bool-cases (p.seq == 0)) [
  | inl z ↦ rw z (omega arith)
  | inr nz ↦ rw nz (take_seq-one p n)
]

triggers_lem : (p : Outbound) (inputs : List Input) → triggers p inputs + one p.warned ≤ 1
unfolding triggers process
triggers_lem p [] = elim (Bool-cases p.warned) [
  | inl w ↦ omega (arith, ap one w)
  | inr w ↦ omega (arith, ap one w)
]
triggers_lem p ((fill, packet) ∷ inputs) =
    let m = begin p fill packet in
    let p' : Outbound = (conclude p (length packet) m).0 in
    omega (arith, conclude-one p (length packet) m, triggers_lem p' inputs)

-- A worker sends the rekey trigger at most once over its life.
pub triggers_once : (p : Outbound) (inputs : List Input) → triggers p inputs ≤ 1
triggers_once p inputs = omega (arith, triggers_lem p inputs)
