-- ===== src/Wire/Message/Walk.antt =====
-- The payload chain as a relation on the input, and `ParsePayloads` as its decision procedure.
use swan.Common.{
  ℕ, zero, suc, ◌-◌, ◌<◌, ◌≡◌, ◌≢◌, ◌⊎◌, ◌↔◌, refl, sym, ap, ◌∙◌, arith, Bool, true, false, not,
  List, [], ◌∷◌, ◌++◌, length, drop, ◌==◌, Bool-cases, inl, inr, length-drop, Option, none, some,
  eq→==, ne→==, append_assoc, append-nil, All, IsByte,
}
use swan.Common.Outcome.{
  ok, panic, Ensures, >>=-Ensures, reject-Ensures, Ensures-mono, slice_from_ok, Ensures-ok,
  Ensures-ne-panic,
}
use swan.Wire.Errors.{WireError}
use swan.Wire.Header.{SkfHeader, parse_header, parse_skf_header}
use swan.Wire.Header.Laws.{HeaderOf, parse_header-Ensures}
use swan.Wire.Message.{
  Payload, EncryptedPayload, Message, Chain, is_encrypted, read_payload, read_envelope, parse_chain,
  parse_payloads, parse_message,
}
use swan.Wire.Message.Safety.{
  PayloadAt, FragmentAt, read_payload-Ensures, read_payload_complete, parse_skf_header-Ensures,
  parse_skf_header_complete,
}

-- The envelope that an SK or SKF payload opens.
abbrev pub EnvelopeOf : Payload → EncryptedPayload → Type 0
EnvelopeOf p e =
    (e.type ≡ p.type)
    × (e.inner_next ≡ p.next)
    × (((p.type ≢ 53) × (e.frag ≡ none) × (e.body ≡ p.body))
        ⊎ ((p.type ≡ 53)
            × ((fr : SkfHeader) × FragmentAt p.body fr
                × (e.frag ≡ some fr)
                × (e.body ≡ drop 4 p.body))))

-- `Walks stop rest next ps e`: the chain in `rest`, whose first payload has type `next`, holds the
-- cleartext payloads `ps`, and ends in the envelope `e` or in a payload with no successor.
-- Nothing is left over, and an envelope is allowed only if `stop` is true.
pub data Walks (stop : Bool) : List ℕ → ℕ → List Payload → Option EncryptedPayload → Type 0 where
  finished : {rest : List ℕ} {next : ℕ} → next ≡ 0 → rest ≡ [] → Walks stop rest next [] none
  sealed :
      {rest : List ℕ} {next : ℕ} (p : Payload) (len : ℕ) {e : EncryptedPayload}
      → next ≢ 0
      → is_encrypted next ≡ true
      → stop ≡ true
      → PayloadAt rest next (p, len)
      → len ≡ length rest
      → EnvelopeOf p e
      → Walks stop rest next [] (some e)
  plain :
      {rest : List ℕ} {next : ℕ} (p : Payload) (len : ℕ) {ps : List Payload}
      {e : Option EncryptedPayload}
      → next ≢ 0
      → is_encrypted next ≡ false
      → PayloadAt rest next (p, len)
      → Walks stop (drop len rest) p.next ps e
      → Walks stop rest next (p ∷ ps) e

read_envelope-Ensures :
    (p : Payload) (trailing : ℕ) (stop : Bool)
    → Ensures (λ e. EnvelopeOf p e × (stop ≡ true) × (trailing ≡ 0)) (read_envelope p trailing stop)
unfolding read_envelope
read_envelope-Ensures p trailing stop =
    let Q = λ (e : EncryptedPayload). EnvelopeOf p e × (stop ≡ true) × (trailing ≡ 0) in
    reject-Ensures Q (not stop) _ _ λ s. reject-Ensures Q (not (trailing == 0)) _ _ λ z.
      elim (Bool-cases (p.type == 53)) [
        | inl y ↦ rw y (
            >>=-Ensures (λ (r : SkfHeader × List ℕ). FragmentAt p.body r.0 × (r.1 ≡ drop 4 p.body))
              Q (parse_skf_header p.body) _ (parse_skf_header-Ensures p.body)
              λ r k. (
                (refl, refl, inr (ground (arith, y), (r.0, k.0, refl, k.1))),
                ground arith,
                ground arith,
              ))
        | inr n ↦
            rw n ((refl, refl, inl (ground (arith, n), refl, refl)), ground arith, ground arith)
      ]

read_envelope_complete :
    (p : Payload) (e : EncryptedPayload) → EnvelopeOf p e → read_envelope p 0 true ≡ ok e
unfolding read_envelope
read_envelope_complete p e (t, n, inl (other, f, b)) =
    rw (ne→== p.type 53 other)
      (λ i. ok (record { type = sym t i; inner_next = sym n i; frag = sym f i; body = sym b i }))
read_envelope_complete p e (t, n, inr (skf, (fr, at, f, b))) =
    rw (eq→== p.type 53 skf, parse_skf_header_complete p.body fr at)
      (λ i. ok (record { type = sym t i; inner_next = sym n i; frag = sym f i; body = sym b i }))

-- The loop finds a walk, with enough fuel for one round more than there are bytes.
parse_chain-Ensures :
    (fuel : ℕ) (rest : List ℕ) (next : ℕ) (stop : Bool) (acc : List Payload)
    → length rest < fuel
    → Ensures
        (λ (c : Chain). (ps : List Payload) × (c.0 ≡ acc ++ ps) × Walks stop rest next ps c.1)
        (parse_chain fuel rest next stop acc)
unfolding parse_chain
parse_chain-Ensures zero rest next stop acc h = absurd (omega arith)
parse_chain-Ensures (suc fuel) rest next stop acc h =
    let Q = λ (c : Chain). (ps : List Payload) × (c.0 ≡ acc ++ ps) × Walks stop rest next ps c.1 in
    elim (Bool-cases (next == 0)) [
      | inl z ↦
          rw (z, parse_chain)
            (reject-Ensures Q (not (length rest == 0)) _ _
              λ e. ([], sym (append-nil acc), finished (ground (arith, z)) (ground (arith, e))))
      | inr nz ↦
          rw (nz, parse_chain)
            (>>=-Ensures (PayloadAt rest next) Q (read_payload rest next) _
              (read_payload-Ensures rest next)
              λ (p, len) at. elim (Bool-cases (is_encrypted next)) [
                | inl enc ↦ rw enc (
                    >>=-Ensures (λ e. EnvelopeOf p e × (stop ≡ true) × (length rest - len ≡ 0)) Q
                      (read_envelope p (length rest - len) stop) _
                      (read_envelope-Ensures p (length rest - len) stop)
                      λ e k. (
                        [],
                        sym (append-nil acc),
                        sealed p len (ground (arith, nz)) enc k.1 at (omega arith) k.0,
                      ))
                | inr open' ↦
                    rw (open', slice_from_ok {E = WireError} rest len at.2)
                      (Ensures-mono
                        (λ (c : Chain).
                          (ps : List Payload) × (c.0 ≡ (acc ++ (p ∷ [])) ++ ps)
                          × Walks stop (drop len rest) p.next ps c.1)
                        Q (parse_chain fuel (drop len rest) p.next stop (acc ++ (p ∷ [])))
                        (parse_chain-Ensures fuel (drop len rest) p.next stop (acc ++ (p ∷ []))
                          (omega (arith, length-drop len rest)))
                        λ c (ps, e, w). (
                          p ∷ ps,
                          e ∙ append_assoc acc (p ∷ []) ps,
                          plain p len (ground (arith, nz)) open' at w,
                        ))
              ])
    ]

parse_chain_complete :
    (fuel : ℕ) (rest : List ℕ) (next : ℕ) (stop : Bool) (acc ps : List Payload)
    (e : Option EncryptedPayload)
    → length rest < fuel
    → Walks stop rest next ps e
    → parse_chain fuel rest next stop acc ≡ ok (acc ++ ps, e)
unfolding parse_chain
parse_chain_complete zero rest next stop acc ps e h w = absurd (omega arith)
parse_chain_complete (suc fuel) rest next stop acc ps e h (finished z nil) =
    rw (z, nil) (ap (λ t. ok (t, none)) (sym (append-nil acc)))
parse_chain_complete (suc fuel) rest next stop acc ps e h
      (sealed p len {e = env} nz enc s at all k) =
    let trailing : length rest - len ≡ 0 = omega arith in
    rw
      (
        ne→== next 0 nz,
        parse_chain,
        read_payload_complete rest next p len at,
        enc,
        trailing,
        s,
        read_envelope_complete p env k,
      )
      (ap (λ t. ok (t, some env)) (sym (append-nil acc)))
parse_chain_complete (suc fuel) rest next stop acc ps e h
      (plain p len {ps = qs} {e = env} nz open' at w) =
    rw
      (
        ne→== next 0 nz,
        parse_chain,
        read_payload_complete rest next p len at,
        open',
        slice_from_ok {E = WireError} rest len at.2,
      )
      (parse_chain_complete fuel (drop len rest) p.next stop (acc ++ (p ∷ [])) qs env
          (omega (arith, length-drop len rest)) w
        ∙ ap (λ t. ok (t, env)) (append_assoc acc (p ∷ []) qs))

pub parse_payloads-ne-panic :
    (buf : List ℕ) (first : ℕ) (stop : Bool) → parse_payloads buf first stop ≢ panic
unfolding parse_payloads
parse_payloads-ne-panic buf first stop =
    Ensures-ne-panic _ _ (parse_chain-Ensures (suc (length buf)) buf first stop [] (omega arith))

-- `ParsePayloads` accepts exactly the walks, and returns their payloads and envelope.
pub parse_payloads-Walks :
    (buf : List ℕ) (first : ℕ) (stop : Bool) (ps : List Payload) (e : Option EncryptedPayload)
    → (parse_payloads buf first stop ≡ ok (ps, e)) ↔ Walks stop buf first ps e
unfolding parse_payloads
parse_payloads-Walks buf first stop ps e = (
  λ h.
      let (qs, eq, w) =
        Ensures-ok (λ (c : Chain). (qs : List Payload) × (c.0 ≡ qs) × Walks stop buf first qs c.1)
          (parse_chain (suc (length buf)) buf first stop []) (ps, e) h
          (parse_chain-Ensures (suc (length buf)) buf first stop [] (omega arith)) in
      rw eq w,
  λ w. parse_chain_complete (suc (length buf)) buf first stop [] ps e (omega arith) w,
)

-- What an accepted message says of the input.
abbrev pub MessageOf : List ℕ → Message → Type 0
MessageOf b m =
    (rest : List ℕ) × HeaderOf b (m.header, rest)
    × Walks true rest m.header.next_payload m.payloads m.encrypted

pub parse_message-Ensures : (b : List ℕ) → All IsByte b → Ensures (MessageOf b) (parse_message b)
unfolding parse_message parse_payloads
parse_message-Ensures b h =
    >>=-Ensures (HeaderOf b) (MessageOf b) (parse_header b) _ (parse_header-Ensures b h)
      λ (hd, rest) k.
        >>=-Ensures
          (λ (c : Chain). (ps : List Payload) × (c.0 ≡ ps) × Walks true rest hd.next_payload ps c.1)
          (MessageOf b) (parse_chain (suc (length rest)) rest hd.next_payload true []) _
          (parse_chain-Ensures (suc (length rest)) rest hd.next_payload true [] (omega arith))
          λ c (ps, e, w). (rest, k, rw e w)
