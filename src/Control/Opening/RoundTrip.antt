-- ===== src/Control/Opening/RoundTrip.antt =====
-- One protected packet from end to end.
use mathlib.Core.Path.{subst}
use swan.Common.{
  ℕ, ◌+◌, ◌≤◌, ◌≡◌, refl, sym, ap, ◌∙◌, arith, ltb, ◌==◌, if◌then◌else◌, Bool, true, false, not,
  List, [], ◌++◌, length, Option, none, some, Bool-cases, inl, inr,
}
use swan.Common.Outcome.{
  Outcome, ok, ◌>>=◌, Ensures, Ensures-mono, >>=-Ensures, reject-Ensures, of_elem,
}
use swan.Wire.Header.{SkfHeader}
use swan.Esp.Suite.{EncryptionAlg, Integrity, Selection}
use swan.Control.Protected.{
  ProtectedError, IkeCrypto, IkeEnvelope, IkeKeys, Outgoing, fragment_bytes, invalid_fragment,
  or_fail, seal_failed, iv_failed, outer_icv_len, pad_ike_plaintext, inbound_key_halves,
  outbound_key_halves, seal_prefix, append_icv, seal_protected,
}
use swan.Control.Protected.Prefix.{sealed_prefix, seal_prefix-Ensures}
use swan.Control.Reassembly.{FragmentReassembly}
use swan.Control.Opening.{OpenStep, open_encrypted_body, finish_opened, open_protected_raw}
use swan.Control.Opening.Body.{Keyed, Body, sealed_len, append_icv-Body}
use swan.Control.Opening.Packet.{IsEnvelopeOf, IsOutgoing, open_raw}

-- The two ends of one IKE SA: one suite and one set of keys, and opposite roles.
pub record Peers (c : IkeCrypto) (from to : IkeEnvelope) : Type 0 where
  pub sel : Selection
  pub keys : IkeKeys
  pub from_sel : from.selected_ike ≡ some sel
  pub from_keys : from.ike_keys ≡ some keys
  pub to_sel : to.selected_ike ≡ some sel
  pub to_keys : to.ike_keys ≡ some keys
  pub roles : to.is_original_initiator ≡ not from.is_original_initiator
  pub keyed : Keyed c sel (outbound_key_halves from keys).0 (outbound_key_halves from keys).1

key_halves_same :
    (from to : IkeEnvelope) (keys : IkeKeys)
    → to.is_original_initiator ≡ not from.is_original_initiator
    → inbound_key_halves to keys ≡ outbound_key_halves from keys
unfolding inbound_key_halves outbound_key_halves
key_halves_same from to keys e =
    ap (λ (b : Bool). if b then (keys.sk_er, keys.sk_ar) else (keys.sk_ei, keys.sk_ai)) e
    ∙ swap from.is_original_initiator
  where
    swap :
        (b : Bool)
        → ◌≡◌ {A = List ℕ × List ℕ}
            (if not b then (keys.sk_er, keys.sk_ar) else (keys.sk_ei, keys.sk_ai))
            (if b then (keys.sk_ei, keys.sk_ai) else (keys.sk_er, keys.sk_ar))
    swap true = refl
    swap false = refl

of_elem_bind {ℓ κ} :
    {A : Type ℓ} {B : Type κ} (Q : B → Type 0) (f : A → Outcome ProtectedError B) {o : Option A}
    {a : A}
    → o ≡ some a
    → Ensures Q (f a)
    → Ensures Q (of_elem o >>= f)
of_elem_bind Q f e h = subst (λ o. Ensures Q (of_elem o >>= f)) (sym e) h

or_fail_bind {ℓ κ} :
    {A : Type ℓ} {B : Type κ} (Q : B → Type 0) (o : Option A) (e : ProtectedError)
    (f : A → Outcome ProtectedError B)
    → ((a : A) → o ≡ some a → Ensures Q (f a))
    → Ensures Q (or_fail o e >>= f)
or_fail_bind Q none e f h = tt
or_fail_bind Q (some a) e f h = h a refl

outer_icv_len-Ensures :
    (enc : EncryptionAlg) (o : Option Integrity)
    → Ensures (λ (n : ℕ). outer_icv_len enc o ≡ ok n) (outer_icv_len enc o)
unfolding outer_icv_len
outer_icv_len-Ensures enc none = elim (Bool-cases enc.aead) [ inl a ↦ rw a refl | inr a ↦ rw a tt ]
outer_icv_len-Ensures enc (some i) = elim (Bool-cases enc.aead) [
  | inl a ↦ rw a refl
  | inr a ↦ elim (Bool-cases (i.key_len == 0)) [ inl z ↦ rw (a, z) tt | inr nz ↦ rw (a, nz) refl ]
]

-- What opening a packet that is sealed as `frag` under `inner_next` comes to, for a plaintext.
pub record Sent : Type 0 where
  pub enc_type : ℕ
  pub inner_next : ℕ
  pub frag : Option SkfHeader
  pub plain : List ℕ

abbrev pub opened_step : Sent → Outgoing → List ℕ → Option FragmentReassembly → ℕ → ℕ → OpenStep
opened_step s o body t now timeout =
    finish_opened t
      (record {
        type = s.enc_type;
        start = 28;
        len = 4 + length (fragment_bytes s.frag) + length body;
        inner_next = s.inner_next;
      })
      (record {
        exchange = o.exchange;
        message_id = o.message_id;
        now = now;
        timeout = if ltb 0 timeout then timeout else 15000000000;
      })
      (ok (record { frag = s.frag; body = body; plain = s.plain }))

abbrev pub OpensTo : IkeCrypto → IkeEnvelope → Outgoing → Sent → List ℕ → Type 0
OpensTo c to o s raw =
    (body : List ℕ) × ((t : Option FragmentReassembly) (now timeout : ℕ)
      → open_protected_raw c to t now timeout raw ≡ opened_step s o body t now timeout)

sealed-OpensTo :
    (c : IkeCrypto) (from to : IkeEnvelope) (p : Peers c from to) (o : Outgoing) (s : Sent)
    (iv sealed pkt : List ℕ) (n : ℕ)
    → IsOutgoing o
    → IsEnvelopeOf s.enc_type s.frag
    → pkt ≡ sealed_prefix from o s.enc_type s.inner_next s.frag n
    → 4 + length (fragment_bytes s.frag) + n ≤ 0xffff
    → (raw : List ℕ)
    → Body c p.sel
        (outbound_key_halves from p.keys).0
        (outbound_key_halves from p.keys).1
        p.keyed
        pkt
        iv
        s.plain
        sealed
        n
        raw
    → OpensTo c to o s raw
sealed-OpensTo c from to p o s iv sealed pkt n wo we e_pkt fits raw (tail, e_raw, len, e_open) =
    let body : List ℕ = iv ++ tail in
    let pre = sealed_prefix from o s.enc_type s.inner_next s.frag (length body) in
    let e_pre : pkt ≡ pre =
      e_pkt ∙ ap (sealed_prefix from o s.enc_type s.inner_next s.frag) (sym len) in
    let e : open_encrypted_body c p.sel (inbound_key_halves to p.keys).0
          (inbound_key_halves to p.keys).1 pre body
        ≡ ok s.plain =
      ap (λ (h : List ℕ × List ℕ). open_encrypted_body c p.sel h.0 h.1 pre body)
        (key_halves_same from to p.keys p.roles)
      ∙ ap
          (λ q.
            open_encrypted_body c p.sel (outbound_key_halves from p.keys).0
              (outbound_key_halves from p.keys).1 q body)
          (sym e_pre)
      ∙ e_open in
    (
      body,
      λ t now timeout.
          ap (open_protected_raw c to t now timeout) (e_raw ∙ ap (λ q. q ++ body) e_pre)
          ∙ open_raw from o s.enc_type s.inner_next s.frag body wo we (omega (arith, len)) c to
              p.sel p.keys t now timeout s.plain p.to_sel p.to_keys e,
    )

-- A packet that one end seals opens, at the other end, to its plaintext.
pub seal_protected-open :
    (c : IkeCrypto) (from to : IkeEnvelope) (p : Peers c from to) (o : Outgoing) (s : Sent)
    (fill : Option (List ℕ))
    → IsOutgoing o
    → IsEnvelopeOf s.enc_type s.frag
    → ((iv : List ℕ) → fill ≡ some iv → length iv ≡ p.keyed.enc.iv_len)
    → Ensures
        (OpensTo c to o s)
        (seal_protected c from p.sel p.keys o s.inner_next s.enc_type s.frag fill s.plain)
unfolding seal_protected
seal_protected-open c from to p o s fill wo we li =
    let Q = OpensTo c to o s in
    let enc = p.keyed.enc in
    let ek = (outbound_key_halves from p.keys).0 in
    let ik = (outbound_key_halves from p.keys).1 in
    reject-Ensures Q (invalid_fragment s.frag) _ _ λ _. of_elem_bind Q _ p.keyed.selected (
      reject-Ensures Q (enc.iv_len == 0) _ _ λ _.
        >>=-Ensures (λ (n : ℕ). outer_icv_len enc p.sel.integrity ≡ ok n) Q
          (outer_icv_len enc p.sel.integrity) _ (outer_icv_len-Ensures enc p.sel.integrity)
          λ icv_len e_icv.
            let n = enc.iv_len + sealed_len enc s.plain + icv_len in
            >>=-Ensures
              (λ (pkt : List ℕ).
                (pkt ≡ sealed_prefix from o s.enc_type s.inner_next s.frag n)
                × (4 + length (fragment_bytes s.frag) + n ≤ 0xffff))
              Q (seal_prefix from o s.enc_type s.inner_next s.frag n) _
              (seal_prefix-Ensures from o s.enc_type s.inner_next s.frag n)
              λ pkt (e_pkt, fits). or_fail_bind Q fill iv_failed _ λ iv e_iv.
                or_fail_bind Q
                  (c.seal enc ek iv (if enc.aead then pkt else []) (pad_ike_plaintext enc s.plain))
                  seal_failed _
                  λ sealed es.
                    Ensures-mono (Body c p.sel ek ik p.keyed pkt iv s.plain sealed n) Q
                      (append_icv c enc p.sel.integrity ik ((pkt ++ iv) ++ sealed))
                      (append_icv-Body c p.sel ek ik p.keyed pkt iv s.plain sealed p.sel.integrity
                        icv_len refl e_icv (li iv e_iv) es)
                      λ raw b.
                        sealed-OpensTo c from to p o s iv sealed pkt n wo we e_pkt fits raw b)
