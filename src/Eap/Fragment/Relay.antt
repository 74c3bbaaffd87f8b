-- ===== src/Eap/Fragment/Relay.antt =====
-- A fragmenter and a collector back to back: a message arrives whole.
use swan.Common.{
  ℕ, zero, suc, ◌+◌, ◌-◌, ◌^◌, ◌≤◌, ◌<◌, ◌≡◌, inl, inr, refl, sym, ap, ◌∙◌, arith, ltb, Bool, true,
  false, List, [], ◌∷◌, ◌++◌, length, take, drop, none, some, Bool-cases, ltb→lt, ltb→ge,
  append_assoc, append-nil, length-take, length-drop, take_all,
}
use swan.Common.Outcome.{Outcome, ok, err, panic, ◌>>=◌, >>=-ok}
use swan.Eap.Fragment.{
  FragmentError, OutboundFragmenter, InboundFragmenter, Fragment, Pushed, start, next, join,
  new_inbound_fragmenter,
}
use swan.Eap.Fragment.Steps.{
  receive, take-more, having, receive_more, receive_last, sending, next_more, next_last, start_more,
  start_long, start_plain, receive_first, receive_only, receive_plain,
}

-- Each packet that does not complete the message is acknowledged, which makes the fragmenter send
-- the next one, until one completes it: the fragmenter at the end, and the message.
unfoldable pub relay :
    ℕ → OutboundFragmenter → Pushed → Outcome FragmentError (OutboundFragmenter × List ℕ)
relay zero f pushed = panic
relay (suc fuel) f (g, err e) = err e
relay (suc fuel) f (g, panic) = panic
relay (suc fuel) f (g, ok (some message)) = ok (f, message)
relay (suc fuel) f (g, ok none) =
    let (f', fragment) = next f in
    fragment >>= λ (p, done). receive g p >>= λ pushed. relay fuel f' pushed

-- A whole message, from `Start` on.
unfoldable pub transfer :
    ℕ → OutboundFragmenter → List ℕ → Outcome FragmentError (OutboundFragmenter × List ℕ)
transfer fuel f payload =
    let (f', fragment) = start f payload 0 in
    fragment >>= λ (p, done). receive new_inbound_fragmenter p >>= λ pushed. relay fuel f' pushed

join-append : (ps : List (List ℕ)) (p : List ℕ) → join (ps ++ (p ∷ [])) ≡ join ps ++ p
unfolding join
join-append [] p = append-nil p
join-append (q ∷ qs) p = ap (λ t. q ++ t) (join-append qs p) ∙ sym (append_assoc q (join qs) p)

relay_done :
    (fuel : ℕ) (f : OutboundFragmenter) (g : InboundFragmenter) (message : List ℕ)
    → 1 ≤ fuel
    → relay fuel f (g, ok (some message)) ≡ ok (f, message)
unfolding relay
relay_done zero f g message h = absurd (omega arith)
relay_done (suc fuel) f g message h = refl

-- What `relay` does with the answer of `next`.
abbrev send_on :
    ℕ
    → InboundFragmenter
    → OutboundFragmenter × Outcome FragmentError Fragment
    → Outcome FragmentError (OutboundFragmenter × List ℕ)
send_on fuel g s = s.1 >>= λ (p, done). receive g p >>= λ pushed. relay fuel s.0 pushed

-- The fragments behind the first: `k` bytes have arrived.
relay_lem :
    (fuel : ℕ) (all : List ℕ) (k c : ℕ) (i : Bool) (parts : List (List ℕ))
    → length all < fuel + k
    → 1 ≤ c
    → k < length all
    → join parts ≡ take k all
    → relay fuel (sending all k c i) (having parts k (length all), ok none)
      ≡ ok (sending [] 0 c i, all)
unfolding relay
relay_lem zero all k c i parts f c1 h j = absurd (omega arith)
relay_lem (suc fuel) all k c i parts f c1 h j = elim (Bool-cases (ltb (k + c) (length all))) [
  | inl more ↦
      let m : k + c < length all = ltb→lt (k + c) (length all) more in
      let x = take (k + c - k) (drop k all) in
      let lx : length x ≡ c =
        length-take (k + c - k) (drop k all) (omega (arith, length-drop k all)) ∙ omega arith in
      let joined : join (parts ++ (x ∷ [])) ≡ take (k + c) all =
        join-append parts x ∙ ap (λ t. t ++ x) j ∙ take-more all k (k + c) (omega arith) in
      let k' : k + length x ≡ k + c = ap (λ n. k + n) lx in
      ap (send_on fuel (having parts k (length all))) (next_more all k c i m)
      ∙ >>=-ok _ _ (receive_more parts k (length all) x (omega arith)) (
          ap
            (λ n.
              relay fuel (sending all (k + c) c i)
                (having (parts ++ (x ∷ [])) n (length all), ok none))
            k'
          ∙ relay_lem fuel all (k + c) c i (parts ++ (x ∷ [])) (omega arith) c1 m joined)
  | inr last ↦
      let m : length all ≤ k + c = ltb→ge (k + c) (length all) last in
      let x = take (length all - k) (drop k all) in
      let lx : k + length x ≡ length all =
        omega
          (arith, length-take (length all - k) (drop k all) (omega (arith, length-drop k all))) in
      let joined : join (parts ++ (x ∷ [])) ≡ all =
        join-append parts x
        ∙ ap (λ t. t ++ x) j
        ∙ take-more all k (length all) (omega arith)
        ∙ take_all all (length all) refl in
      ap (send_on fuel (having parts k (length all))) (next_last all k c i h m)
      ∙ >>=-ok _ _ (receive_last parts k (length all) x lx) (
          relay_done fuel (sending [] 0 c i) new_inbound_fragmenter (join (parts ++ (x ∷ [])))
            (omega arith)
          ∙ ap (λ t. ok (sending [] 0 c i, t)) joined)
]

-- What `transfer` does with the answer of `start`.
abbrev begin_with :
    ℕ
    → OutboundFragmenter × Outcome FragmentError Fragment
    → Outcome FragmentError (OutboundFragmenter × List ℕ)
begin_with fuel s =
    s.1 >>= λ (p, done). receive new_inbound_fragmenter p >>= λ pushed. relay fuel s.0 pushed

transfer_single :
    (fuel c : ℕ) (i : Bool) (all : List ℕ)
    → 1 ≤ c
    → 1 ≤ length all
    → length all < 2 ^ 32
    → length all < fuel
    → length all ≤ c
    → transfer fuel (sending [] 0 c i) all ≡ ok (sending [] 0 c i, all)
unfolding transfer
transfer_single fuel c true all c1 n1 fits f h =
    let x = take (length all) all in
    let e : x ≡ all = take_all all (length all) refl in
    ap (begin_with fuel) (start_long all c c1 h)
    ∙ >>=-ok _ _ (receive_only (length all) x n1 (ap (λ (t : List ℕ). length t) e) fits) (
        relay_done fuel (sending [] 0 c true) new_inbound_fragmenter (x ++ []) (omega arith)
        ∙ ap (λ t. ok (sending [] 0 c true, t)) (append-nil x ∙ e))
transfer_single fuel c false all c1 n1 fits f h =
    let x = take (length all) all in
    ap (begin_with fuel) (start_plain all c c1 h)
    ∙ >>=-ok _ _ (receive_plain x) (
        relay_done fuel (sending [] 0 c false) new_inbound_fragmenter x (omega arith)
        ∙ ap (λ t. ok (sending [] 0 c false, t)) (take_all all (length all) refl))

-- A message that is not empty and has fewer than 2^32 bytes arrives whole, in however many
-- fragments, and leaves the fragmenter idle, ready for the next one.
pub transfer_whole :
    (fuel c : ℕ) (include_length : Bool) (message : List ℕ)
    → 1 ≤ c
    → 1 ≤ length message
    → length message < 2 ^ 32
    → length message < fuel
    → transfer fuel
        (record { payload = []; offset = 0; chunk = c; include_length = include_length })
        message
      ≡ ok
          (record { payload = []; offset = 0; chunk = c; include_length = include_length }, message)
unfolding transfer join
transfer_whole fuel c i all c1 n1 fits f = elim (Bool-cases (ltb c (length all))) [
  | inl more ↦
      let m : c < length all = ltb→lt c (length all) more in
      let x = take c all in
      let lx : length x ≡ c = length-take c all (omega arith) in
      ap (begin_with fuel) (start_more all c i c1 m)
      ∙ >>=-ok _ _ (receive_first (length all) x (omega arith) (omega arith) fits) (
          ap (λ n. relay fuel (sending all c c i) (having (x ∷ []) n (length all), ok none))
            (omega (arith, lx))
          ∙ relay_lem fuel all c c i (x ∷ []) (omega arith) c1 m (append-nil x))
  | inr single ↦ transfer_single fuel c i all c1 n1 fits f (ltb→ge c (length all) single)
]
