-- ===== src/Control/Opening/Delivery.antt =====
-- A protected message from end to end: its packets in any order, with repetitions.
use mathlib.Core.Path.{subst}
use swan.Common.{
  ℕ, ◌+◌, ◌≤◌, ◌<◌, ◌≡◌, ◌≢◌, refl, sym, ap, ◌∙◌, arith, ltb, ◌==◌, if◌then◌else◌, true, false,
  List, [], ◌∷◌, ◌++◌, length, get_or, append-nil, Option, none, some, Bool-cases, inl, inr, ltb→lt,
  ltb→ge,
}
use swan.Common.Outcome.{ok, Ensures, Ensures-mono, reject-Ensures}
use swan.Wire.Message.{parse_payloads}
use swan.Control.Protected.{
  IkeCrypto, IkeEnvelope, Outgoing, first_payload_unset, fragment_count, build_with,
  build_protected, fragment_plaintext_limit,
}
use swan.Control.Protected.Parts.{parts_of, length-parts_of, concat-parts_of}
use swan.Control.Reassembly.{FragmentReassembly, collect_fragment}
use swan.Control.Reassembly.Slots.{
  has, covers, concat, Fragmented, fragment_of, arrival_at, table_of, collected, collect-collected,
  collect-collected_new,
}
use swan.Control.Reassembly.AnyOrder.{Part, numbers, InTime, covers_mono, covers_same, has_move}
use swan.Control.Opening.{
  OpenStep, inner_payloads, open_protected_raw, first_of, finish_opened, of_collected,
}
use swan.Control.Opening.Packet.{IsOutgoing}
use swan.Control.Opening.RoundTrip.{Peers, opened_step}
use swan.Control.Opening.Frames.{sent_of, FramesFrom, build_from-FramesFrom, frame_at}
use swan.Control.Opening.Steps.{
  go_on, open_all, go_on-inner_payloads, fragmented, answer, of_collected_lem, finish_fragment,
}

-- The rest of what a packet leads to, from the answer that the specification gives for it.
open_all_collected :
    (c : IkeCrypto) (to : IkeEnvelope) (m : Fragmented) (timeout : ℕ) (frames : List (List ℕ))
    (i : ℕ) (seen : List ℕ) (later : List Part) (expires : ℕ) (r : OpenStep)
    → r ≡ (
        if covers 0 m.parts (i ∷ seen)
        then (none, inner_payloads (concat m.parts) m.first)
        else (some (table_of m (i ∷ seen) expires), ok none))
    → (covers 0 m.parts (i ∷ seen) ≡ false
        → (open_all c to timeout frames (some (table_of m (i ∷ seen) expires)) later).1
          ≡ answer m (numbers later ++ (i ∷ seen)))
    → (go_on (λ t. open_all c to timeout frames t later) r).1
      ≡ answer m ((i ∷ numbers later) ++ seen)
open_all_collected c to m timeout frames i seen later expires r e ih =
    let moved : covers 0 m.parts (numbers later ++ (i ∷ seen))
        ≡ covers 0 m.parts ((i ∷ numbers later) ++ seen) =
      covers_same 0 m.parts _ _ (λ k. has_move k i (numbers later) seen) in
    elim (Bool-cases (covers 0 m.parts (i ∷ seen))) [
      | inl all ↦
          rw (e, all, sym moved, covers_mono 0 m.parts (numbers later) (i ∷ seen) all)
            (ap (λ (s : OpenStep). s.1)
              (go_on-inner_payloads (λ t. open_all c to timeout frames t later) none
                (parse_payloads (concat m.parts) m.first false)))
      | inr missing ↦ rw (e, missing, sym moved) (ih missing)
    ]

module _ (c : IkeCrypto) (to : IkeEnvelope) (o : Outgoing) (total chunk next timeout : ℕ)
    (xs : List ℕ) (frames : List (List ℕ)) (opens : FramesFrom c to o total chunk next xs 0 frames)
    (len : length frames ≡ total) (set' : next ≢ first_payload_unset)
    (many : ltb 1 total ≡ true) where
  abbrev message : Fragmented
  message = fragmented o total chunk next timeout xs

  parts_total : length message.parts ≡ total
  parts_total = length-parts_of total chunk xs (omega (arith, ltb→lt 1 total many))

  open_one :
      (t : Option FragmentReassembly) (i now : ℕ) (seen : List ℕ)
      → i < length message.parts
      → first_of t ≡ (if has 0 seen then next else first_payload_unset)
      → ((body : List ℕ)
          → collect_fragment t
              (fragment_of message i body)
              (get_or message.parts i [])
              (arrival_at message now)
            ≡ collected message (i ∷ seen) (now + message.timeout))
      → open_protected_raw c to t now timeout (get_or frames i []) ≡ (
          if covers 0 message.parts (i ∷ seen)
          then (none, inner_payloads (concat message.parts) next)
          else (some (table_of message (i ∷ seen) (now + message.timeout)), ok none))
  open_one t i now seen h e_first e_collect =
      let (body, opened) =
        frame_at c to o total chunk next xs 0 i i frames opens (omega (arith, h, len, parts_total))
          (omega arith) in
      let inner : ℕ = if i == 0 then next else 0 in
      opened t now timeout
      ∙ finish_fragment t o total chunk next i now timeout xs body many
      ∙ ap (of_collected (first_of t) inner) (e_collect body)
      ∙ ap (λ f. of_collected f inner (collected message (i ∷ seen) (now + message.timeout)))
          e_first
      ∙ of_collected_lem message i seen (now + message.timeout) (omega (arith, h)) set'

  open_all-seen :
      (seen : List ℕ) (expires : ℕ) (later : List Part)
      → covers 0 message.parts seen ≡ false
      → InTime message expires later
      → (open_all c to timeout frames (some (table_of message seen expires)) later).1
        ≡ answer message (numbers later ++ seen)
  unfolding open_all
  open_all-seen seen expires [] missing h = rw missing refl
  open_all-seen seen expires ((i, now) ∷ later) missing (h, before, hs) =
      open_all_collected c to message timeout frames i seen later (now + message.timeout) _
        (open_one (some (table_of message seen expires)) i now seen h refl
          (λ body. collect-collected message i now seen expires body h before))
        (λ missing'. open_all-seen (i ∷ seen) (now + message.timeout) later missing' hs)

  open_all-fragments :
      (i now : ℕ) (later : List Part)
      → i < length message.parts
      → InTime message (now + message.timeout) later
      → (open_all c to timeout frames none ((i, now) ∷ later)).1
        ≡ answer message (i ∷ numbers later)
  unfolding open_all has
  open_all-fragments i now later h hs =
      open_all_collected c to message timeout frames i [] later (now + message.timeout) _
        (open_one none i now [] h refl (λ body. collect-collected_new message i now body h))
        (λ missing. open_all-seen (i ∷ []) (now + message.timeout) later missing hs)
      ∙ ap (answer message) (append-nil (i ∷ numbers later))

finish_whole :
    (t : Option FragmentReassembly) (o : Outgoing) (total chunk next now timeout : ℕ)
    (xs body : List ℕ)
    → ltb 1 total ≡ false
    → opened_step (sent_of total chunk next xs 0) o body t now timeout ≡ (t, inner_payloads xs next)
unfolding finish_opened
finish_whole t o total chunk next now timeout xs body one = rw (one, finish_opened) (rw one refl)

-- A message that takes one packet needs no other.
open_all-whole :
    (c : IkeCrypto) (to : IkeEnvelope) (o : Outgoing) (total chunk next timeout : ℕ) (xs : List ℕ)
    (frames : List (List ℕ)) (i now : ℕ) (later : List Part)
    → FramesFrom c to o total chunk next xs 0 frames
    → length frames ≡ total
    → ltb 1 total ≡ false
    → i < total
    → (open_all c to timeout frames none ((i, now) ∷ later)).1
      ≡ answer (fragmented o total chunk next timeout xs) (i ∷ numbers later)
unfolding open_all covers has concat
open_all-whole c to o total chunk next timeout xs frames i now later opens len one h =
    let z : 0 ≡ i = omega (arith, h, ltb→ge 1 total one) in
    let (body, opened) =
      frame_at c to o total chunk next xs 0 0 0 frames opens (omega (arith, h, len)) refl in
    subst
      (λ n.
        (go_on (λ t. open_all c to timeout frames t later)
          (open_protected_raw c to none now timeout (get_or frames n []))).1
        ≡ answer (fragmented o total chunk next timeout xs) (n ∷ numbers later))
      z
      (ap (λ (r : OpenStep). (go_on (λ t. open_all c to timeout frames t later) r).1)
          (opened none now timeout ∙ finish_whole none o total chunk next now timeout xs body one)
        ∙ ap (λ (r : OpenStep). r.1)
            (go_on-inner_payloads (λ t. open_all c to timeout frames t later) none
              (parse_payloads xs next false))
        ∙ rw one (ap (λ t. inner_payloads t next) (sym (append-nil xs))))

opened_all :
    (c : IkeCrypto) (to : IkeEnvelope) (o : Outgoing) (total chunk next timeout : ℕ) (xs : List ℕ)
    (frames : List (List ℕ)) (i now : ℕ) (later : List Part)
    → FramesFrom c to o total chunk next xs 0 frames
    → length frames ≡ total
    → next ≢ first_payload_unset
    → i < total
    → InTime
        (fragmented o total chunk next timeout xs)
        (now + (if ltb 0 timeout then timeout else 15000000000))
        later
    → (open_all c to timeout frames none ((i, now) ∷ later)).1
      ≡ answer (fragmented o total chunk next timeout xs) (i ∷ numbers later)
opened_all c to o total chunk next timeout xs frames i now later opens len set' h hs =
    elim (Bool-cases (ltb 1 total)) [
      | inl many ↦
          open_all-fragments c to o total chunk next timeout xs frames opens len set' many i now
            later (omega (arith, h, length-parts_of total chunk xs (omega (arith, h)))) hs
      | inr one ↦
          open_all-whole c to o total chunk next timeout xs frames i now later opens len one h
    ]

abbrev pub chunk_of : ℕ → ℕ
chunk_of limit = if ltb 0 limit then limit else fragment_plaintext_limit

-- For the two ends of one SA: a protected message is built without a panic, and when its packets
-- come in any order and with any repetitions, each in time, the receiver has the plaintext's
-- payload chain once every packet has come, and nothing before.
pub build_protected-open_all :
    (c : IkeCrypto) (from to : IkeEnvelope) (p : Peers c from to) (o : Outgoing) (wo : IsOutgoing o)
    (ivs : ℕ → Option (List ℕ))
    (li : (n : ℕ) (iv : List ℕ) → ivs n ≡ some iv → length iv ≡ p.keyed.enc.iv_len)
    (next limit timeout : ℕ) (xs : List ℕ) (i now : ℕ) (later : List Part)
    → next ≢ first_payload_unset
    → i < fragment_count from (chunk_of limit) xs
    → InTime
        (fragmented o (fragment_count from (chunk_of limit) xs) (chunk_of limit) next timeout xs)
        (now + (if ltb 0 timeout then timeout else 15000000000))
        later
    → Ensures
        (λ (frames : List (List ℕ)).
          (length frames ≡ fragment_count from (chunk_of limit) xs)
          × ((open_all c to timeout frames none ((i, now) ∷ later)).1 ≡ (
              if covers 0
                (parts_of (fragment_count from (chunk_of limit) xs) (chunk_of limit) xs)
                (i ∷ numbers later)
              then inner_payloads xs next
              else ok none)))
        (build_protected c from o next limit ivs xs)
unfolding build_protected
build_protected-open_all c from to p o wo ivs li next limit timeout xs i now later set' h hs =
    let chunk = chunk_of limit in
    let total = fragment_count from chunk xs in
    let pos : 1 ≤ chunk = ground arith in
    let m = fragmented o total chunk next timeout xs in
    let Q = λ (frames : List (List ℕ)).
      (length frames ≡ total)
      × ((open_all c to timeout frames none ((i, now) ∷ later)).1
          ≡ (if covers 0 m.parts (i ∷ numbers later) then inner_payloads xs next else ok none)) in
    subst (λ s. Ensures Q (build_with c from s from.ike_keys o next chunk ivs xs)) (sym p.from_sel)
      (subst (λ k. Ensures Q (build_with c from (some p.sel) k o next chunk ivs xs))
        (sym p.from_keys)
        (reject-Ensures Q (from.initiator_spi == 0) _ _ λ _.
          reject-Ensures Q (ltb 0xffff total) _ _ λ few.
            Ensures-mono
              (λ (fs : List (List ℕ)).
                (length fs ≡ total) × FramesFrom c to o total chunk next xs 0 fs)
              Q _
              (build_from-FramesFrom c from to p o wo ivs li next chunk xs pos
                (ltb→ge 0xffff total few) total 0 (omega arith))
              λ frames (len, opens). (
                len,
                opened_all c to o total chunk next timeout xs frames i now later opens len set' h hs
                    ∙ ap
                        (λ t.
                          if covers 0 m.parts (i ∷ numbers later)
                          then inner_payloads t next
                          else ok none)
                        (concat-parts_of from chunk xs pos),
              )))
