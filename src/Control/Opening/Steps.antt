-- ===== src/Control/Opening/Steps.antt =====
-- What a receiver does with one packet of a message in parts, as the specification says it.
use swan.Common.{
  ℕ, ◌+◌, ◌≤◌, ◌≡◌, ◌≢◌, refl, sym, ap, ◌∙◌, arith, ltb, ◌==◌, if◌then◌else◌, true, not, List, [],
  ◌∷◌, length, get_or, Option, none, some, Bool-cases, inl, inr, ltb→lt, ne→==,
}
use swan.Common.Outcome.{Outcome, ok, err, panic, ◌>>=◌}
use swan.Wire.Errors.{WireError}
use swan.Wire.Message.{Payload, Chain}
use swan.Wire.Header.{SkfHeader}
use swan.Control.Protected.{
  fragment_bytes, ProtectedError, IkeCrypto, IkeEnvelope, Outgoing, first_payload_unset, frag_of,
  from_wire,
}
use swan.Control.Protected.Parts.{parts_of, length-parts_of}
use swan.Control.Reassembly.{FragmentReassembly, collect_fragment}
use swan.Control.Reassembly.Slots.{
  has, covers, concat, Fragmented, fragment_of, arrival_at, table_of, collected,
}
use swan.Control.Reassembly.AnyOrder.{Part}
use swan.Control.Opening.{
  OpenStep, inner_payloads, open_protected_raw, first_of, finish_opened, of_collected,
}
use swan.Control.Opening.RoundTrip.{opened_step}
use swan.Control.Opening.Frames.{sent_of}

abbrev pub go_on : (Option FragmentReassembly → OpenStep) → OpenStep → OpenStep
go_on next (t, ok none) = next t
go_on next (t, ok (some ps)) = (t, ok (some ps))
go_on next (t, err e) = (t, err e)
go_on next (t, panic) = (t, panic)

-- The receiver opens the packets that come, until one gives payloads or an error.
unfoldable pub open_all :
    IkeCrypto → IkeEnvelope → ℕ → List (List ℕ) → Option FragmentReassembly → List Part → OpenStep
open_all c to timeout frames t [] = (t, ok none)
open_all c to timeout frames t ((i, now) ∷ later) =
    go_on (λ t'. open_all c to timeout frames t' later)
      (open_protected_raw c to t now timeout (get_or frames i []))

pub go_on-inner_payloads :
    (next : Option FragmentReassembly → OpenStep) (t : Option FragmentReassembly)
    (m : Outcome WireError Chain)
    → go_on next (t, from_wire m >>= λ c. ok (some c.0)) ≡ (t, from_wire m >>= λ c. ok (some c.0))
go_on-inner_payloads next t (ok c) = refl
go_on-inner_payloads next t (err e) = refl
go_on-inner_payloads next t panic = refl

-- The message as the reassembly sees it.
abbrev pub fragmented : Outgoing → ℕ → ℕ → ℕ → ℕ → List ℕ → Fragmented
fragmented o total chunk next timeout xs = record {
  parts = parts_of total chunk xs;
  first = next;
  exchange = o.exchange;
  message_id = o.message_id;
  timeout = if ltb 0 timeout then timeout else 15000000000;
}

-- What the receiver answers when the parts in `seen` have come.
abbrev pub answer : Fragmented → List ℕ → Outcome ProtectedError (Option (List Payload))
answer m seen = if covers 0 m.parts seen then inner_payloads (concat m.parts) m.first else ok none

-- The payload type that the joined plaintext is parsed from.
first_lem :
    (m : Fragmented) (i : ℕ) (seen : List ℕ)
    → m.first ≢ first_payload_unset
    → has 0 (i ∷ seen) ≡ true
    → (if not ((if has 0 seen then m.first else first_payload_unset) == first_payload_unset)
        then (if has 0 seen then m.first else first_payload_unset)
        else if i == 0
        then m.first
        else 0)
      ≡ m.first
unfolding has
first_lem m i seen set' h = elim (Bool-cases (has 0 seen)) [
  | inl old ↦ rw (old, ne→== m.first first_payload_unset set') refl
  | inr new ↦ let z : (i == 0) ≡ true = ground (arith, h, new) in rw (new, z) refl
]

covers-has :
    (ps : List (List ℕ)) (seen : List ℕ)
    → 1 ≤ length ps
    → covers 0 ps seen ≡ true
    → has 0 seen ≡ true
unfolding covers
covers-has [] seen h c = absurd (omega arith)
covers-has (p ∷ ps) seen h c = ground (arith, c)

pub of_collected_lem :
    (m : Fragmented) (i : ℕ) (seen : List ℕ) (expires : ℕ)
    → 1 ≤ length m.parts
    → m.first ≢ first_payload_unset
    → of_collected
        (if has 0 seen then m.first else first_payload_unset)
        (if i == 0 then m.first else 0)
        (collected m (i ∷ seen) expires)
      ≡ (if covers 0 m.parts (i ∷ seen)
          then (none, inner_payloads (concat m.parts) m.first)
          else (some (table_of m (i ∷ seen) expires), ok none))
unfolding collected
of_collected_lem m i seen expires n f = elim (Bool-cases (covers 0 m.parts (i ∷ seen))) [
  | inl all ↦ rw all (
      ap (λ first. (none, inner_payloads (concat m.parts) first))
        (first_lem m i seen f (covers-has m.parts (i ∷ seen) n all)))
  | inr missing ↦ rw missing refl
]

pub finish_fragment :
    (t : Option FragmentReassembly) (o : Outgoing) (total chunk next i now timeout : ℕ)
    (xs body : List ℕ)
    → ltb 1 total ≡ true
    → opened_step (sent_of total chunk next xs i) o body t now timeout
      ≡ of_collected (first_of t) (if i == 0 then next else 0) (
          collect_fragment t
            (fragment_of (fragmented o total chunk next timeout xs) i body)
            (get_or (parts_of total chunk xs) i [])
            (arrival_at (fragmented o total chunk next timeout xs) now))
unfolding finish_opened
finish_fragment t o total chunk next i now timeout xs body many =
    let m = fragmented o total chunk next timeout xs in
    let inner : ℕ = if i == 0 then next else 0 in
    let plain = get_or (parts_of total chunk xs) i [] in
    let e_frag : frag_of total i
        ≡ some (record { fragment_number = i + 1; total_fragments = total }) =
      rw many refl in
    let e_len : total ≡ length (parts_of total chunk xs) =
      sym (length-parts_of total chunk xs (omega (arith, ltb→lt 1 total many))) in
    ap
      (λ (f : Option SkfHeader).
        finish_opened t
          (record {
            type = if ltb 1 total then 53 else 46;
            start = 28;
            len = 4 + length (fragment_bytes f) + length body;
            inner_next = inner;
          })
          (arrival_at m now) (ok (record { frag = f; body = body; plain = plain })))
      e_frag
    ∙ ap
        (λ n. of_collected (first_of t) inner (
          collect_fragment t
            (record {
              type = 53;
              inner_next = inner;
              frag = some (record { fragment_number = i + 1; total_fragments = n });
              body = body;
            })
            plain (arrival_at m now)))
        e_len
