-- ===== src/Wire/Builder/RoundTrip.antt =====
-- What `Push` and `Finish` write, and that `ParseMessage` reads it back.
use swan.Common.{
  ℕ, ◌+◌, ◌-◌, ◌≤◌, ◌≡◌, refl, sym, arith, Bool, true, false, not, List, [], ◌∷◌, ◌++◌, length,
  take, drop, ◌==◌, none, All, IsByte, length-append, take-append_length, drop-append_length,
  take_all, bit_and,
}
use swan.Common.Outcome.{ok, ◌>>=◌}
use swan.Wire.Errors.{BuildError}
use swan.Wire.Be.Laws.{store_ok, put_uint32_ok, be_uint16-put}
use swan.Wire.Header.{Header, marshal_to}
use swan.Wire.Header.Laws.{IsWellFormed, parse_header-marshal}
use swan.Wire.Message.{Payload, parse_message}
use swan.Wire.Message.Safety.{PayloadAt}
use swan.Wire.Message.Walk.{Walks, finished, plain, parse_payloads-Walks}
use swan.Wire.Builder.{Builder, new_builder, first_payload, patch_length, finish}
use swan.Wire.Builder.Chain.{
  Item, first_or, critical_byte, total, item_tail, encode_chain, IsItem, push_all, push_all_lem,
}

-- The header that a finished packet carries.
abbrev pub finished_header : Header → List Item → Header
finished_header h is = record h {
  next_payload = first_or 0 is;
  length = 28 + length (encode_chain is);
}

-- The bytes of a header around its next-payload byte.
abbrev before_next : Header → List ℕ
before_next h = take 16 (marshal_to h [])

abbrev behind_next : Header → List ℕ
behind_next h = drop 17 (marshal_to h [])

finish_lem :
    (h : Header) (is : List Item) (b : Builder)
    → b.buf ≡ before_next h ++ (first_or h.next_payload is ∷ (behind_next h ++ encode_chain is))
    → first_payload b ≡ first_or 0 is
    → finish b ≡ ok (marshal_to (finished_header h is) [] ++ encode_chain is)
unfolding finish patch_length marshal_to
finish_lem h is b eb ef =
    let x : List ℕ =
      before_next h ++ (first_or h.next_payload is ∷ (behind_next h ++ encode_chain is)) in
    let y : List ℕ = before_next h ++ (first_or 0 is ∷ (behind_next h ++ encode_chain is)) in
    let l : length y ≡ 28 + length (encode_chain is) = omega arith in
    rw
      (
        ef,
        eb,
        store_ok {E = BuildError} x 16 (first_or 0 is) (omega arith),
        l,
        put_uint32_ok {E = BuildError} y 24 (28 + length (encode_chain is)) (omega arith),
      )
      refl

-- Pushing items on a fresh builder and finishing writes the header, stamped with the first type
-- and the total length, and the chain of the items.
pub finish-push_all :
    (h : Header) (is : List Item)
    → All IsItem is
    → length (encode_chain is) ≤ 0xffff
    → (push_all is (new_builder h) >>= finish)
      ≡ ok (marshal_to (finished_header h is) [] ++ encode_chain is)
unfolding finish patch_length new_builder marshal_to
finish-push_all h is ok_items fits =
    let (b', pushed) =
      push_all_lem is (new_builder h) (before_next h) (behind_next h) h.next_payload ok_items refl
        refl (omega arith) in
    rw (pushed.0) (finish_lem h is b' pushed.1 pushed.2)

-- The payloads that a chain of items parses to.
abbrev pub payloads_of : List Item → List Payload
payloads_of [] = []
payloads_of (i ∷ is) =
    record { type = i.type; critical = i.critical; next = first_or 0 is; body = i.body }
    ∷ payloads_of is

critical-critical_byte : (c : Bool) → c ≡ not (bit_and (critical_byte c) 0x80 == 0)
critical-critical_byte true = refl
critical-critical_byte false = refl

item-PayloadAt :
    (i : Item) (is : List Item)
    → total i ≤ 0xffff
    → PayloadAt (encode_chain (i ∷ is)) i.type (
      record { type = i.type; critical = i.critical; next = first_or 0 is; body = i.body },
      total i,
    )
unfolding encode_chain
item-PayloadAt i is h = (
  refl,
  omega arith,
  omega (arith, length-append i.body (encode_chain is)),
  sym (take-append_length i.body (encode_chain is) (total i - 4) (omega arith)),
  refl,
  critical-critical_byte i.critical,
  be_uint16-put (total i) [] (omega arith),
)

drop-encode_chain :
    (i : Item) (is : List Item) → drop (total i) (encode_chain (i ∷ is)) ≡ encode_chain is
unfolding encode_chain
drop-encode_chain i is =
    drop-append_length (first_or 0 is ∷ item_tail i) (encode_chain is) (total i) (omega arith)

encode_chain-nil : encode_chain [] ≡ []
unfolding encode_chain
encode_chain-nil = refl

encode_chain-Walks :
    (is : List Item)
    → All IsItem is
    → Walks true (encode_chain is) (first_or 0 is) (payloads_of is) none
encode_chain-Walks [] h = finished {rest = encode_chain []} refl encode_chain-nil
encode_chain-Walks (i ∷ is) h =
    let p : Payload = record {
      type = i.type;
      critical = i.critical;
      next = first_or 0 is;
      body = i.body;
    } in
    plain {rest = encode_chain (i ∷ is)} p (total i) {e = none} h.0.0 h.0.1
      (item-PayloadAt i is h.0.2) (rw (drop-encode_chain i is) (encode_chain-Walks is h.1))

-- A packet that the builder makes of items with no envelope parses to those items, under the
-- header that the builder stamped with the first type and the length.
pub parse_message-finish :
    (h : Header) (is : List Item)
    → IsWellFormed h
    → IsByte (first_or 0 is)
    → All IsItem is
    → length (encode_chain is) ≤ 0xffff
    → (packet : List ℕ) × ((push_all is (new_builder h) >>= finish) ≡ ok packet)
      × (parse_message packet
          ≡ ok (record {
            header = finished_header h is;
            payloads = payloads_of is;
            encrypted = none;
          }))
unfolding parse_message
parse_message-finish h is w b items fits =
    let chain = encode_chain is in
    let fh = finished_header h is in
    let well : IsWellFormed fh = record {
      initiator = w.initiator;
      responder = w.responder;
      next_byte = b;
      exchange_byte = w.exchange_byte;
      version = w.version;
      flags = w.flags;
      message_id = w.message_id;
      length = omega arith;
    } in
    (
      marshal_to fh [] ++ chain,
      finish-push_all h is items fits,
      rw
          (
            parse_header-marshal fh chain well (omega arith) (omega arith),
            take_all chain (28 + length chain - 28) (omega arith),
            (parse_payloads-Walks chain (first_or 0 is) true (payloads_of is) none).1
                (encode_chain-Walks is items),
          )
          refl,
    )
