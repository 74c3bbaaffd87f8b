-- ===== src/Control/Reassembly.antt =====
-- The reassembly of SKF fragments: `collectSKFragment` of control/protected.go. Times are numbers on
-- one clock.
pub mod Slots
pub mod AnyOrder
use swan.Common.{
  ℕ, zero, suc, ◌+◌, ◌-◌, ltb, ◌==◌, if◌then◌else◌, Bool, true, false, ◌&&◌, ◌||◌, not, List, [],
  ◌∷◌, ◌++◌, length, Option, none, some,
}
use swan.Common.Outcome.{Outcome, ok, err, panic}
use swan.Wire.Consts.{payload_type_none, payload_type_skf}
use swan.Wire.Header.{SkfHeader}
use swan.Wire.Message.{EncryptedPayload}
use swan.Control.Protected.{
  ProtectedError, first_payload_unset, not_an_skf, invalid_fragment_numbers, exchange_mismatch,
  message_id_mismatch, first_payload_mismatch, unexpected_next_payload,
}

-- A slot is `none` until its fragment is there.
pub record FragmentReassembly : Type 0 where
  pub exchange_type : ℕ
  pub message_id : ℕ
  pub first_inner_payload : ℕ
  pub fragments : List (Option (List ℕ))
  pub expires_at : ℕ

-- What a fragment is of, when it comes, and how long its set may stay incomplete.
pub record Arrival : Type 0 where
  pub exchange : ℕ
  pub message_id : ℕ
  pub now : ℕ
  pub timeout : ℕ

-- `make([][]byte, n)`.
unfoldable pub empty_slots : ℕ → List (Option (List ℕ))
empty_slots zero = []
empty_slots (suc n) = none ∷ empty_slots n

-- `if s[i] == nil { s[i] = part }`.
unfoldable pub fill_slot : List (Option (List ℕ)) → ℕ → List ℕ → List (Option (List ℕ))
fill_slot [] i part = []
fill_slot (none ∷ s) zero part = some part ∷ s
fill_slot (some p ∷ s) zero part = some p ∷ s
fill_slot (o ∷ s) (suc i) part = o ∷ fill_slot s i part

abbrev prepend : List ℕ → Option (List ℕ) → Option (List ℕ)
prepend p none = none
prepend p (some r) = some (p ++ r)

-- The fragments joined, when none is missing.
unfoldable pub join_slots : List (Option (List ℕ)) → Option (List ℕ)
join_slots [] = some []
join_slots (none ∷ s) = none
join_slots (some p ∷ s) = prepend p (join_slots s)

-- The set that is kept, and the plaintext when it is complete.
abbrev pub Collected : Type 0
Collected = Option FragmentReassembly × Outcome ProtectedError (Option (List ℕ))

-- A set that has expired is dropped.
abbrev pub drop_expired : Option FragmentReassembly → ℕ → Option FragmentReassembly
drop_expired none now = none
drop_expired (some t) now = if ltb t.expires_at now then none else some t

abbrev pub fresh_table : Arrival → ℕ → FragmentReassembly
fresh_table a total = record {
  exchange_type = a.exchange;
  message_id = a.message_id;
  first_inner_payload = first_payload_unset;
  fragments = empty_slots total;
  expires_at = a.now + a.timeout;
}

-- The set for `total` fragments: the one that is there, unless it is for fewer, or a new one.
abbrev pub table_for : FragmentReassembly → Arrival → ℕ → FragmentReassembly
table_for t a total =
    if ltb (length t.fragments) total
    then fresh_table a total
    else record t { expires_at = a.now + a.timeout }

abbrev pub of_joined : FragmentReassembly → Option (List ℕ) → Collected
of_joined t none = (some t, ok none)
of_joined t (some joined) = (none, ok (some joined))

-- The fragment takes its slot.
unfoldable pub store_fragment : FragmentReassembly → ℕ → List ℕ → Collected
store_fragment t number plain =
    let slots = fill_slot t.fragments (number - 1) plain in
    of_joined (record t { fragments = slots }) (join_slots slots)

-- The first fragment names the first inner payload, and no other does.
unfoldable pub check_first : FragmentReassembly → ℕ → ℕ → List ℕ → Collected
check_first t number inner_next plain =
    if number == 1
    then (if t.first_inner_payload == first_payload_unset
        then store_fragment (record t { first_inner_payload = inner_next }) number plain
        else if not (t.first_inner_payload == inner_next)
        then (some t, err first_payload_mismatch)
        else store_fragment t number plain)
    else if not (inner_next == payload_type_none)
    then (some t, err unexpected_next_payload)
    else store_fragment t number plain

unfoldable pub collect_into : FragmentReassembly → SkfHeader → ℕ → List ℕ → Collected
collect_into t frag inner_next plain =
    if ltb frag.total_fragments (length t.fragments)
    then (some t, ok none)
    else check_first t frag.fragment_number inner_next plain

-- A set of another exchange or message stays as it is.
unfoldable pub collect_live :
    Option FragmentReassembly → SkfHeader → ℕ → List ℕ → Arrival → Collected
collect_live none frag inner_next plain a =
    collect_into (fresh_table a frag.total_fragments) frag inner_next plain
collect_live (some t) frag inner_next plain a =
    if not (t.exchange_type == a.exchange)
    then (some t, err exchange_mismatch)
    else if not (t.message_id == a.message_id)
    then (some t, err message_id_mismatch)
    else collect_into (table_for t a frag.total_fragments) frag inner_next plain

abbrev collect_numbered :
    Option FragmentReassembly → Option SkfHeader → ℕ → List ℕ → Arrival → Collected
collect_numbered t none inner_next plain a = (t, err not_an_skf)
collect_numbered t (some f) inner_next plain a =
    if f.fragment_number == 0 || f.total_fragments == 0 || ltb f.total_fragments f.fragment_number
    then (t, err (invalid_fragment_numbers f.fragment_number f.total_fragments))
    else collect_live (drop_expired t a.now) f inner_next plain a

unfoldable pub collect_fragment :
    Option FragmentReassembly → EncryptedPayload → List ℕ → Arrival → Collected
collect_fragment t enc plain a =
    if not (enc.type == payload_type_skf)
    then (t, err not_an_skf)
    else collect_numbered t enc.frag enc.inner_next plain a
