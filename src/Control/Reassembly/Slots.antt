-- ===== src/Control/Reassembly/Slots.antt =====
-- The set of fragments while the parts of one message come.
use swan.Common.{
  ℕ, zero, suc, ◌+◌, ◌-◌, ◌≤◌, ◌<◌, ◌≡◌, refl, ap, arith, ltb, ◌==◌, if◌then◌else◌, Bool, true,
  false, ◌&&◌, ◌||◌, List, [], ◌∷◌, ◌++◌, length, get_or, Option, none, some, Bool-cases, le→ltb,
  ne→==, eq→==, inl, inr,
}
use swan.Common.Outcome.{ok}
use swan.Wire.Consts.{payload_type_skf}
use swan.Wire.Message.{EncryptedPayload}
use swan.Control.Protected.{first_payload_unset}
use swan.Control.Reassembly.{
  FragmentReassembly, Arrival, Collected, collect_fragment, empty_slots, fill_slot, join_slots,
  of_joined, store_fragment, check_first, collect_into, collect_live,
}

unfoldable pub has : ℕ → List ℕ → Bool
has k [] = false
has k (j ∷ js) = j == k || has k js

unfoldable pub concat : List (List ℕ) → List ℕ
concat [] = []
concat (p ∷ ps) = p ++ concat ps

-- The slots of the parts from number `k` on, of which those in `seen` have come.
unfoldable pub slots_of : ℕ → List (List ℕ) → List ℕ → List (Option (List ℕ))
slots_of k [] seen = []
slots_of k (p ∷ ps) seen = (if has k seen then some p else none) ∷ slots_of (suc k) ps seen

-- Whether all of them have.
unfoldable pub covers : ℕ → List (List ℕ) → List ℕ → Bool
covers k [] seen = true
covers k (p ∷ ps) seen = has k seen && covers (suc k) ps seen

join_slots-slots_of :
    (k : ℕ) (ps : List (List ℕ)) (seen : List ℕ)
    → join_slots (slots_of k ps seen) ≡ (if covers k ps seen then some (concat ps) else none)
unfolding join_slots slots_of covers concat
join_slots-slots_of k [] seen = refl
join_slots-slots_of k (p ∷ ps) seen = elim (Bool-cases (has k seen)) [
  | inr missing ↦ rw missing refl
  | inl yes' ↦ elim (Bool-cases (covers (suc k) ps seen)) [
    | inl all ↦ rw (yes', join_slots-slots_of (suc k) ps seen, all) refl
    | inr some' ↦ rw (yes', join_slots-slots_of (suc k) ps seen, some') refl
  ]
]

length-slots_of :
    (k : ℕ) (ps : List (List ℕ)) (seen : List ℕ) → length (slots_of k ps seen) ≡ length ps
unfolding slots_of
length-slots_of k [] seen = refl
length-slots_of k (p ∷ ps) seen = ap suc (length-slots_of (suc k) ps seen)

empty_slots-slots_of : (k : ℕ) (ps : List (List ℕ)) → empty_slots (length ps) ≡ slots_of k ps []
unfolding empty_slots slots_of has
empty_slots-slots_of k [] = refl
empty_slots-slots_of k (p ∷ ps) = ap (λ s. none ∷ s) (empty_slots-slots_of (suc k) ps)

-- A part in front of `k` is none of those from `k` on.
slots_of_skip :
    (k j : ℕ) (ps : List (List ℕ)) (seen : List ℕ)
    → j < k
    → slots_of k ps (j ∷ seen) ≡ slots_of k ps seen
unfolding slots_of has
slots_of_skip k j [] seen h = refl
slots_of_skip k j (p ∷ ps) seen h =
    rw (ne→== j k (omega arith), slots_of_skip (suc k) j ps seen (omega arith)) refl

fill_slot-slots_of :
    (k i j : ℕ) (ps : List (List ℕ)) (seen : List ℕ)
    → i < length ps
    → j ≡ k + i
    → fill_slot (slots_of k ps seen) i (get_or ps i []) ≡ slots_of k ps (j ∷ seen)
unfolding fill_slot slots_of has
fill_slot-slots_of k i j [] seen h e = absurd (omega arith)
fill_slot-slots_of k zero j (p ∷ ps) seen h e = elim (Bool-cases (has k seen)) [
  | inl old ↦
      rw (old, eq→== j k (omega arith), fill_slot, slots_of_skip (suc k) j ps seen (omega arith))
        refl
  | inr new ↦
      rw (new, eq→== j k (omega arith), fill_slot, slots_of_skip (suc k) j ps seen (omega arith))
        refl
]
fill_slot-slots_of k (suc i) j (p ∷ ps) seen h e = elim (Bool-cases (has k seen)) [
  | inl old ↦
      rw (old, ne→== j k (omega arith), fill_slot)
        (ap (λ s. some p ∷ s) (fill_slot-slots_of (suc k) i j ps seen (omega arith) (omega arith)))
  | inr new ↦
      rw (new, ne→== j k (omega arith), fill_slot)
        (ap (λ s. none ∷ s) (fill_slot-slots_of (suc k) i j ps seen (omega arith) (omega arith)))
]

-- A message that was sent in parts: its plaintext parts, the type of the first inner payload, its
-- exchange and id; and how long the receiver keeps an incomplete set.
pub record Fragmented : Type 0 where
  pub parts : List (List ℕ)
  pub first : ℕ
  pub exchange : ℕ
  pub message_id : ℕ
  pub timeout : ℕ

abbrev pub arrival_at : Fragmented → ℕ → Arrival
arrival_at m now = record {
  exchange = m.exchange;
  message_id = m.message_id;
  now = now;
  timeout = m.timeout;
}

-- The envelope of part `i`, counted from 0.
abbrev pub fragment_of : Fragmented → ℕ → List ℕ → EncryptedPayload
fragment_of m i body = record {
  type = payload_type_skf;
  inner_next = if i == 0 then m.first else 0;
  frag = some (record { fragment_number = i + 1; total_fragments = length m.parts });
  body = body;
}

-- The set when the parts in `seen` have come.
abbrev pub table_of : Fragmented → List ℕ → ℕ → FragmentReassembly
table_of m seen expires = record {
  exchange_type = m.exchange;
  message_id = m.message_id;
  first_inner_payload = if has 0 seen then m.first else first_payload_unset;
  fragments = slots_of 0 m.parts seen;
  expires_at = expires;
}

-- What the specification says of a part: the message when it was the last one that was missing.
unfoldable pub collected : Fragmented → List ℕ → ℕ → Collected
collected m seen expires =
    if covers 0 m.parts seen
    then (none, ok (some (concat m.parts)))
    else (some (table_of m seen expires), ok none)

of_joined-if :
    (t : FragmentReassembly) (c : Bool) (j : List ℕ)
    → of_joined t (if c then some j else none)
      ≡ (if c then (none, ok (some j)) else (some t, ok none))
of_joined-if t true j = refl
of_joined-if t false j = refl

store_fragment_lem :
    (m : Fragmented) (i : ℕ) (seen : List ℕ) (expires f : ℕ)
    → i < length m.parts
    → f ≡ (if has 0 (i ∷ seen) then m.first else first_payload_unset)
    → store_fragment
        (record {
          exchange_type = m.exchange;
          message_id = m.message_id;
          first_inner_payload = f;
          fragments = slots_of 0 m.parts seen;
          expires_at = expires;
        })
        (i + 1)
        (get_or m.parts i [])
      ≡ collected m (i ∷ seen) expires
unfolding store_fragment collected
store_fragment_lem m i seen expires f h e =
    let num : i + 1 - 1 ≡ i = omega arith in
    rw
      (
        num,
        fill_slot-slots_of 0 i i m.parts seen h (omega arith),
        join_slots-slots_of 0 m.parts (i ∷ seen),
        e,
      )
      (of_joined-if (table_of m (i ∷ seen) expires) (covers 0 m.parts (i ∷ seen)) (concat m.parts))

-- The first fragment's payload type is kept, and no other fragment has one.
check_first_lem :
    (m : Fragmented) (i : ℕ) (seen : List ℕ) (expires : ℕ)
    → i < length m.parts
    → check_first
        (table_of m seen expires)
        (i + 1)
        (if i == 0 then m.first else 0)
        (get_or m.parts i [])
      ≡ collected m (i ∷ seen) expires
unfolding check_first has
check_first_lem m zero seen expires h = elim (Bool-cases (has 0 seen)) [
  | inr new ↦ rw new (store_fragment_lem m 0 seen expires m.first h refl)
  | inl old ↦ elim (Bool-cases (m.first == first_payload_unset)) [
    | inl unset ↦ rw (old, unset) (store_fragment_lem m 0 seen expires m.first h refl)
    | inr set' ↦
        rw (old, set', eq→== m.first m.first refl)
          (store_fragment_lem m 0 seen expires m.first h refl)
  ]
]
check_first_lem m (suc i) seen expires h =
    rw (ne→== (suc i + 1) 1 (omega arith), ne→== (suc i) 0 (omega arith))
      (store_fragment_lem m (suc i) seen expires
        (if has 0 seen then m.first else first_payload_unset) h
        (rw (ne→== (suc i) 0 (omega arith)) refl))

-- One part comes, while the set is kept.
pub collect-collected :
    (m : Fragmented) (i now : ℕ) (seen : List ℕ) (expires : ℕ) (body : List ℕ)
    → i < length m.parts
    → now ≤ expires
    → collect_fragment
        (some (table_of m seen expires))
        (fragment_of m i body)
        (get_or m.parts i [])
        (arrival_at m now)
      ≡ collected m (i ∷ seen) (now + m.timeout)
unfolding collect_fragment collect_live collect_into
collect-collected m i now seen expires body h t =
    let same : ltb (length (slots_of 0 m.parts seen)) (length m.parts) ≡ false =
      le→ltb _ _ (omega (arith, length-slots_of 0 m.parts seen)) in
    let same' : ltb (length m.parts) (length (slots_of 0 m.parts seen)) ≡ false =
      le→ltb _ _ (omega (arith, length-slots_of 0 m.parts seen)) in
    rw
      (
        ne→== (i + 1) 0 (omega arith),
        ne→== (length m.parts) 0 (omega arith),
        le→ltb (length m.parts) (i + 1) (omega arith),
        le→ltb expires now t,
        eq→== m.exchange m.exchange refl,
        eq→== m.message_id m.message_id refl,
      )
      (rw same (rw same' (check_first_lem m i seen (now + m.timeout) h)))

-- The first part that comes.
pub collect-collected_new :
    (m : Fragmented) (i now : ℕ) (body : List ℕ)
    → i < length m.parts
    → collect_fragment none (fragment_of m i body) (get_or m.parts i []) (arrival_at m now)
      ≡ collected m (i ∷ []) (now + m.timeout)
unfolding collect_fragment collect_live collect_into has
collect-collected_new m i now body h =
    rw
      (
        ne→== (i + 1) 0 (omega arith),
        ne→== (length m.parts) 0 (omega arith),
        le→ltb (length m.parts) (i + 1) (omega arith),
        empty_slots-slots_of 0 m.parts,
        length-slots_of 0 m.parts [],
        le→ltb (length m.parts) (length m.parts) (omega arith),
      )
      (check_first_lem m i [] (now + m.timeout) h)
