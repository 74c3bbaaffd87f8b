-- ===== src/Wire/Builder/Chain.antt =====
-- Payloads that the builder appends, as bytes.
use swan.Common.{
  ℕ, ◌+◌, ◌≤◌, ◌≡◌, ◌≢◌, refl, sym, ap, ◌∙◌, arith, Bool, true, false, List, [], ◌∷◌, ◌++◌, length,
  if◌then◌else◌, ne→==, le→ltb, append_assoc, append-nil, All, length-append,
}
use swan.Common.Bits.{byte_at}
use swan.Common.Outcome.{Outcome, ok, ◌>>=◌}
use swan.Wire.Errors.{BuildError}
use swan.Wire.Be.{store}
use swan.Wire.Be.Laws.{store_append, put_uint16_append}
use swan.Wire.Message.{is_encrypted}
use swan.Wire.Builder.{Builder, push, first_payload}

-- The arguments of one `Push`.
pub record Item : Type 0 where
  pub type : ℕ
  pub critical : Bool
  pub body : List ℕ

abbrev pub first_or : ℕ → List Item → ℕ
first_or n [] = n
first_or n (i ∷ is) = i.type

-- The critical bit, and the total length of an item.
abbrev pub critical_byte : Bool → ℕ
critical_byte c = if c then 0x80 else 0

abbrev pub total : Item → ℕ
total i = 4 + length i.body

-- Behind the next-payload byte of a header.
abbrev pub item_tail : Item → List ℕ
item_tail i = critical_byte i.critical ∷ byte_at (total i) 8 ∷ byte_at (total i) 0 ∷ i.body

unfoldable pub encode_chain : List Item → List ℕ
encode_chain [] = []
encode_chain (i ∷ is) = first_or 0 is ∷ (item_tail i ++ encode_chain is)

-- An item that can be pushed and that is no envelope.
abbrev pub IsItem : Item → Type 0
IsItem i = (i.type ≢ 0) × (is_encrypted i.type ≡ false) × (total i ≤ 0xffff)

unfoldable pub push_all : List Item → Builder → Outcome BuildError Builder
push_all [] b = ok b
push_all (i ∷ is) b = push i.type i.critical i.body b >>= push_all is

store_middle :
    {E : Type 0} (front tail xs : List ℕ) (nx j v : ℕ)
    → j ≡ length front
    → store {E = E} ((front ++ (nx ∷ tail)) ++ xs) j v ≡ ok ((front ++ (v ∷ tail)) ++ xs)
store_middle {E} front tail xs nx j v e =
    rw (append_assoc front (nx ∷ tail) xs, append_assoc front (v ∷ tail) xs)
      (store_append {E = E} front (nx ∷ (tail ++ xs)) 0 j v (omega arith) (omega arith))

-- One push: the pending next-payload byte, at `length front`, gets the type.
push_lem :
    (i : Item) (b : Builder) (front tail : List ℕ) (nx : ℕ)
    → IsItem i
    → b.buf ≡ front ++ (nx ∷ tail)
    → b.last_next_offset ≡ length front
    → length b.buf + total i ≤ 0xffff + 28
    → push i.type i.critical i.body b
      ≡ ok (record {
        buf = (front ++ (i.type ∷ tail)) ++ (0 ∷ item_tail i);
        first = if b.first_set then b.first else i.type;
        first_set = true;
        last_next_offset = length b.buf;
        header = b.header;
      })
unfolding push
push_lem i b front tail nx h eb el fits =
    let c = critical_byte i.critical in
    let x : List ℕ = 0 ∷ c ∷ byte_at (total i) 8 ∷ byte_at (total i) 0 ∷ [] in
    let written : store {E = BuildError} (b.buf ++ x) b.last_next_offset i.type
        ≡ ok ((front ++ (i.type ∷ tail)) ++ x) =
      rw eb (store_middle front tail x nx b.last_next_offset i.type el) in
    rw
      (
        ne→== i.type 0 h.0,
        le→ltb 0xffff (total i) h.2,
        le→ltb (0xffff + 28) (length b.buf + total i) fits,
        store_append {E = BuildError} b.buf (0 ∷ 0 ∷ 0 ∷ 0 ∷ []) 0 (length b.buf) 0 (omega arith)
            (omega arith),
        store_append {E = BuildError} b.buf (0 ∷ 0 ∷ 0 ∷ 0 ∷ []) 1 (length b.buf + 1) c
            (omega arith) (omega arith),
        put_uint16_append {E = BuildError} b.buf (0 ∷ c ∷ 0 ∷ 0 ∷ []) 2 (length b.buf + 2) (total i)
            (omega arith) (omega arith),
        written,
      )
      (ap
        (λ t. ok (record {
          buf = t;
          first = if b.first_set then b.first else i.type;
          first_set = true;
          last_next_offset = length b.buf;
          header = b.header;
        }))
        (append_assoc (front ++ (i.type ∷ tail)) x i.body))

abbrev pub Pushed : List Item → Builder → List ℕ → List ℕ → ℕ → Builder → Type 0
Pushed is b front tail nx b' =
    (push_all is b ≡ ok b')
    × (b'.buf ≡ front ++ (first_or nx is ∷ (tail ++ encode_chain is)))
    × (first_payload b' ≡ (if b.first_set then b.first else first_or 0 is))

pub push_all_lem :
    (is : List Item) (b : Builder) (front tail : List ℕ) (nx : ℕ)
    → All IsItem is
    → b.buf ≡ front ++ (nx ∷ tail)
    → b.last_next_offset ≡ length front
    → length b.buf + length (encode_chain is) ≤ 0xffff + 28
    → (b' : Builder) × Pushed is b front tail nx b'
unfolding push_all encode_chain first_payload
push_all_lem [] b front tail nx h eb el fits =
    (b, (refl, eb ∙ ap (λ t. front ++ (nx ∷ t)) (sym (append-nil tail)), refl))
push_all_lem (i ∷ is) b front tail nx h eb el fits =
    let front' = front ++ (i.type ∷ tail) in
    let b1 : Builder = record {
      buf = front' ++ (0 ∷ item_tail i);
      first = if b.first_set then b.first else i.type;
      first_set = true;
      last_next_offset = length b.buf;
      header = b.header;
    } in
    let n = length-append (item_tail i) (encode_chain is) in
    let m = length-append front (nx ∷ tail) in
    let m' = length-append front (i.type ∷ tail) in
    let k = length-append front' (0 ∷ item_tail i) in
    let len : length b.buf ≡ length (front ++ (nx ∷ tail)) = ap length eb in
    let (b', pushed) =
      push_all_lem is b1 front' (item_tail i) 0 h.1 refl (omega arith) (omega arith) in
    (
      b',
      (
        ap (λ m. m >>= push_all is) (push_lem i b front tail nx h.0 eb el (omega arith)) ∙ pushed.0,
        pushed.1
            ∙ append_assoc front (i.type ∷ tail) (first_or 0 is ∷ (item_tail i ++ encode_chain is)),
        pushed.2,
      ),
    )
