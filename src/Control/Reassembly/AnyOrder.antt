-- ===== src/Control/Reassembly/AnyOrder.antt =====
-- The fragments of one message in any order, with repetitions: a specification by the set of
-- fragments that have come.
use swan.Common.{
  ℕ, suc, ◌+◌, ◌≤◌, ◌<◌, ◌≡◌, refl, sym, ap, ◌∙◌, arith, if◌then◌else◌, true, false, ◌||◌, List, [],
  ◌∷◌, ◌++◌, length, get_or, append-nil, Option, none, some, Bool-cases, inl, inr,
}
use swan.Common.Outcome.{Outcome, ok, err, panic}
use swan.Control.Protected.{ProtectedError}
use swan.Control.Reassembly.{FragmentReassembly, Collected, collect_fragment}
use swan.Control.Reassembly.Slots.{
  has, concat, covers, Fragmented, arrival_at, fragment_of, table_of, collected, collect-collected,
  collect-collected_new,
}

-- Part `i` comes at the time `now`.
abbrev pub Part : Type 0
Part = ℕ × ℕ

abbrev pub carry_on : (Option FragmentReassembly → Collected) → Collected → Collected
carry_on next (t, ok none) = next t
carry_on next (t, ok (some joined)) = (t, ok (some joined))
carry_on next (t, err e) = (t, err e)
carry_on next (t, panic) = (t, panic)

-- Parts come one by one, until the message is complete or one is refused.
unfoldable pub deliver : Fragmented → Option FragmentReassembly → List Part → Collected
deliver m t [] = (t, ok none)
deliver m t ((i, now) ∷ later) =
    carry_on (λ t'. deliver m t' later)
      (collect_fragment t (fragment_of m i []) (get_or m.parts i []) (arrival_at m now))

abbrev pub numbers : List Part → List ℕ
numbers [] = []
numbers ((i, now) ∷ later) = i ∷ numbers later

-- Each part is one of the message's, and comes before the set expires.
abbrev pub InTime : Fragmented → ℕ → List Part → Type 0
InTime m expires [] = Unit
InTime m expires ((i, now) ∷ later) =
    (i < length m.parts) × (now ≤ expires) × InTime m (now + m.timeout) later

has-append : (k : ℕ) (xs ys : List ℕ) → has k (xs ++ ys) ≡ (has k xs || has k ys)
unfolding has
has-append k [] ys = refl
has-append k (x ∷ xs) ys = ground (arith, has-append k xs ys)

pub has_move : (k i : ℕ) (xs ys : List ℕ) → has k (xs ++ (i ∷ ys)) ≡ has k ((i ∷ xs) ++ ys)
unfolding has
has_move k i xs ys = ground (arith, has-append k xs (i ∷ ys), has-append k xs ys)

pub covers_same :
    (k : ℕ) (ps : List (List ℕ)) (xs ys : List ℕ)
    → ((j : ℕ) → has j xs ≡ has j ys)
    → covers k ps xs ≡ covers k ps ys
unfolding covers
covers_same k [] xs ys h = refl
covers_same k (p ∷ ps) xs ys h = rw (h k, covers_same (suc k) ps xs ys h) refl

pub covers_mono :
    (k : ℕ) (ps : List (List ℕ)) (xs ys : List ℕ)
    → covers k ps ys ≡ true
    → covers k ps (xs ++ ys) ≡ true
unfolding covers
covers_mono k [] xs ys h = refl
covers_mono k (p ∷ ps) xs ys h = ground (arith, h, has-append k xs ys, covers_mono (suc k) ps xs ys)

abbrev answer : Fragmented → List ℕ → Outcome ProtectedError (Option (List ℕ))
answer m seen = ok (if covers 0 m.parts seen then some (concat m.parts) else none)

deliver-collected :
    (m : Fragmented) (i now : ℕ) (seen : List ℕ) (later : List Part) (c : Collected)
    → c ≡ collected m (i ∷ seen) (now + m.timeout)
    → (covers 0 m.parts (i ∷ seen) ≡ false
        → (deliver m (some (table_of m (i ∷ seen) (now + m.timeout))) later).1
          ≡ answer m (numbers later ++ (i ∷ seen)))
    → (carry_on (λ t. deliver m t later) c).1 ≡ answer m ((i ∷ numbers later) ++ seen)
unfolding collected
deliver-collected m i now seen later c e ih =
    let moved : covers 0 m.parts (numbers later ++ (i ∷ seen))
        ≡ covers 0 m.parts ((i ∷ numbers later) ++ seen) =
      covers_same 0 m.parts _ _ (λ k. has_move k i (numbers later) seen) in
    elim (Bool-cases (covers 0 m.parts (i ∷ seen))) [
      | inl all ↦ rw (e, all, sym moved, covers_mono 0 m.parts (numbers later) (i ∷ seen) all) refl
      | inr missing ↦ rw (e, missing, sym moved) (ih missing)
    ]

deliver-seen :
    (m : Fragmented) (seen : List ℕ) (expires : ℕ) (later : List Part)
    → covers 0 m.parts seen ≡ false
    → InTime m expires later
    → (deliver m (some (table_of m seen expires)) later).1 ≡ answer m (numbers later ++ seen)
unfolding deliver
deliver-seen m seen expires [] missing t = rw missing refl
deliver-seen m seen expires ((i, now) ∷ later) missing (h, t, ts) =
    deliver-collected m i now seen later _ (collect-collected m i now seen expires [] h t)
      (λ missing'. deliver-seen m (i ∷ seen) (now + m.timeout) later missing' ts)

-- The parts of one message, in any order and with any repetitions, each in time: once every part
-- has come the answer is the parts joined in their order, and until then there is none. No part is
-- refused.
pub deliver-covers :
    (m : Fragmented) (i now : ℕ) (later : List Part)
    → i < length m.parts
    → InTime m (now + m.timeout) later
    → (deliver m none ((i, now) ∷ later)).1
      ≡ ok (if covers 0 m.parts (i ∷ numbers later) then some (concat m.parts) else none)
unfolding deliver
deliver-covers m i now later h ts =
    deliver-collected m i now [] later _ (collect-collected_new m i now [] h)
      (λ missing. deliver-seen m (i ∷ []) (now + m.timeout) later missing ts)
    ∙ ap (answer m) (append-nil (i ∷ numbers later))
