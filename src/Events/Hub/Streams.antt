-- ===== src/Events/Hub/Streams.antt =====
-- What a stream holds, against the events that the hub dispatched.
use mathlib.Core.Path.{subst}
use swan.Common.{
  branches, drop-append, ℕ, ◌+◌, ◌≤◌, ◌≡◌, refl, sym, ap, ◌∙◌, arith, ltb, ◌==◌, true, List, [],
  ◌∷◌, ◌++◌, length, drop, map, All, length-append, append_assoc, ltb→lt,
}
use swan.Events.Event.{Event}
use swan.Events.Hub.{
  Stream, offer, offer_all, closed_of, without, found_sub, mark_closed, take_first, receive_event,
}
use swan.Events.Hub.Sublists.{Sublist, Sublist_skip_last, Sublist_keep_last}

-- What was taken and what waits are events dispatched since the stream's start, in their order, and
-- no more wait than there is room for.
abbrev pub Trails : ℕ → List Event → Stream → Type 0
Trails q log s =
    Sublist (s.taken ++ s.buffer) (drop s.since' log)
    × (s.since' ≤ length log)
    × (length s.buffer ≤ q)

-- Besides, each event since the start was taken, waits, or is counted as dropped.
abbrev pub Follows : ℕ → List Event → Stream → Type 0
Follows q log s =
    Trails q log s × (length (s.taken ++ s.buffer) + s.dropped ≡ length (drop s.since' log))

pub Trails-later :
    (q : ℕ) (log : List Event) (e : Event) (s : Stream)
    → Trails q log s
    → Trails q (log ++ (e ∷ [])) s
Trails-later q log e s (sub, at, room) = (
  subst (λ t. Sublist (s.taken ++ s.buffer) t) (sym (drop-append s.since' log (e ∷ []) at))
      (Sublist_skip_last e sub),
  omega (arith, length-append log (e ∷ [])),
  room,
)

offer-Follows :
    (q : ℕ) (log : List Event) (e : Event) (s : Stream)
    → Follows q log s
    → Follows q (log ++ (e ∷ [])) (offer q e s)
unfolding offer
offer-Follows q log e s ((sub, at, room), count) =
    let more = drop-append s.since' log (e ∷ []) at in
    let longer : length (drop s.since' (log ++ (e ∷ []))) ≡ length (drop s.since' log) + 1 =
      ap (λ (t : List Event). length t) more ∙ length-append (drop s.since' log) (e ∷ []) in
    branches (Follows q (log ++ (e ∷ []))) (ltb (length s.buffer) q) _ _
      (λ h.
        let moved = append_assoc s.taken s.buffer (e ∷ []) in
        (
          (
            subst (λ t. Sublist (s.taken ++ (s.buffer ++ (e ∷ []))) t) (sym more)
                (subst (λ t. Sublist t (drop s.since' log ++ (e ∷ []))) moved
                  (Sublist_keep_last e sub)),
            omega (arith, length-append log (e ∷ [])),
            omega (arith, ltb→lt (length s.buffer) q h, length-append s.buffer (e ∷ [])),
          ),
          omega (
            arith,
            count,
            longer,
            length-append (s.taken ++ s.buffer) (e ∷ []),
            ap (λ (t : List Event). length t) moved,
          ),
        ))
      (λ h. (Trails-later q log e s (sub, at, room), omega (arith, count, longer)))

pub offer_all-Follows :
    (q : ℕ) (log : List Event) (e : Event) (ss : List Stream)
    → All (Follows q log) ss
    → All (Follows q (log ++ (e ∷ []))) (offer_all q e ss)
unfolding offer_all
offer_all-Follows q log e [] h = tt
offer_all-Follows q log e (s ∷ ss) (h, hs) =
    let rest = offer_all-Follows q log e ss hs in
    branches (λ ts. All (Follows q (log ++ (e ∷ []))) ts) s.closed _ _ (λ _. rest)
      (λ _. (offer-Follows q log e s h, rest))

pub closed_of-Trails :
    (q : ℕ) (log : List Event) (ss : List Stream)
    → All (Follows q log) ss
    → All (Trails q log) (closed_of ss)
unfolding closed_of
closed_of-Trails q log [] h = tt
closed_of-Trails q log (s ∷ ss) (h, hs) =
    let rest = closed_of-Trails q log ss hs in
    branches (λ ts. All (Trails q log) ts) s.closed _ _ (λ _. (h.0, rest)) (λ _. rest)

pub All-Trails-later :
    (q : ℕ) (log : List Event) (e : Event) (ss : List Stream)
    → All (Trails q log) ss
    → All (Trails q (log ++ (e ∷ []))) ss
All-Trails-later q log e [] h = tt
All-Trails-later q log e (s ∷ ss) (h, hs) =
    (Trails-later q log e s h, All-Trails-later q log e ss hs)

pub without-Follows :
    (q : ℕ) (log : List Event) (i : ℕ) (ss : List Stream)
    → All (Follows q log) ss
    → All (Follows q log) (without i ss)
unfolding without
without-Follows q log i [] h = tt
without-Follows q log i (s ∷ ss) (h, hs) =
    branches (λ ts. All (Follows q log) ts) (s.id == i) _ _ (λ _. hs)
      (λ _. (h, without-Follows q log i ss hs))

pub found_sub-Trails :
    (q : ℕ) (log : List Event) (i : ℕ) (ss : List Stream)
    → All (Follows q log) ss
    → All (Trails q log) (found_sub i ss)
unfolding found_sub
found_sub-Trails q log i [] h = tt
found_sub-Trails q log i (s ∷ ss) (h, hs) =
    branches (λ ts. All (Trails q log) ts) (s.id == i) _ _ (λ _. (h.0, tt))
      (λ _. found_sub-Trails q log i ss hs)

-- Marking a stream, and reading from it.
pub mark_closed_lem :
    (P : Stream → Type 0) (i : ℕ) (s : Stream)
    → P (record s { closed = true })
    → P s
    → P (mark_closed i s)
unfolding mark_closed
mark_closed_lem P i s h k = branches P (s.id == i) _ _ (λ _. h) (λ _. k)

take_first-Trails :
    (q : ℕ) (log : List Event) (s : Stream) (b : List Event)
    → s.buffer ≡ b
    → Trails q log s
    → Trails q log (take_first s b)
      × (length ((take_first s b).taken ++ (take_first s b).buffer) ≡ length (s.taken ++ s.buffer))
take_first-Trails q log s [] e h = (h, refl)
take_first-Trails q log s (x ∷ b) e (sub, at, room) =
    let moved : s.taken ++ s.buffer ≡ (s.taken ++ (x ∷ [])) ++ b =
      ap (λ t. s.taken ++ t) e ∙ sym (append_assoc s.taken (x ∷ []) b) in
    (
      (
        subst (λ t. Sublist t (drop s.since' log)) moved sub,
        at,
        omega (arith, room, ap (λ (t : List Event). length t) e),
      ),
      ap (λ (t : List Event). length t) (sym moved),
    )

pub receive_event-Trails :
    (q : ℕ) (log : List Event) (i : ℕ) (s : Stream)
    → Trails q log s
    → Trails q log (receive_event i s)
unfolding receive_event
receive_event-Trails q log i s h =
    branches (Trails q log) (s.id == i) _ _ (λ _. (take_first-Trails q log s s.buffer refl h).0)
      (λ _. h)

take_first-Follows :
    (q : ℕ) (log : List Event) (s : Stream) (b : List Event)
    → s.buffer ≡ b
    → Follows q log s
    → Follows q log (take_first s b)
take_first-Follows q log s [] e h = h
take_first-Follows q log s (x ∷ b) e (h, count) =
    let (k, len) = take_first-Trails q log s (x ∷ b) e h in
    (k, ap (λ (n : ℕ). n + s.dropped) len ∙ count)

pub receive_event-Follows :
    (q : ℕ) (log : List Event) (i : ℕ) (s : Stream)
    → Follows q log s
    → Follows q log (receive_event i s)
unfolding receive_event
receive_event-Follows q log i s h =
    branches (Follows q log) (s.id == i) _ _ (λ _. take_first-Follows q log s s.buffer refl h)
      (λ _. h)

pub All-map :
    (P : Stream → Type 0) (f : Stream → Stream) (ss : List Stream)
    → ((s : Stream) → P s → P (f s))
    → All P ss
    → All P (map f ss)
All-map P f [] k h = tt
All-map P f (s ∷ ss) k (h, hs) = (k s h, All-map P f ss k hs)
