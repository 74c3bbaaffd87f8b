-- ===== src/Events/Hub/Requests.antt =====
-- What holds of the hub behind each request that the worker handles.
use mathlib.Core.Path.{subst}
use swan.Common.{
  ℕ, ◌+◌, ◌-◌, ◌≤◌, ◌≡◌, refl, sym, ap, ◌∙◌, arith, ltb, false, List, [], ◌∷◌, ◌++◌, length, drop,
  All, All-append, length-append, length-drop, append_assoc, append-nil, lt→ltb, Option, none, some,
  Bool-cases, inl, inr, ltb→lt,
}
use swan.Events.Event.{Event}
use swan.Events.Hub.{
  Stream, Request, emit_request, subscribe_request, unsubscribe_request, Hub, push_request, retain,
  dispatch, preload, enlist, subscribe, remove_sub, finish_sync, handle_request,
  hub_mailbox_capacity, closed_of, found_sub,
}
use swan.Events.Hub.Sublists.{Sublist, Sublist_refl, last, retain-last}
use swan.Events.Hub.Streams.{
  Trails, Follows, offer_all-Follows, closed_of-Trails, All-Trails-later, without-Follows,
  found_sub-Trails,
}

-- A hub of this queue and this history: what is retained are the last events dispatched, the streams that it
-- writes to follow, and those that it released trail.
abbrev pub Serves : ℕ → ℕ → Hub → Type 0
Serves q n h =
    (h.queue ≡ q)
    × (h.replay ≡ n)
    × (h.replay ≤ h.queue)
    × (length h.mailbox ≤ hub_mailbox_capacity)
    × (h.retained ≡ last h.replay h.log)
    × All (Follows h.queue h.log) h.subs
    × All (Trails h.queue h.log) h.gone

pub some-eq : (x y : Hub) → some x ≡ some y → x ≡ y
some-eq x y e = ap (λ o. elim o [ some v ↦ v | none ↦ x ]) e

pub push_request-Serves :
    (q n : ℕ) (r : Request) (h : Hub) → Serves q n h → Serves q n (push_request r h)
unfolding push_request
push_request-Serves q n r h (eq, en, le, box, ret, subs, gone) =
    elim (Bool-cases (ltb (length h.mailbox) hub_mailbox_capacity)) [
      | inl b ↦ rw (b) (
        eq,
        en,
        le,
        omega (
          arith,
          ltb→lt (length h.mailbox) hub_mailbox_capacity b,
          length-append h.mailbox (r ∷ []),
        ),
        ret,
        subs,
        gone,
      )
      | inr b ↦ rw (b) (eq, en, le, box, ret, subs, gone)
    ]

dispatch-Serves : (q n : ℕ) (e : Event) (h : Hub) → Serves q n h → Serves q n (dispatch e h)
unfolding dispatch
dispatch-Serves q n e h (eq, en, le, box, ret, subs, gone) = (
  eq,
  en,
  le,
  box,
  ap (λ t. retain h.replay t e) ret ∙ retain-last h.replay h.log e,
  offer_all-Follows h.queue h.log e h.subs subs,
  All-append (Trails h.queue (h.log ++ (e ∷ []))) (closed_of h.subs) h.gone
      (All-Trails-later h.queue h.log e (closed_of h.subs)
        (closed_of-Trails h.queue h.log h.subs subs))
      (All-Trails-later h.queue h.log e h.gone gone),
)

finish_sync-Serves :
    (q n : ℕ) (d : Option ℕ) (h : Hub) → Serves q n h → Serves q n (finish_sync d h)
finish_sync-Serves q n none h s = s
finish_sync-Serves q n (some d) h s = s

preload_lem :
    (q : ℕ) (buffer es : List Event)
    → length buffer + length es ≤ q
    → preload q buffer es ≡ some (buffer ++ es)
unfolding preload
preload_lem q buffer [] h = ap some (sym (append-nil buffer))
preload_lem q buffer (e ∷ es) h = rw (lt→ltb (length buffer) q (omega arith)) (
    preload_lem q (buffer ++ (e ∷ [])) es (omega (arith, length-append buffer (e ∷ [])))
    ∙ ap some (append_assoc buffer (e ∷ []) es))

abbrev new_stream : ℕ → List Event → List Event → Stream
new_stream id log buffer = record {
  id = id;
  buffer = buffer;
  closed = false;
  taken = [];
  since' = length log - length buffer;
  dropped = 0;
}

-- A stream that starts with the history.
history-Follows :
    (q n id : ℕ) (log : List Event) → n ≤ q → Follows q log (new_stream id log (last n log))
history-Follows q n id log h =
    let e : length log - length (last n log) ≡ length log - n =
      omega (arith, length-drop (length log - n) log) in
    (
      (
        subst (λ k. Sublist (last n log) (drop k log)) (sym e) (Sublist_refl (last n log)),
        omega arith,
        omega (arith, h, length-drop (length log - n) log),
      ),
      omega (arith, ap (λ (k : ℕ). length (drop k log)) e),
    )

subscribe-Serves :
    (q n ticket : ℕ) (h : Hub)
    → Serves q n h
    → (after : Hub) × (subscribe ticket h ≡ some after) × Serves q n after
unfolding subscribe enlist
subscribe-Serves q n ticket h (eq, en, le, box, ret, subs, gone) =
    let fits : 0 + length h.retained ≤ h.queue = omega (
      arith,
      le,
      ap (λ (t : List Event). length t) ret,
      length-drop (length h.log - h.replay) h.log,
    ) in
    let new =
      subst (λ t. Follows h.queue h.log (new_stream h.made h.log t)) (sym ret)
        (history-Follows h.queue h.replay h.made h.log le) in
    (
      _,
      ap (enlist ticket h) (preload_lem h.queue [] h.retained fits),
      (
        eq,
        en,
        le,
        box,
        ret,
        All-append (Follows h.queue h.log) h.subs (_ ∷ []) subs (new, tt),
        gone,
      ),
    )

remove_sub-Serves : (q n i : ℕ) (h : Hub) → Serves q n h → Serves q n (remove_sub i h)
unfolding remove_sub
remove_sub-Serves q n i h (eq, en, le, box, ret, subs, gone) = (
  eq,
  en,
  le,
  box,
  ret,
  without-Follows h.queue h.log i h.subs subs,
  All-append (Trails h.queue h.log) (found_sub i h.subs) h.gone
      (found_sub-Trails h.queue h.log i h.subs subs) gone,
)

pub handle_request-Serves :
    (q n : ℕ) (r : Request) (h : Hub)
    → Serves q n h
    → (after : Hub) × (handle_request r h ≡ some after) × Serves q n after
unfolding handle_request
handle_request-Serves q n (emit_request e d) h s =
    (_, refl, finish_sync-Serves q n d (dispatch e h) (dispatch-Serves q n e h s))
handle_request-Serves q n (subscribe_request ticket) h s = subscribe-Serves q n ticket h s
handle_request-Serves q n (unsubscribe_request i) h s = (_, refl, remove_sub-Serves q n i h s)
