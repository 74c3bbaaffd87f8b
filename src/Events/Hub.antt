-- ===== src/Events/Hub.antt =====
-- The event hub: events/hub.go. Channels are lists with a capacity. The goroutines are the steps of
-- `HubStep`, in any order.
pub mod Sublists
pub mod Streams
pub mod Requests
pub mod Delivery
use swan.Common.{
  ℕ, ◌+◌, ◌-◌, ◌<◌, ◌≡◌, ltb, ◌==◌, if◌then◌else◌, Bool, true, false, not, List, [], ◌∷◌, ◌++◌,
  length, drop, map, Option, none, some,
}
use swan.Events.Event.{Event}

abbrev pub hub_mailbox_capacity : ℕ
hub_mailbox_capacity = 256

abbrev pub default_replay_history : ℕ
default_replay_history = 16

-- A stream, told from others by its id. The last three say what happened to it: what its reader
-- has taken, how many events the hub had dispatched before its first, and how many were dropped.
pub record Stream : Type 0 where
  pub id : ℕ
  pub buffer : List Event
  pub closed : Bool
  pub taken : List Event
  pub since' : ℕ
  pub dropped : ℕ

-- An event, with the done channel of EmitSync; a subscription, with its reply channel; or the
-- release of a stream.
pub data Request : Type 0 where
  emit_request : Event → Option ℕ → Request
  subscribe_request : ℕ → Request
  unsubscribe_request : ℕ → Request

-- `replay` is the capacity of the retained events. The streams that the hub writes to are `subs`; those
-- that it released are `gone`. `running` is the worker, `replies` the streams or nils sent to reply
-- channels, `finished` the done channels closed, and `log` all the events dispatched.
pub record Hub : Type 0 where
  pub mailbox : List Request
  pub queue : ℕ
  pub replay : ℕ
  pub retained : List Event
  pub subs : List Stream
  pub gone : List Stream
  pub made : ℕ
  pub stopped : Bool
  pub running : Bool
  pub replies : List (ℕ × Option ℕ)
  pub finished : List ℕ
  pub log : List Event

-- The arguments are not negative; the code takes a negative one for 0.
unfoldable pub new_hub : ℕ → ℕ → Hub
new_hub queue replay =
    let enough : ℕ = if ltb queue replay then replay else queue in
    record {
      mailbox = [];
      queue = if enough == 0 then 1 else enough;
      replay = replay;
      retained = [];
      subs = [];
      gone = [];
      made = 0;
      stopped = false;
      running = true;
      replies = [];
      finished = [];
      log = [];
    }

-- A send that does not block: a full mailbox drops the request.
unfoldable pub push_request : Request → Hub → Hub
push_request r h =
    if ltb (length h.mailbox) hub_mailbox_capacity
    then record h { mailbox = h.mailbox ++ (r ∷ []) }
    else h

unfoldable pub retain : ℕ → List Event → Event → List Event
retain cap xs e =
    if cap == 0 then xs else if length xs == cap then drop 1 xs ++ (e ∷ []) else xs ++ (e ∷ [])

-- A full stream drops this one event.
unfoldable pub offer : ℕ → Event → Stream → Stream
offer queue e s =
    if ltb (length s.buffer) queue
    then record s { buffer = s.buffer ++ (e ∷ []) }
    else record s { dropped = s.dropped + 1 }

-- The loop of dispatch: closed streams leave the list.
unfoldable pub offer_all : ℕ → Event → List Stream → List Stream
offer_all queue e [] = []
offer_all queue e (s ∷ ss) =
    let rest = offer_all queue e ss in if s.closed then rest else offer queue e s ∷ rest

unfoldable pub closed_of : List Stream → List Stream
closed_of [] = []
closed_of (s ∷ ss) = let rest = closed_of ss in if s.closed then s ∷ rest else rest

unfoldable pub dispatch : Event → Hub → Hub
dispatch e h = record h {
  retained = retain h.replay h.retained e;
  subs = offer_all h.queue e h.subs;
  gone = closed_of h.subs ++ h.gone;
  log = h.log ++ (e ∷ []);
}

-- The sends of the history, which wait for room; none is a wait that nothing ends.
unfoldable pub preload : ℕ → List Event → List Event → Option (List Event)
preload queue buffer [] = some buffer
preload queue buffer (e ∷ es) =
    let rest = preload queue (buffer ++ (e ∷ [])) es in
    if ltb (length buffer) queue then rest else none

unfoldable pub enlist : ℕ → Hub → Option (List Event) → Option Hub
enlist ticket h none = none
enlist ticket h (some buffer) = some (record h {
  subs =
      h.subs
      ++ (record {
        id = h.made;
        buffer = buffer;
        closed = false;
        taken = [];
        since' = length h.log - length h.retained;
        dropped = 0;
      }
          ∷ []);
  made = h.made + 1;
  replies = h.replies ++ ((ticket, some h.made) ∷ []);
})

unfoldable pub subscribe : ℕ → Hub → Option Hub
subscribe ticket h = enlist ticket h (preload h.queue [] h.retained)

unfoldable pub without : ℕ → List Stream → List Stream
without i [] = []
without i (s ∷ ss) = let rest = s ∷ without i ss in if s.id == i then ss else rest

unfoldable pub found_sub : ℕ → List Stream → List Stream
found_sub i [] = []
found_sub i (s ∷ ss) = let rest = found_sub i ss in if s.id == i then s ∷ [] else rest

unfoldable pub remove_sub : ℕ → Hub → Hub
remove_sub i h = record h { subs = without i h.subs; gone = found_sub i h.subs ++ h.gone }

abbrev pub finish_sync : Option ℕ → Hub → Hub
finish_sync none h = h
finish_sync (some d) h = record h { finished = h.finished ++ (d ∷ []) }

unfoldable pub handle_request : Request → Hub → Option Hub
handle_request (emit_request e d) h = some (finish_sync d (dispatch e h))
handle_request (subscribe_request ticket) h = subscribe ticket h
handle_request (unsubscribe_request i) h = some (remove_sub i h)

abbrev pub nil_replies : List Request → List (ℕ × Option ℕ)
nil_replies [] = []
nil_replies (subscribe_request ticket ∷ rs) = (ticket, none) ∷ nil_replies rs
nil_replies (r ∷ rs) = nil_replies rs

-- The worker's end.
unfoldable pub drain : Hub → Hub
drain h = record h { mailbox = []; replies = h.replies ++ nil_replies h.mailbox; running = false }

unfoldable pub emit : Event → Hub → Hub
emit e h = push_request (emit_request e none) h

unfoldable pub close_hub : Hub → Hub
close_hub h = record h { stopped = true }

unfoldable pub mark_closed : ℕ → Stream → Stream
mark_closed i s = if s.id == i then record s { closed = true } else s

unfoldable pub is_open : ℕ → List Stream → Bool
is_open i [] = false
is_open i (s ∷ ss) = let rest = is_open i ss in if s.id == i then not s.closed else rest

-- The first close of a stream marks it, and asks the worker to release it.
unfoldable pub close_stream : ℕ → Hub → Hub
close_stream i h =
    if is_open i (h.subs ++ h.gone)
    then push_request (unsubscribe_request i)
        (record h { subs = map (mark_closed i) h.subs; gone = map (mark_closed i) h.gone })
    else h

abbrev pub take_first : Stream → List Event → Stream
take_first s [] = s
take_first s (e ∷ es) = record s { buffer = es; taken = s.taken ++ (e ∷ []) }

-- A reader receives from its stream.
unfoldable pub receive_event : ℕ → Stream → Stream
receive_event i s = if s.id == i then take_first s s.buffer else s

unfoldable pub receive_from : ℕ → Hub → Hub
receive_from i h = record h {
  subs = map (receive_event i) h.subs;
  gone = map (receive_event i) h.gone;
}

-- What the goroutines do, one operation at a time. EmitSync and Subscribe wait for room.
pub data HubStep : Hub → Hub → Type 0 where
  emits : (h : Hub) (e : Event) → HubStep h (emit e h)
  emits_sync :
      (h : Hub) (e : Event) (done' : ℕ)
      → length h.mailbox < hub_mailbox_capacity
      → HubStep h (push_request (emit_request e (some done')) h)
  subscribes :
      (h : Hub) (ticket : ℕ)
      → length h.mailbox < hub_mailbox_capacity
      → HubStep h (push_request (subscribe_request ticket) h)
  receives : (h : Hub) (i : ℕ) → HubStep h (receive_from i h)
  closes_stream : (h : Hub) (i : ℕ) → HubStep h (close_stream i h)
  closes : (h : Hub) → HubStep h (close_hub h)
  works :
      (h : Hub) (r : Request) (rs : List Request) (after : Hub)
      → h.running ≡ true
      → h.mailbox ≡ r ∷ rs
      → handle_request r (record h { mailbox = rs }) ≡ some after
      → HubStep h after
  drains : (h : Hub) → h.running ≡ true → h.stopped ≡ true → HubStep h (drain h)

pub data Reached (s : Hub) : Hub → Type 0 where
  at_start : Reached s s
  then' : {t u : Hub} → Reached s t → HubStep t u → Reached s u
