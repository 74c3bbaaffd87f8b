-- ===== src/Control/Exchange/WaitStep.antt =====
-- One event of a wait for a response, and what is said of a run of them.
use swan.Common.{
  ℕ, suc, ◌+◌, ◌*◌, ◌≤◌, ◌<◌, ◌≡◌, ◌⊎◌, inl, inr, refl, arith, ltb, leb, ◌==◌, if◌then◌else◌, true,
  false, List, [], ◌∷◌, ◌++◌, length, Option, none, some, Bool-cases, All, IsByte, ltb→ge,
}
use swan.Common.Outcome.{Outcome, ok, err, panic, Ensures}
use swan.Wire.Message.{Message, parse_message}
use swan.Transport.Frame.{Kind}
use swan.Control.Exchange.{
  ExchangeError, ExchangeState, Checkpoint, Waiting, Timeouts, Event, Step, packet, nil_packet,
  closed, timeout, cancelled, goes_on, answered, fails, validate_response_header, handle_inbound,
  complete, take_response, write_frames, resend, wait_step, accept_response, retransmit_checkpoint,
}
use swan.Control.Exchange.Response.{
  Answers, Validated, Parsed, validate_response_header-Ensures, handle_inbound-Ensures,
}

unfoldable pub timeouts_in : List Event → ℕ
timeouts_in [] = 0
timeouts_in (timeout cut ∷ es) = suc (timeouts_in es)
timeouts_in (packet kind payload ∷ es) = timeouts_in es
timeouts_in (nil_packet ∷ es) = timeouts_in es
timeouts_in (closed ∷ es) = timeouts_in es
timeouts_in (cancelled ∷ es) = timeouts_in es

-- A wait that goes on: each timeout retransmitted the checkpoint, there were no more of them than
-- the limit, and the delay keeps to its limit. Nothing else changed.
pub record GoesOn (t : Timeouts) (w : Waiting) (es : List Event) (w' : Waiting) : Type 0 where
  pub counted : w'.retries ≡ w.retries + timeouts_in es
  pub limited : (w'.retries ≡ w.retries) ⊎ (w'.retries ≤ t.max_retries)
  pub delay : (w'.rto ≡ w.rto) ⊎ (w'.rto ≤ t.max_rto)
  pub kept : w'.state.outbound_request ≡ w.state.outbound_request
  pub same_spi :
      (w'.state.initiator_spi ≡ w.state.initiator_spi)
      × (w'.state.responder_spi ≡ w.state.responder_spi)

unfoldable pub Received : List Event → Message → Type 0
Received [] msg = ⊥
Received (packet kind payload ∷ es) msg = (parse_message payload ≡ ok msg) ⊎ Received es msg
Received (nil_packet ∷ es) msg = Received es msg
Received (closed ∷ es) msg = Received es msg
Received (timeout cut ∷ es) msg = Received es msg
Received (cancelled ∷ es) msg = Received es msg

-- A wait that is answered: the message was received, its header answers the request, and the state
-- has the request completed.
pub record AnsweredBy (w : Waiting) (exchange msg_id : ℕ) (es : List Event) (w' : Waiting)
    (msg : Message) : Type 0 where
  pub answers : Answers w.state exchange msg_id msg.header
  pub received : Received es msg
  pub completed :
      (w'.state.last_completed_response_message_id ≡ msg_id)
      × (w'.state.has_last_completed_response ≡ true)
  pub expectation : w'.state.has_expected_response ≡ false
  pub checkpoint : w'.state.outbound_request ≡ none

abbrev pub StepOf : Timeouts → ℕ → ℕ → Waiting → List Event → Step → Type 0
StepOf t exchange msg_id w es (goes_on w') = GoesOn t w es w'
StepOf t exchange msg_id w es (answered w' msg) = AnsweredBy w exchange msg_id es w' msg
StepOf t exchange msg_id w es (fails w' e) = (w'.retries ≤ w.retries) ⊎ (w'.retries ≤ t.max_retries)

pub unchanged :
    (t : Timeouts) (w : Waiting) (es : List Event) → timeouts_in es ≡ 0 → GoesOn t w es w
unchanged t w es z = record {
  counted = omega (arith, z);
  limited = inl refl;
  delay = inl refl;
  kept = refl;
  same_spi = (refl, refl);
}

accept_response-Ensures :
    (t : Timeouts) (w : Waiting) (exchange msg_id : ℕ) (es : List Event) (msg : Message)
    (m : Outcome ExchangeError ExchangeState)
    → Received es msg
    → Ensures (Validated w.state exchange msg_id msg.header) m
    → Ensures (StepOf t exchange msg_id w es) (accept_response w exchange msg_id msg m)
unfolding accept_response complete
accept_response-Ensures t w exchange msg_id es msg panic r k = k
accept_response-Ensures t w exchange msg_id es msg (err e) r k = inl (omega arith)
accept_response-Ensures t w exchange msg_id es msg (ok s) r k = record {
  answers = k.0;
  received = r;
  completed = (refl, refl);
  expectation = refl;
  checkpoint = refl;
}

take_response-Ensures :
    (t : Timeouts) (w : Waiting) (exchange msg_id : ℕ) (kind : Kind) (payload : List ℕ)
    (m : Outcome ExchangeError (Option Message))
    → Ensures (Parsed payload) m
    → Ensures
        (StepOf t exchange msg_id w (packet kind payload ∷ []))
        (take_response w exchange msg_id m)
unfolding take_response timeouts_in Received
take_response-Ensures t w exchange msg_id kind payload panic k = k
take_response-Ensures t w exchange msg_id kind payload (err e) k = inl (omega arith)
take_response-Ensures t w exchange msg_id kind payload (ok none) k =
    unchanged t w (packet kind payload ∷ []) refl
take_response-Ensures t w exchange msg_id kind payload (ok (some msg)) k =
    accept_response-Ensures t w exchange msg_id (packet kind payload ∷ []) msg
      (validate_response_header w.state msg.header exchange msg_id) (inl k)
      (validate_response_header-Ensures w.state msg.header exchange msg_id)

capped : (m d : ℕ) → (if ltb m d then m else d) ≤ m
capped m d = elim (Bool-cases (ltb m d)) [
  | inl over ↦ rw over (omega arith)
  | inr under ↦ rw under (ltb→ge m d under)
]

resent :
    (t : Timeouts) (w : Waiting) (cut : Option ℕ) (frames : List (List ℕ))
    → w.retries < t.max_retries
    → GoesOn t w (timeout cut ∷ []) (record {
      state = record w.state { has_fragments = false };
      rto = if ltb t.max_rto (w.rto * 2) then t.max_rto else w.rto * 2;
      retries = w.retries + 1;
      sent = w.sent ++ frames;
    })
unfolding timeouts_in
resent t w cut frames h = record {
  counted = refl;
  limited = inr (omega arith);
  delay = inr (capped t.max_rto (w.rto * 2));
  kept = refl;
  same_spi = (refl, refl);
}

resend_lem :
    (t : Timeouts) (w : Waiting) (exchange msg_id : ℕ) (frames : List (List ℕ)) (cut : Option ℕ)
    → w.retries < t.max_retries
    → StepOf t exchange msg_id w (timeout cut ∷ []) (resend t w frames cut)
unfolding resend write_frames
resend_lem t w exchange msg_id frames none h = resent t w none frames h
resend_lem t w exchange msg_id frames (some k) h = elim (Bool-cases (ltb k (length frames))) [
  | inl short ↦ rw short (inr (omega arith))
  | inr whole ↦ rw whole (resent t w (some k) frames h)
]

retransmit_lem :
    (t : Timeouts) (w : Waiting) (exchange msg_id : ℕ) (cut : Option ℕ) (o : Option Checkpoint)
    → StepOf t exchange msg_id w (timeout cut ∷ []) (retransmit_checkpoint t w cut o)
unfolding retransmit_checkpoint
retransmit_lem t w exchange msg_id cut none = inl (omega arith)
retransmit_lem t w exchange msg_id cut (some c) =
    elim (Bool-cases (c.message_id == w.state.expected_response_message_id)) [
      | inr other ↦ rw other (inl (omega arith))
      | inl mine ↦ elim (Bool-cases (leb t.max_retries w.retries)) [
        | inl over ↦ rw (mine, over) (inl (omega arith))
        | inr left ↦
            rw (mine, left) (resend_lem t w exchange msg_id c.packets cut (ground (arith, left)))
      ]
    ]

-- The packets among the events are bytes.
unfoldable pub AreBytes : Event → Type 0
AreBytes (packet kind payload) = All IsByte payload
AreBytes nil_packet = Unit
AreBytes closed = Unit
AreBytes (timeout cut) = Unit
AreBytes cancelled = Unit

pub wait_step-Ensures :
    (t : Timeouts) (exchange msg_id : ℕ) (w : Waiting) (e : Event)
    → AreBytes e
    → Ensures (StepOf t exchange msg_id w (e ∷ [])) (wait_step t exchange msg_id w e)
unfolding wait_step AreBytes timeouts_in
wait_step-Ensures t exchange msg_id w (packet kind payload) b =
    take_response-Ensures t w exchange msg_id kind payload
      (handle_inbound w.state kind payload msg_id)
      (handle_inbound-Ensures w.state kind payload msg_id b)
wait_step-Ensures t exchange msg_id w nil_packet b = unchanged t w (nil_packet ∷ []) refl
wait_step-Ensures t exchange msg_id w closed b = inl (omega arith)
wait_step-Ensures t exchange msg_id w (timeout cut) b =
    retransmit_lem t w exchange msg_id cut w.state.outbound_request
wait_step-Ensures t exchange msg_id w cancelled b = inl (omega arith)
