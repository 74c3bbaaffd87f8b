-- ===== src/Control/Exchange/Wait.antt =====
-- What a wait for a response ends in: the right response, or a bounded number of retransmissions.
use swan.Common.{ℕ, ◌+◌, ◌<◌, ◌≡◌, inl, inr, refl, sym, ◌∙◌, arith, List, [], ◌∷◌, All}
use swan.Common.Outcome.{Ensures, >>=-Ensures, Ensures-mono}
use swan.Wire.Header.{Header}
use swan.Wire.Message.{Message}
use swan.Control.Exchange.{
  start_waiting, ExchangeState, Waiting, Timeouts, Event, Step, packet, nil_packet, closed, timeout,
  cancelled, goes_on, answered, fails, wait_step, wait_response, carry_on,
}
use swan.Control.Exchange.Response.{Answers}
use swan.Control.Exchange.WaitStep.{
  timeouts_in, GoesOn, Received, StepOf, unchanged, AreBytes, wait_step-Ensures,
}

timeouts-cons :
    (e : Event) (es : List Event) → timeouts_in (e ∷ es) ≡ timeouts_in (e ∷ []) + timeouts_in es
unfolding timeouts_in
timeouts-cons (packet kind payload) es = omega arith
timeouts-cons nil_packet es = omega arith
timeouts-cons closed es = omega arith
timeouts-cons (timeout cut) es = omega arith
timeouts-cons cancelled es = omega arith

Received-cons :
    (e : Event) (es : List Event) (msg : Message) → Received es msg → Received (e ∷ es) msg
unfolding Received
Received-cons (packet kind payload) es msg r = inr r
Received-cons nil_packet es msg r = r
Received-cons closed es msg r = r
Received-cons (timeout cut) es msg r = r
Received-cons cancelled es msg r = r

Received-one :
    (e : Event) (es : List Event) (msg : Message) → Received (e ∷ []) msg → Received (e ∷ es) msg
unfolding Received
Received-one (packet kind payload) es msg (inl r) = inl r
Received-one (packet kind payload) es msg (inr r) = absurd r
Received-one nil_packet es msg r = absurd r
Received-one closed es msg r = absurd r
Received-one (timeout cut) es msg r = absurd r
Received-one cancelled es msg r = absurd r

-- An answer to the state behind one event is an answer to the state before it.
Answers-before :
    (t : Timeouts) (w w1 : Waiting) (e : Event) (exchange msg_id : ℕ) (h : Header)
    → GoesOn t w (e ∷ []) w1
    → Answers w1.state exchange msg_id h
    → Answers w.state exchange msg_id h
Answers-before t w w1 e exchange msg_id h g a = record {
  initiator = a.initiator ∙ g.same_spi.0;
  responder = elim a.responder [
    | inl z ↦ inl (sym g.same_spi.1 ∙ z)
    | inr r ↦ inr (r ∙ g.same_spi.1)
  ];
  exchange_type = a.exchange_type;
  message_id = a.message_id;
  response = a.response;
  version = a.version;
}

StepOf-cons :
    (t : Timeouts) (exchange msg_id : ℕ) (w w1 : Waiting) (e : Event) (es : List Event)
    (step : Step)
    → GoesOn t w (e ∷ []) w1
    → StepOf t exchange msg_id w1 es step
    → StepOf t exchange msg_id w (e ∷ es) step
StepOf-cons t exchange msg_id w w1 e es (goes_on w2) g k = record {
  counted = omega (arith, g.counted, k.counted, timeouts-cons e es);
  limited = ground (arith, g.limited, k.limited);
  delay = ground (arith, g.delay, k.delay);
  kept = k.kept ∙ g.kept;
  same_spi = (k.same_spi.0 ∙ g.same_spi.0, k.same_spi.1 ∙ g.same_spi.1);
}
StepOf-cons t exchange msg_id w w1 e es (answered w2 msg) g k = record {
  answers = Answers-before t w w1 e exchange msg_id msg.header g k.answers;
  received = Received-cons e es msg k.received;
  completed = k.completed;
  expectation = k.expectation;
  checkpoint = k.checkpoint;
}
StepOf-cons t exchange msg_id w w1 e es (fails w2 x) g k = ground (arith, g.limited, k)

carry_on-Ensures :
    (t : Timeouts) (exchange msg_id : ℕ) (w : Waiting) (e : Event) (es : List Event) (step : Step)
    → ((w' : Waiting)
        → Ensures (StepOf t exchange msg_id w' es) (wait_response t exchange msg_id w' es))
    → StepOf t exchange msg_id w (e ∷ []) step
    → Ensures
        (StepOf t exchange msg_id w (e ∷ es))
        (carry_on (λ w'. wait_response t exchange msg_id w' es) step)
carry_on-Ensures t x m w e es (goes_on w') later k =
    Ensures-mono (StepOf t x m w' es) (StepOf t x m w (e ∷ es)) (wait_response t x m w' es)
      (later w') λ step l. StepOf-cons t x m w w' e es step k l
carry_on-Ensures t x m w e es (answered w' msg) later k = record {
  answers = k.answers;
  received = Received-one e es msg k.received;
  completed = k.completed;
  expectation = k.expectation;
  checkpoint = k.checkpoint;
}
carry_on-Ensures t x m w e es (fails w' err') later k = k

pub wait_response-Ensures :
    (t : Timeouts) (exchange msg_id : ℕ) (w : Waiting) (es : List Event)
    → All AreBytes es
    → Ensures (StepOf t exchange msg_id w es) (wait_response t exchange msg_id w es)
unfolding wait_response timeouts_in
wait_response-Ensures t x m w [] b = unchanged t w [] refl
wait_response-Ensures t x m w (e ∷ es) (b, bs) =
    >>=-Ensures (StepOf t x m w (e ∷ [])) (StepOf t x m w (e ∷ es)) (wait_step t x m w e) _
      (wait_step-Ensures t x m w e b)
      λ step k. carry_on-Ensures t x m w e es step (λ w'. wait_response-Ensures t x m w' es bs) k

-- The wait is over.
abbrev pub HasEnded : Step → Type 0
HasEnded (goes_on w) = ⊥
HasEnded (answered w msg) = Unit
HasEnded (fails w e) = Unit

ended :
    (t : Timeouts) (s : ExchangeState) (exchange msg_id : ℕ) (es : List Event) (step : Step)
    → t.max_retries < timeouts_in es
    → StepOf t exchange msg_id (start_waiting t s) es step
    → HasEnded step
unfolding start_waiting
ended t s x m es (goes_on w) h k = ground (arith, h, k.counted, k.limited)
ended t s x m es (answered w msg) h k = tt
ended t s x m es (fails w e) h k = tt

-- A wait from the start on is over, with an answer or an error, when there were more timeouts than
-- `max_retries`, whatever packets of bytes and other events came between them.
pub wait_response-HasEnded :
    (t : Timeouts) (s : ExchangeState) (exchange msg_id : ℕ) (es : List Event)
    → All AreBytes es
    → t.max_retries < timeouts_in es
    → Ensures HasEnded (wait_response t exchange msg_id (start_waiting t s) es)
wait_response-HasEnded t s x m es b h =
    Ensures-mono (StepOf t x m (start_waiting t s) es) HasEnded
      (wait_response t x m (start_waiting t s) es)
      (wait_response-Ensures t x m (start_waiting t s) es b) λ step k. ended t s x m es step h k
