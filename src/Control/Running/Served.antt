-- ===== src/Control/Running/Served.antt =====
-- What a run of requests to a running SA builds and sends.
use mathlib.Core.Path.{subst}
use swan.Common.{◌≡◌, sym, List, [], ◌∷◌, ◌++◌, append_assoc, append-nil, All}
use swan.Common.Outcome.{Outcome, ok, err, panic}
use swan.Control.Protected.{IkeCrypto}
use swan.Control.Running.{
  RunningError, RunningState, CachedResponse, RunningRequest, Reply, ignored, resent, answered,
  shut_down, RunningStep, process_request,
}
use swan.Control.Running.History.{entry_of, Rising, Has, last4, Has-append, Has-last}

-- What a run of requests did: the responses that it built, and those that it sent.
pub record Served : Type 0 where
  pub built : List CachedResponse
  pub sent : List CachedResponse

-- A reply in front of what the rest of the run does; a shutdown ends the run.
abbrev pub with_reply : RunningRequest → Outcome RunningError Reply → Served → Served
with_reply r (ok ignored) rest = rest
with_reply r (ok (resent f)) rest = record { built = rest.built; sent = entry_of r f ∷ rest.sent }
with_reply r (ok (answered f)) rest = record {
  built = entry_of r f ∷ rest.built;
  sent = entry_of r f ∷ rest.sent;
}
with_reply r (ok (shut_down f)) rest = record {
  built = entry_of r f ∷ [];
  sent = entry_of r f ∷ [];
}
with_reply r (err e) rest = rest
with_reply r panic rest = rest

unfoldable pub serve_all : IkeCrypto → RunningState → List RunningRequest → Served
serve_all c s [] = record { built = []; sent = [] }
serve_all c s (r ∷ rs) =
    let step = process_request c s r in with_reply r step.1 (serve_all c step.0 rs)

-- The history holds the last four of all the responses built.
abbrev pub Keeps : List CachedResponse → RunningState → Type 0
Keeps all s = (s.inbound_history ≡ last4 all) × Rising all

-- What a run shows of the responses built before it.
abbrev pub IsOnce : List CachedResponse → Served → Type 0
IsOnce all o = Rising (all ++ o.built) × All (λ a. Has a (all ++ o.built)) o.sent

pub IsOnce-none :
    (all : List CachedResponse) → Rising all → IsOnce all (record { built = []; sent = [] })
IsOnce-none all r = (subst Rising (sym (append-nil all)) r, tt)

-- What one request does to the history.
abbrev pub StepOf : List CachedResponse → RunningRequest → RunningStep → Type 0
StepOf all r (s, ok ignored) = Keeps all s
StepOf all r (s, ok (resent f)) = Keeps all s × Has (entry_of r f) all
StepOf all r (s, ok (answered f)) = Keeps (all ++ (entry_of r f ∷ [])) s
StepOf all r (s, ok (shut_down f)) = Rising (all ++ (entry_of r f ∷ []))
StepOf all r (s, err e) = Keeps all s
StepOf all r (s, panic) = Keeps all s

pub with_reply-IsOnce :
    (all : List CachedResponse) (r : RunningRequest) (st : RunningStep) (rest : Served)
    → StepOf all r st
    → ((all' : List CachedResponse) → Keeps all' st.0 → IsOnce all' rest)
    → IsOnce all (with_reply r st.1 rest)
with_reply-IsOnce all r (s, ok ignored) rest k ih = ih all k
with_reply-IsOnce all r (s, ok (resent f)) rest (k, h) ih =
    let (rising, has) = ih all k in (rising, (Has-append (entry_of r f) all rest.built h, has))
with_reply-IsOnce all r (s, ok (answered f)) rest k ih =
    let e = entry_of r f in
    let (rising, has) = ih (all ++ (e ∷ [])) k in
    let moved = append_assoc all (e ∷ []) rest.built in
    (
      subst Rising moved rising,
      (
        subst (Has e) moved (Has-append e (all ++ (e ∷ [])) rest.built (Has-last all e)),
        subst (λ t. All (λ a. Has a t) rest.sent) moved has,
      ),
    )
with_reply-IsOnce all r (s, ok (shut_down f)) rest k ih = (k, (Has-last all (entry_of r f), tt))
with_reply-IsOnce all r (s, err e) rest k ih = ih all k
with_reply-IsOnce all r (s, panic) rest k ih = ih all k
