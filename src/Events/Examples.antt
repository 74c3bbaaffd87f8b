-- ===== src/Events/Examples.antt =====
-- The event hub at concrete steps.
use swan.Common.{[], Option, none, some}
use swan.Events.Event.{Event, event_started, stage_running}
use swan.Events.Hub.{subscribe_request, Hub, new_hub, push_request, emit, dispatch, handle_request}

abbrev started : Event
started = record {
  kind = event_started;
  stage = stage_running;
  alg = record { protocol = []; encryption = []; integrity = []; prf = []; dh = [] };
  eap = record { method = []; state = []; round = 0 };
  assigned = record {
    internal_ipv4 = [];
    internal_ipv6 = [];
    internal_ipv6_prefix = 0;
    dns4 = [];
    dns6 = [];
    address_expiry_seconds = 0;
  };
  reason = [];
}

-- A subscription, an event, both handled, and the event read.
abbrev asked : Hub
asked = push_request (subscribe_request 7) (new_hub 1 2)

abbrev answered : Hub
answered = of_some (handle_request (subscribe_request 7) (record asked { mailbox = [] }))
  where
    of_some : Option Hub → Hub
    of_some none = asked
    of_some (some h) = h

abbrev told : Hub
told = emit started answered

abbrev dispatched : Hub
dispatched = dispatch started (record told { mailbox = [] })
