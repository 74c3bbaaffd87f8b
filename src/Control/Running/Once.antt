-- ===== src/Control/Running/Once.antt =====
-- Each request to a running SA takes effect once, and is answered alike each time.
use swan.Common.{◌≡◌, List}
use swan.Common.Outcome.{Outcome, ok, err, panic}
use swan.Wire.Message.{Payload}
use swan.Control.Running.{RunningError, CachedResponse, Handled}

-- The handling of payloads leaves the history alone.
abbrev Leaves : List CachedResponse → Outcome RunningError Handled → Type 0
Leaves h (ok (s, a, b)) = s.inbound_history ≡ h
Leaves h (err e) = Unit
Leaves h panic = Unit
