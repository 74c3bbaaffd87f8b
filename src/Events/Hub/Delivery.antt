-- ===== src/Events/Hub/Delivery.antt =====
-- What holds of the hub and its streams after any steps of the goroutines.
use swan.Common.{ℕ}
use swan.Events.Hub.{Hub, new_hub}

abbrev pub queue_of : ℕ → ℕ → ℕ
queue_of queue replay = (new_hub queue replay).queue
