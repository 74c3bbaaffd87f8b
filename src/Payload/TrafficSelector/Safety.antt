-- ===== src/Payload/TrafficSelector/Safety.antt =====
-- The TS parser on any input: it returns, with no panic.
use swan.Common.{ℕ, ◌+◌, ◌≤◌, ◌≡◌, false, not, ◌&&◌, List, length, ◌==◌}
use swan.Common.Outcome.{Outcome}
use swan.Payload.Ip.{compare_ip, is_gt}
use swan.Payload.TrafficSelector.{Selector}

-- An accepted selector covers any protocol, its ports are in order, and so are its addresses.
abbrev pub IsOrdered : Selector → Type 0
IsOrdered s =
    (s.protocol_id ≡ 0)
    × (s.start_port ≤ s.end_port)
    × ((not (length s.start_addr == 0) && is_gt (compare_ip s.start_addr s.end_addr)) ≡ false)

abbrev pub SelectorOf : List ℕ → Selector × List ℕ → Type 0
SelectorOf b (s, tail) = IsOrdered s × (length tail + 16 ≤ length b)

abbrev IsWidth : ℕ → Type 0
IsWidth w = (4 ≤ w) × (w ≤ 16)
