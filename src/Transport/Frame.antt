-- ===== src/Transport/Frame.antt =====
-- The classification of NAT-T payloads: `Classify` of transport/frame.go.
use swan.Common.{ℕ, leb, ◌==◌, if◌then◌else◌, Bool, true, false, ◌&&◌, List, [], ◌∷◌, length, take}

pub data Kind : Type 0 where
  kind_ike : Kind
  kind_esp : Kind
  kind_keepalive : Kind

unfoldable pub zeros : List ℕ → Bool
zeros [] = true
zeros (v ∷ vs) = v == 0 && zeros vs

abbrev is_ff : List ℕ → Bool
is_ff [] = false
is_ff (x ∷ xs) = x == 0xff

unfoldable pub classify : List ℕ → Kind
classify payload =
    if length payload == 1 && is_ff payload
    then kind_keepalive
    else if leb 4 (length payload) && zeros (take 4 payload)
    then kind_ike
    else kind_esp
