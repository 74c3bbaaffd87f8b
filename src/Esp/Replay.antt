-- ===== src/Esp/Replay.antt =====
-- The anti-replay window of RFC 4303: esp/replay.go. `highest` is a uint32 and `bitmap` a uint64.
pub mod Moves
pub mod Refinement
use swan.Common.{ℕ, ◌-◌, ltb, leb, ◌==◌, if◌then◌else◌, Bool, true, false, not, bit_and, bit_or}
use swan.Common.{List, [], ◌∷◌}
use swan.Common.Bits.{shl}

pub record ReplayWindow : Type 0 where
  pub highest : ℕ
  pub bitmap : ℕ

-- The branch for a sequence number above the highest one.
unfoldable pub advance : ℕ → ReplayWindow → ReplayWindow
advance seq w =
    let delta = seq - w.highest in
    record { highest = seq; bitmap = if leb 64 delta then 1 else bit_or (shl 64 w.bitmap delta) 1 }

-- The branch for a sequence number at or below the highest one.
unfoldable pub check_old : ℕ → ReplayWindow → ReplayWindow × Bool
check_old seq w =
    let delta = w.highest - seq in
    let mask = shl 64 1 delta in
    if leb 64 delta
    then (w, false)
    else if not (bit_and w.bitmap mask == 0)
    then (w, false)
    else (record w { bitmap = bit_or w.bitmap mask }, true)

unfoldable pub accept : ℕ → ReplayWindow → ReplayWindow × Bool
accept seq w =
    if seq == 0
    then (w, false)
    else if w.highest == 0
    then (record { highest = seq; bitmap = 1 }, true)
    else if ltb w.highest seq
    then (advance seq w, true)
    else check_old seq w

abbrev pub reset : ReplayWindow
reset = record { highest = 0; bitmap = 0 }

-- The answers to a sequence of packets.
unfoldable pub accept_all : List ℕ → ReplayWindow → List Bool
accept_all [] w = []
accept_all (seq ∷ seqs) w = let (w', b) = accept seq w in b ∷ accept_all seqs w'
