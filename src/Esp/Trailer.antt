-- ===== src/Esp/Trailer.antt =====
-- The ESP trailer: the padding that is put behind a packet and taken off again.
use native.Mathlib.Nat.{mod-lt, mod_self, add-mod-mod, mod-add-mod, mod-eq_of_lt}
use swan.Common.{
  ℕ, zero, suc, ◌+◌, ◌-◌, ◌%◌, ◌≤◌, ◌<◌, ◌≡◌, ◌⊎◌, refl, sym, ap, ◌∙◌, arith, List, [], ◌∷◌, ◌++◌,
  length, take, ne→==, le→ltb, append_assoc, get_or, length-append, get_or-append,
  take-append_length,
}
use swan.Common.Outcome.{ok, >>=-ok, reject-ok, index_ok, slice_ok}
use swan.Esp.Errors.{EspError}
use swan.Esp.Suite.{EncryptionAlg}
use swan.Esp.Inbound.{strip_trailer}
use swan.Esp.Outbound.{pad_bytes, pad_len_of, pad_plain}

pub length-pad_bytes : (n i : ℕ) → length (pad_bytes n i) ≡ n
unfolding pad_bytes
length-pad_bytes zero i = refl
length-pad_bytes (suc n) i = ap suc (length-pad_bytes n (suc i))

pad_len_of-lt : (b n : ℕ) → 1 ≤ b → pad_len_of b n < b
unfolding pad_len_of
pad_len_of-lt b n h = mod-lt (b - (n + 2) % b) h

-- The text ends at a multiple of the block length.
pad_len_of-aligned : (b n : ℕ) → 1 ≤ b → (n + pad_len_of b n + 2) % b ≡ 0
unfolding pad_len_of
pad_len_of-aligned b n h =
    let r = (n + 2) % b in
    let small : r < b = mod-lt (n + 2) h in
    ap (λ k. k % b) (omega arith)
    ∙ add-mod-mod (n + 2) (b - r) b
    ∙ sym (mod-add-mod (n + 2) b (b - r))
    ∙ ap (λ k. k % b) (omega arith)
    ∙ mod_self b

-- What the trailer of a padded text says is what was put there.
strip_trailer_lem :
    (packet pad : List ℕ) (next_header : ℕ)
    → 1 ≤ length packet
    → (next_header ≡ 4) ⊎ (next_header ≡ 41)
    → strip_trailer (packet ++ (pad ++ (length pad ∷ next_header ∷ []))) ≡ ok packet
unfolding strip_trailer
strip_trailer_lem packet pad nh h v =
    let end : List ℕ = length pad ∷ nh ∷ [] in
    let front : List ℕ = packet ++ pad in
    let plain : List ℕ = packet ++ (pad ++ end) in
    let l : length plain ≡ length packet + length pad + 2 =
      omega (arith, length-append packet (pad ++ end), length-append pad end) in
    let lf : length front ≡ length packet + length pad = length-append packet pad in
    let same : front ++ end ≡ plain = append_assoc packet pad end in
    let n = length plain in
    let e_pad : get_or plain (n - 2) 0 ≡ length pad =
      ap (λ t. get_or t (n - 2) 0) (sym same)
      ∙ get_or-append front end 0 (n - 2) 0 (omega (arith, l, lf)) in
    let e_nh : get_or plain (n - 1) 0 ≡ nh =
      ap (λ t. get_or t (n - 1) 0) (sym same)
      ∙ get_or-append front end 1 (n - 1) 0 (omega (arith, l, lf)) in
    let e_inner : take (n - length pad - 2 - 0) plain ≡ packet =
      take-append_length packet (pad ++ end) (n - length pad - 2 - 0) (omega (arith, l)) in
    reject-ok _ _ _ (le→ltb n 2 (omega (arith, l))) (
      >>=-ok _ _ (index_ok {E = EspError} plain (n - 2) 0 (omega (arith, l)) ∙ ap ok e_pad) (
        >>=-ok _ _ (index_ok {E = EspError} plain (n - 1) 0 (omega (arith, l)) ∙ ap ok e_nh) (
          reject-ok _ _ _ (le→ltb n (length pad + 2) (omega (arith, l))) (
            reject-ok _ _ _ (ground (arith, v)) (
              >>=-ok _ _
                (slice_ok {E = EspError} plain 0 (n - length pad - 2) (omega arith) (omega arith)
                  ∙ ap ok e_inner)
                (reject-ok _ _ _ (ne→== (length packet) 0 (omega arith)) refl))))))

abbrev pub IsBlock : EncryptionAlg → Type 0
IsBlock enc = (1 ≤ enc.block_len) × (enc.block_len ≤ 256)

-- A padded text is whole blocks, and its trailer gives the packet back.
pub pad_plain-strip_trailer :
    (enc : EncryptionAlg) (packet : List ℕ) (next_header : ℕ)
    → IsBlock enc
    → 1 ≤ length packet
    → (next_header ≡ 4) ⊎ (next_header ≡ 41)
    → (plain : List ℕ) × (pad_plain enc packet next_header ≡ ok plain)
      × (strip_trailer plain ≡ ok packet)
      × (length plain % enc.block_len ≡ 0)
unfolding pad_plain
pad_plain-strip_trailer enc packet nh (b1, b256) h v =
    let n = pad_len_of enc.block_len (length packet) in
    let pad = pad_bytes n 1 in
    let lp : length pad ≡ n = length-pad_bytes n 1 in
    let small : n < enc.block_len = pad_len_of-lt enc.block_len (length packet) b1 in
    let same : n % 256 ≡ length pad = mod-eq_of_lt (omega arith) ∙ sym lp in
    let plain : List ℕ = packet ++ (pad ++ (length pad ∷ nh ∷ [])) in
    let l : length plain ≡ length packet + n + 2 = omega (
      arith,
      length-append packet (pad ++ (length pad ∷ nh ∷ [])),
      length-append pad (length pad ∷ nh ∷ []),
      lp,
    ) in
    (
      plain,
      rw (ne→== enc.block_len 0 (omega arith), same) refl,
      strip_trailer_lem packet pad nh h v,
      ap (λ k. k % enc.block_len) l ∙ pad_len_of-aligned enc.block_len (length packet) b1,
    )
