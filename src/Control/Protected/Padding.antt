-- ===== src/Control/Protected/Padding.antt =====
-- The padding of a protected plaintext is taken off again.
use native.Mathlib.Nat.{mod-lt, mod-eq_of_lt}
use swan.Common.{
  ℕ, ◌+◌, ◌-◌, ◌%◌, ◌≤◌, ◌<◌, ◌≡◌, sym, ap, ◌∙◌, arith, List, [], ◌∷◌, ◌++◌, length, take, not,
  ne→==, lt→ltb, append_assoc, get_or, length-append, get_or-append, take-append_length,
}
use swan.Common.Outcome.{ok, >>=-ok, reject-ok, index_ok, slice_ok}
use swan.Esp.Suite.{EncryptionAlg}
use swan.Esp.Outbound.{pad_bytes}
use swan.Esp.Trailer.{length-pad_bytes}
use swan.Control.Protected.{
  ProtectedError, pad_block, ike_pad_len, pad_ike_plaintext, strip_ike_plaintext,
}

pub ike_pad_len-lt : (b n : ℕ) → 1 ≤ b → ike_pad_len b n < b
unfolding ike_pad_len
ike_pad_len-lt b n h = mod-lt (b - (n + 1) % b) h

strip_padded :
    (plain pad : List ℕ) → strip_ike_plaintext (plain ++ (pad ++ (length pad ∷ []))) ≡ ok plain
unfolding strip_ike_plaintext
strip_padded plain pad =
    let end : List ℕ = length pad ∷ [] in
    let all : List ℕ = plain ++ (pad ++ end) in
    let l : length all ≡ length plain + length pad + 1 =
      omega (arith, length-append plain (pad ++ end), length-append pad end) in
    let e_pad : get_or all (length all - 1) 0 ≡ length pad =
      ap (λ t. get_or t (length all - 1) 0) (sym (append_assoc plain pad end))
      ∙ get_or-append (plain ++ pad) end 0 (length all - 1) 0
          (omega (arith, l, length-append plain pad)) in
    let e_plain : take (length all - 1 - length pad - 0) all ≡ plain =
      take-append_length plain (pad ++ end) (length all - 1 - length pad - 0) (omega (arith, l)) in
    reject-ok _ _ _ (ne→== (length all) 0 (omega (arith, l))) (
      >>=-ok _ _
        (index_ok {E = ProtectedError} all (length all - 1) 0 (omega (arith, l)) ∙ ap ok e_pad)
        (reject-ok _ _ _ (ap not (lt→ltb (length pad) (length all) (omega (arith, l)))) (
          slice_ok {E = ProtectedError} all 0 (length all - 1 - length pad) (omega arith)
            (omega arith)
          ∙ ap ok e_plain)))

block_fits : (enc : EncryptionAlg) → enc.block_len ≤ 256 → pad_block enc ≤ 256
block_fits enc h = ground arith

-- A padded plaintext strips to what it was, for a block of at most 256 bytes.
pub strip_ike_plaintext-pad :
    (enc : EncryptionAlg) (plain : List ℕ)
    → enc.block_len ≤ 256
    → strip_ike_plaintext (pad_ike_plaintext enc plain) ≡ ok plain
unfolding pad_ike_plaintext
strip_ike_plaintext-pad enc plain b =
    let n = ike_pad_len (pad_block enc) (length plain) in
    let pos : 1 ≤ pad_block enc = ground arith in
    let small : n < 256 =
      omega (arith, ike_pad_len-lt (pad_block enc) (length plain) pos, block_fits enc b) in
    rw (mod-eq_of_lt small ∙ sym (length-pad_bytes n 1)) (strip_padded plain (pad_bytes n 1))
