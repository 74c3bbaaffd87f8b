-- ===== src/Control/Protected/Prefix.antt =====
-- The packet in front of the IV: what `sealProtectedEnvelope` writes, and its lengths.
use swan.Common.{ℕ, ◌+◌, ◌≤◌, ◌≡◌, refl, arith, ltb, List, [], ◌∷◌, ◌++◌, length, Option, ltb→ge}
use swan.Common.Bits.{byte_at}
use swan.Common.Outcome.{Ensures, reject-Ensures}
use swan.Wire.Be.Laws.{put_uint16_append, put_uint32_ok}
use swan.Wire.Header.{Header, SkfHeader, marshal_to}
use swan.Control.Protected.{
  ProtectedError, IkeEnvelope, Outgoing, fragment_bytes, unpatched_header, seal_prefix,
}

abbrev pub payload_head : ℕ → ℕ → List ℕ
payload_head inner_next len = inner_next ∷ 0 ∷ byte_at len 8 ∷ byte_at len 0 ∷ []

-- The header of a packet with `n` bytes behind its prefix.
abbrev pub sealed_header : IkeEnvelope → Outgoing → ℕ → Option SkfHeader → ℕ → Header
sealed_header env o enc_type frag n = record (unpatched_header env o enc_type) {
  length = 32 + length (fragment_bytes frag) + n;
}

abbrev pub sealed_prefix : IkeEnvelope → Outgoing → ℕ → ℕ → Option SkfHeader → ℕ → List ℕ
sealed_prefix env o enc_type inner_next frag n =
    marshal_to (sealed_header env o enc_type frag n) []
    ++ (payload_head inner_next (4 + length (fragment_bytes frag) + n) ++ fragment_bytes frag)

pub seal_prefix-Ensures :
    (env : IkeEnvelope) (o : Outgoing) (enc_type inner_next : ℕ) (frag : Option SkfHeader) (n : ℕ)
    → Ensures
        (λ (p : List ℕ).
          (p ≡ sealed_prefix env o enc_type inner_next frag n)
          × (4 + length (fragment_bytes frag) + n ≤ 0xffff))
        (seal_prefix env o enc_type inner_next frag n)
unfolding seal_prefix marshal_to
seal_prefix-Ensures env o enc_type inner_next frag n =
    let Q = λ (p : List ℕ).
      (p ≡ sealed_prefix env o enc_type inner_next frag n)
      × (4 + length (fragment_bytes frag) + n ≤ 0xffff) in
    let fb = fragment_bytes frag in
    let hdr = marshal_to (unpatched_header env o enc_type) [] in
    let pkt : List ℕ = hdr ++ (inner_next ∷ 0 ∷ 0 ∷ 0 ∷ fb) in
    let plen = 4 + length fb + n in
    reject-Ensures Q (ltb 0xffff plen) _ _ λ short.
      reject-Ensures Q (ltb 0xffffffff (length pkt + n)) _ _ λ _.
        let area : List ℕ = inner_next ∷ 0 ∷ 0 ∷ 0 ∷ fb in
        let patched : List ℕ = hdr ++ (payload_head inner_next plen ++ fb) in
        let l : length pkt + n ≡ 32 + length fb + n = omega arith in
        rw
          (
            l,
            put_uint16_append {E = ProtectedError} hdr area 2 30 plen (omega arith) (omega arith),
            put_uint32_ok {E = ProtectedError} patched 24 (32 + length fb + n) (omega arith),
          )
          (refl, ltb→ge 0xffff plen short)
