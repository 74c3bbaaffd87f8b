-- ===== src/Payload/Proposal/Encoding.antt =====
-- Transforms and proposals, written and read back.
use swan.Common.{
  ℕ, ◌+◌, ◌-◌, ◌≤◌, ◌<◌, ◌≡◌, refl, sym, ap, ◌∙◌, arith, Bool, true, false, List, [], ◌∷◌, ◌++◌,
  length, take, drop, ◌==◌, if◌then◌else◌, le→ltb, ne→==, append_assoc, append-nil, All,
  length-append, take-append_length, drop-append_length,
}
use swan.Common.Bits.{byte_at}
use swan.Common.Outcome.{ok, slice_ok, slice_from_ok}
use swan.Wire.Be.Laws.{store_append, put_uint16_append, be_uint16-put}
use swan.Payload.Errors.{PayloadError}
use swan.Payload.Proposal.{
  Transform, Proposal, append_transform, parse_transform, transforms_len, append_transforms,
  append_proposal, read_transforms, parse_proposal,
}

abbrev pub transform_len : Transform → ℕ
transform_len t = 8 + length t.attrs

abbrev transform_head : Transform → Bool → List ℕ
transform_head t last =
    (if last then 0 else 3)
    ∷ 0
    ∷ byte_at (transform_len t) 8
    ∷ byte_at (transform_len t) 0
    ∷ t.type
    ∷ 0
    ∷ byte_at t.id 8
    ∷ byte_at t.id 0
    ∷ []

-- A transform, as it stands on the wire.
unfoldable pub encode_transform : Transform → Bool → List ℕ
encode_transform t last = transform_head t last ++ t.attrs

abbrev pub IsTransform : Transform → Type 0
IsTransform t = (t.id < 65536) × (transform_len t ≤ 0xffff)

append_transform_lem :
    (dst : List ℕ) (t : Transform) (last : Bool)
    → IsTransform t
    → append_transform dst t last ≡ ok (dst ++ encode_transform t last)
unfolding append_transform encode_transform
append_transform_lem dst t last h =
    let m : ℕ = if last then 0 else 3 in
    let n = transform_len t in
    rw
      (
        le→ltb 0xffff n h.1,
        store_append {E = PayloadError} dst (0 ∷ 0 ∷ 0 ∷ 0 ∷ t.type ∷ 0 ∷ 0 ∷ 0 ∷ []) 0 (length dst)
            m (omega arith) (omega arith),
        put_uint16_append {E = PayloadError} dst (m ∷ 0 ∷ 0 ∷ 0 ∷ t.type ∷ 0 ∷ 0 ∷ 0 ∷ []) 2
            (length dst + 2) n (omega arith) (omega arith),
        put_uint16_append {E = PayloadError} dst
            (m ∷ 0 ∷ byte_at n 8 ∷ byte_at n 0 ∷ t.type ∷ 0 ∷ 0 ∷ 0 ∷ []) 6 (length dst + 6) t.id
            (omega arith) (omega arith),
      )
      (ap ok (append_assoc dst (transform_head t last) t.attrs))

parse_transform-encode :
    (t : Transform) (last : Bool) (rest : List ℕ)
    → IsTransform t
    → parse_transform (encode_transform t last ++ rest) ≡ ok (t, rest)
unfolding parse_transform encode_transform
parse_transform-encode t last rest h =
    let n = transform_len t in
    let b : List ℕ = encode_transform t last ++ rest in
    let long = length-append t.attrs rest in
    rw
      (
        le→ltb (length b) 8 (omega arith),
        be_uint16-put {E = PayloadError} n [] (omega arith),
        le→ltb n 8 (omega arith),
        le→ltb (length b) n (omega (arith, long)),
        be_uint16-put {E = PayloadError} t.id [] h.0,
        slice_ok {E = PayloadError} b 8 n (omega arith) (omega (arith, long)),
        slice_from_ok {E = PayloadError} b n (omega (arith, long)),
        take-append_length t.attrs rest (n - 8) (omega arith),
        drop-append_length (encode_transform t last) rest n (omega arith),
      )
      refl

-- The transforms of a proposal: every one but the last says that more follow.
unfoldable pub encode_transforms : List Transform → List ℕ
encode_transforms [] = []
encode_transforms (t ∷ ts) = encode_transform t (length ts == 0) ++ encode_transforms ts

append_transforms_lem :
    (dst : List ℕ) (ts : List Transform)
    → All IsTransform ts
    → append_transforms dst ts ≡ ok (dst ++ encode_transforms ts)
unfolding append_transforms encode_transforms
append_transforms_lem dst [] h = ap ok (sym (append-nil dst))
append_transforms_lem dst (t ∷ ts) h =
    let e = encode_transform t (length ts == 0) in
    rw (append_transform_lem dst t (length ts == 0) h.0)
      (append_transforms_lem (dst ++ e) ts h.1 ∙ ap ok (append_assoc dst e (encode_transforms ts)))

-- `left` transforms are still to come, after those in `acc`.
read_transforms-encode :
    (t : Transform) (ts : List Transform) (total : ℕ) (acc : List Transform)
    → All IsTransform (t ∷ ts)
    → read_transforms (length (t ∷ ts)) total (encode_transforms (t ∷ ts)) acc
      ≡ ok (acc ++ (t ∷ ts), [])
unfolding read_transforms encode_transforms encode_transform
read_transforms-encode t [] total acc h =
    let b : List ℕ = encode_transform t true ++ [] in
    rw (le→ltb (length b) 8 (omega arith), parse_transform-encode t true [] h.0) refl
read_transforms-encode t (u ∷ ts) total acc h =
    let rest = encode_transforms (u ∷ ts) in
    let b : List ℕ = encode_transform t false ++ rest in
    rw
      (
        ne→== (length (u ∷ ts)) 0 (omega arith),
        le→ltb (length b) 8 (omega arith),
        parse_transform-encode t false rest h.0,
      )
      (read_transforms-encode u ts total (acc ++ (t ∷ [])) h.1
        ∙ ap (λ x. ok (x, [])) (append_assoc acc (t ∷ []) (u ∷ ts)))

length-encode_transforms : (ts : List Transform) → length (encode_transforms ts) ≡ transforms_len ts
unfolding encode_transforms transforms_len encode_transform
length-encode_transforms [] = refl
length-encode_transforms (t ∷ ts) =
    omega (arith, length-append t.attrs (encode_transforms ts), length-encode_transforms ts)

abbrev pub proposal_len : Proposal → ℕ
proposal_len p = 8 + length p.spi + transforms_len p.transforms

-- A proposal that the code can send: what `AppendProposal` does not refuse, and at least one transform.
pub record IsProposal (p : Proposal) : Type 0 where
  pub spi : length p.spi ≤ 255
  pub transforms : All IsTransform p.transforms
  pub some_transform : 1 ≤ length p.transforms
  pub count : length p.transforms ≤ 255
  pub total : proposal_len p ≤ 0xffff

abbrev proposal_head : Proposal → Bool → List ℕ
proposal_head p more =
    (if more then 2 else 0)
    ∷ 0
    ∷ byte_at (proposal_len p) 8
    ∷ byte_at (proposal_len p) 0
    ∷ p.num
    ∷ p.protocol_id
    ∷ length p.spi
    ∷ length p.transforms
    ∷ []

unfoldable pub encode_proposal : Proposal → Bool → List ℕ
encode_proposal p more = proposal_head p more ++ (p.spi ++ encode_transforms p.transforms)

pub append_proposal_lem :
    (dst : List ℕ) (p : Proposal) (more : Bool)
    → IsProposal p
    → append_proposal dst p more ≡ ok (dst ++ encode_proposal p more)
unfolding append_proposal encode_proposal
append_proposal_lem dst p more h =
    let m : ℕ = if more then 2 else 0 in
    let n = proposal_len p in
    let s = length p.spi in
    let c = length p.transforms in
    rw
      (
        le→ltb 255 s h.spi,
        le→ltb 255 c h.count,
        le→ltb 0xffff n h.total,
        store_append {E = PayloadError} dst (0 ∷ 0 ∷ 0 ∷ 0 ∷ p.num ∷ p.protocol_id ∷ s ∷ c ∷ []) 0
            (length dst) m (omega arith) (omega arith),
        put_uint16_append {E = PayloadError} dst
            (m ∷ 0 ∷ 0 ∷ 0 ∷ p.num ∷ p.protocol_id ∷ s ∷ c ∷ []) 2 (length dst + 2) n (omega arith)
            (omega arith),
        append_transforms_lem ((dst ++ proposal_head p more) ++ p.spi) p.transforms h.transforms,
      )
      (ap ok (
        append_assoc (dst ++ proposal_head p more) p.spi (encode_transforms p.transforms)
        ∙ append_assoc dst (proposal_head p more) (p.spi ++ encode_transforms p.transforms)))

read_whole :
    (ts : List Transform)
    → All IsTransform ts
    → 1 ≤ length ts
    → read_transforms (length ts) (length ts) (encode_transforms ts) [] ≡ ok (ts, [])
read_whole [] h k = absurd (omega arith)
read_whole (t ∷ ts) h k = read_transforms-encode t ts (length (t ∷ ts)) [] h

pub parse_proposal-encode :
    (p : Proposal) (more : Bool) (rest : List ℕ)
    → IsProposal p
    → parse_proposal (encode_proposal p more ++ rest) ≡ ok (p, rest)
unfolding parse_proposal encode_proposal
parse_proposal-encode p more rest h =
    let n = proposal_len p in
    let s = length p.spi in
    let body = p.spi ++ encode_transforms p.transforms in
    let b : List ℕ = encode_proposal p more ++ rest in
    let l1 = length-append p.spi (encode_transforms p.transforms) in
    let l2 = length-append body rest in
    let l3 = length-encode_transforms p.transforms in
    let enc = encode_transforms p.transforms in
    let e_b : b ≡ (proposal_head p more ++ p.spi) ++ (enc ++ rest) =
      ap (λ t. proposal_head p more ++ t) (append_assoc p.spi enc rest) in
    let e_spi : take (8 + s - 8) (body ++ rest) ≡ p.spi =
      ap (take (8 + s - 8)) (append_assoc p.spi enc rest)
      ∙ take-append_length p.spi (enc ++ rest) (8 + s - 8) (omega arith) in
    let e_drop : drop (8 + s) b ≡ enc ++ rest =
      ap (drop (8 + s)) e_b
      ∙ drop-append_length (proposal_head p more ++ p.spi) (enc ++ rest) (8 + s) (omega arith) in
    let e_rest : take (n - (8 + s)) (drop (8 + s) b) ≡ enc =
      ap (take (n - (8 + s))) e_drop
      ∙ take-append_length enc rest (n - (8 + s)) (omega (arith, l3)) in
    let e_tail : drop n b ≡ rest =
      drop-append_length (encode_proposal p more) rest n (omega (arith, l1, l3)) in
    rw
      (
        le→ltb (length b) 8 (omega arith),
        be_uint16-put {E = PayloadError} n [] (omega (arith, h.total)),
        le→ltb n 8 (omega arith),
        le→ltb (length b) n (omega (arith, l1, l2, l3)),
        le→ltb n (8 + s) (omega arith),
        ne→== (length p.transforms) 0 (omega (arith, h.some_transform)),
        slice_ok {E = PayloadError} b 8 (8 + s) (omega arith) (omega (arith, l1, l2)),
        slice_ok {E = PayloadError} b (8 + s) n (omega arith) (omega (arith, l1, l2, l3)),
        slice_from_ok {E = PayloadError} b n (omega (arith, l1, l2, l3)),
        e_spi,
        e_rest,
        e_tail,
        read_whole p.transforms h.transforms h.some_transform,
      )
      refl
