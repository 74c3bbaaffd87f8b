-- ===== src/Payload/Proposal.antt =====
-- Transforms, proposals and the SA payload body: wire/payload/transform.go and sa.go.
pub mod Encoding
pub mod RoundTrip
pub mod Safety
use swan.Common.{
  ℕ, zero, suc, ◌+◌, ◌-◌, ltb, ◌==◌, if◌then◌else◌, Bool, true, false, ◌||◌, not, List, [], ◌∷◌,
  ◌++◌, length, bit_and, bit_or,
}
use swan.Common.Outcome.{
  Outcome, ok, err, panic, ◌>>=◌, ◌>>◌, reject, panic_if, index, slice, slice_from,
}
use swan.Wire.Be.{store, be_uint16, put_uint16}
use swan.Wire.Consts.{
  transform_chain_last, transform_chain_more, proposal_chain_more, transform_attr_key_length,
  transform_attr_format_tv,
}
use swan.Payload.Errors.{
  PayloadError, transform_too_short, transform_length, transform_exceeds, proposal_too_short,
  proposal_length, proposal_exceeds, proposal_spi_exceeds, proposal_no_transforms,
  transform_index_short, transform_chain_ended, transform_marker, transform_missing_last,
  proposal_trailing, key_length_size, key_length_format, key_length_type, sa_proposal_short,
  sa_missing_last, sa_marker, sa_missing_proposals,
}

pub record Transform : Type 0 where
  pub type : ℕ
  pub id : ℕ
  pub attrs : List ℕ

pub record Proposal : Type 0 where
  pub num : ℕ
  pub protocol_id : ℕ
  pub spi : List ℕ
  pub transforms : List Transform

unfoldable pub append_transform : List ℕ → Transform → Bool → Outcome PayloadError (List ℕ)
append_transform dst t last = do
  panic_if (ltb 0xffff (8 + length t.attrs))
  let start = length dst
  let dst0 = dst ++ (0 ∷ 0 ∷ 0 ∷ 0 ∷ t.type ∷ 0 ∷ 0 ∷ 0 ∷ [])
  dst1 ← store dst0 start (if last then transform_chain_last else transform_chain_more)
  dst2 ← put_uint16 dst1 (start + 2) (8 + length t.attrs)
  dst3 ← put_uint16 dst2 (start + 6) t.id
  ok (dst3 ++ t.attrs)

unfoldable pub parse_transform : List ℕ → Outcome PayloadError (Transform × List ℕ)
parse_transform b = do
  reject (ltb (length b) 8) (transform_too_short (length b))
  lb ← slice b 2 4
  len ← be_uint16 lb
  reject (ltb len 8) (transform_length len)
  reject (ltb (length b) len) (transform_exceeds len (length b))
  type ← index b 4
  ib ← slice b 6 8
  id ← be_uint16 ib
  attrs ← slice b 8 len
  tail ← slice_from b len
  ok (record { type = type; id = id; attrs = attrs }, tail)

-- The length of the transform bodies.
unfoldable pub transforms_len : List Transform → ℕ
transforms_len [] = 0
transforms_len (t ∷ ts) = 8 + length t.attrs + transforms_len ts

-- The loop over the transforms: the last one gets the last marker.
unfoldable pub append_transforms : List ℕ → List Transform → Outcome PayloadError (List ℕ)
append_transforms dst [] = ok dst
append_transforms dst (t ∷ ts) = do
  dst1 ← append_transform dst t (length ts == 0)
  append_transforms dst1 ts

unfoldable pub append_proposal : List ℕ → Proposal → Bool → Outcome PayloadError (List ℕ)
append_proposal dst p more = do
  panic_if (ltb 255 (length p.spi))
  panic_if (ltb 255 (length p.transforms))
  let total = 8 + length p.spi + transforms_len p.transforms
  panic_if (ltb 0xffff total)
  let start = length dst
  let dst0 =
      dst ++ (0 ∷ 0 ∷ 0 ∷ 0 ∷ p.num ∷ p.protocol_id ∷ length p.spi ∷ length p.transforms ∷ [])
  dst1 ← store dst0 start (if more then proposal_chain_more else transform_chain_last)
  dst2 ← put_uint16 dst1 (start + 2) total
  append_transforms (dst2 ++ p.spi) p.transforms

-- The loop of `ParseProposal`: `left` rounds of `total` are still to come. It returns the transforms
-- and what is left of the proposal.
unfoldable pub read_transforms :
    ℕ → ℕ → List ℕ → List Transform → Outcome PayloadError (List Transform × List ℕ)
read_transforms zero total rest acc = ok (acc, rest)
read_transforms (suc left) total rest acc = do
  let i = total - suc left
  reject (ltb (length rest) 8) (transform_index_short i (length rest))
  marker ← index rest 0
  (t, tail) ← parse_transform rest
  let acc' = acc ++ (t ∷ [])
  let last = left == 0
  if marker == transform_chain_last
      then (reject (not last) (transform_chain_ended (i + 1) total) >> ok (acc', tail))
      else (do
        reject (not (marker == transform_chain_more)) (transform_marker marker)
        reject last transform_missing_last
        read_transforms left total tail acc')

unfoldable pub parse_proposal : List ℕ → Outcome PayloadError (Proposal × List ℕ)
parse_proposal b = do
  reject (ltb (length b) 8) (proposal_too_short (length b))
  lb ← slice b 2 4
  len ← be_uint16 lb
  reject (ltb len 8) (proposal_length len)
  reject (ltb (length b) len) (proposal_exceeds len (length b))
  spi_size ← index b 6
  count ← index b 7
  reject (ltb len (8 + spi_size)) proposal_spi_exceeds
  reject (count == 0) proposal_no_transforms
  num ← index b 4
  protocol_id ← index b 5
  spi ← slice b 8 (8 + spi_size)
  rest ← slice b (8 + spi_size) len
  (transforms, left) ← read_transforms count count rest []
  reject (not (length left == 0)) (proposal_trailing (length left))
  tail ← slice_from b len
  ok (record { num = num; protocol_id = protocol_id; spi = spi; transforms = transforms }, tail)

unfoldable pub key_length_attr : ℕ → Outcome PayloadError (List ℕ)
key_length_attr bits = do
  let out = 0 ∷ 0 ∷ 0 ∷ 0 ∷ []
  out1 ← put_uint16 out 0 (bit_or transform_attr_key_length transform_attr_format_tv)
  put_uint16 out1 2 bits

unfoldable pub parse_key_length_attr : List ℕ → Outcome PayloadError ℕ
parse_key_length_attr attrs = do
  reject (not (length attrs == 4)) (key_length_size (length attrs))
  tb ← slice attrs 0 2
  typ ← be_uint16 tb
  reject (bit_and typ transform_attr_format_tv == 0) key_length_format
  reject (not (bit_and typ (0xffff - transform_attr_format_tv) == transform_attr_key_length))
      (key_length_type typ)
  vb ← slice attrs 2 4
  be_uint16 vb

-- `AppendSA`: every proposal but the last one gets the more marker.
unfoldable pub append_sa : List ℕ → List Proposal → Outcome PayloadError (List ℕ)
append_sa dst [] = ok dst
append_sa dst (p ∷ ps) = do dst1 ← append_proposal dst p (not (length ps == 0)); append_sa dst1 ps

-- The loop of `ParseSA` on fuel; that fuel runs out is written as a panic.
unfoldable pub read_proposals : ℕ → List ℕ → List Proposal → Outcome PayloadError (List Proposal)
read_proposals zero rest acc = panic
read_proposals (suc fuel) rest acc = elim (length rest == 0) [
  | true ↦ ok acc
  | false ↦ do
    reject (ltb (length rest) 8) (sa_proposal_short (length rest))
    (p, tail) ← parse_proposal rest
    let acc' = acc ++ (p ∷ [])
    marker ← index rest 0
    if length tail == 0
        then (reject (not (marker == transform_chain_last)) sa_missing_last >> ok acc')
        else (do
          reject (not (marker == proposal_chain_more)) (sa_marker marker)
          read_proposals fuel tail acc')
]

unfoldable pub parse_sa : List ℕ → Outcome PayloadError (List Proposal)
parse_sa b = do
  ps ← read_proposals (suc (length b)) b []
  reject (length ps == 0) sa_missing_proposals
  ok ps
