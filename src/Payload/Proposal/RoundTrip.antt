-- ===== src/Payload/Proposal/RoundTrip.antt =====
-- What the SA encoder writes, and that the SA parser reads it back.
use swan.Common.{
  ℕ, zero, suc, ◌≤◌, ◌<◌, ◌≡◌, refl, sym, ap, ◌∙◌, arith, Bool, true, false, not, List, [], ◌∷◌,
  ◌++◌, length, ◌==◌, if◌then◌else◌, le→ltb, ne→==, append_assoc, append-nil, All, length-append,
}
use swan.Common.Outcome.{ok, index}
use swan.Payload.Errors.{PayloadError}
use swan.Payload.Proposal.{Proposal, append_sa, read_proposals, parse_sa}
use swan.Payload.Proposal.Encoding.{
  encode_transforms, IsProposal, encode_proposal, append_proposal_lem, parse_proposal-encode,
}

unfoldable pub encode_sa : List Proposal → List ℕ
encode_sa [] = []
encode_sa (p ∷ ps) = encode_proposal p (not (length ps == 0)) ++ encode_sa ps

append_sa_lem :
    (dst : List ℕ) (ps : List Proposal)
    → All IsProposal ps
    → append_sa dst ps ≡ ok (dst ++ encode_sa ps)
unfolding append_sa encode_sa
append_sa_lem dst [] h = ap ok (sym (append-nil dst))
append_sa_lem dst (p ∷ ps) h =
    let more = not (length ps == 0) in
    let e = encode_proposal p more in
    rw (append_proposal_lem dst p more h.0)
      (append_sa_lem (dst ++ e) ps h.1 ∙ ap ok (append_assoc dst e (encode_sa ps)))

length-encode_sa : (p : Proposal) (ps : List Proposal) → 8 ≤ length (encode_sa (p ∷ ps))
unfolding encode_sa encode_proposal
length-encode_sa p ps = omega arith

encode_sa-last : (p : Proposal) → encode_sa (p ∷ []) ≡ encode_proposal p false ++ []
unfolding encode_sa
encode_sa-last p = refl

encode_sa_more :
    (p q : Proposal) (ps : List Proposal)
    → encode_sa (p ∷ q ∷ ps) ≡ encode_proposal p true ++ encode_sa (q ∷ ps)
unfolding encode_sa
encode_sa_more p q ps = rw (ne→== (length (q ∷ ps)) 0 (omega arith)) refl

proposal_marker :
    (p : Proposal) (more : Bool) (rest : List ℕ)
    → index {E = PayloadError} (encode_proposal p more ++ rest) 0 ≡ ok (if more then 2 else 0)
unfolding encode_proposal
proposal_marker p more rest = refl

read_proposals-encode :
    (fuel : ℕ) (p : Proposal) (ps acc : List Proposal)
    → length ps < fuel
    → All IsProposal (p ∷ ps)
    → read_proposals fuel (encode_sa (p ∷ ps)) acc ≡ ok (acc ++ (p ∷ ps))
unfolding read_proposals
read_proposals-encode zero p ps acc f h = absurd (omega arith)
read_proposals-encode (suc fuel) p [] acc f h =
    let l = length-encode_sa p [] in
    rw
      (
        ne→== (length (encode_sa (p ∷ []))) 0 (omega arith),
        read_proposals,
        le→ltb (length (encode_sa (p ∷ []))) 8 l,
        encode_sa-last p,
        parse_proposal-encode p false [] h.0,
        proposal_marker p false [],
      )
      refl
read_proposals-encode (suc fuel) p (q ∷ ps) acc f h =
    let l = length-encode_sa p (q ∷ ps) in
    let rest = encode_sa (q ∷ ps) in
    rw
      (
        ne→== (length (encode_sa (p ∷ q ∷ ps))) 0 (omega arith),
        read_proposals,
        le→ltb (length (encode_sa (p ∷ q ∷ ps))) 8 l,
        encode_sa_more p q ps,
        parse_proposal-encode p true rest h.0,
        proposal_marker p true rest,
        ne→== (length rest) 0 (omega (arith, length-encode_sa q ps)),
      )
      (read_proposals-encode fuel q ps (acc ++ (p ∷ [])) (omega arith) h.1
        ∙ ap ok (append_assoc acc (p ∷ []) (q ∷ ps)))

encode_sa-length : (ps : List Proposal) → length ps ≤ length (encode_sa ps)
unfolding encode_sa encode_proposal
encode_sa-length [] = omega arith
encode_sa-length (p ∷ ps) = omega (
  arith,
  encode_sa-length ps,
  length-append (p.spi ++ encode_transforms p.transforms) (encode_sa ps),
)

-- An SA of at least one proposal that the code can send: it is appended behind `dst`, and what was
-- appended parses back to the proposals.
pub parse_sa-append :
    (dst : List ℕ) (p : Proposal) (ps : List Proposal)
    → All IsProposal (p ∷ ps)
    → (body : List ℕ) × (append_sa dst (p ∷ ps) ≡ ok (dst ++ body)) × (parse_sa body ≡ ok (p ∷ ps))
unfolding parse_sa
parse_sa-append dst p ps h =
    let body = encode_sa (p ∷ ps) in
    (
      body,
      append_sa_lem dst (p ∷ ps) h,
      rw
          (
            read_proposals-encode (suc (length body)) p ps []
                (omega (arith, encode_sa-length (p ∷ ps))) h,
            ne→== (length (p ∷ ps)) 0 (omega arith),
          )
          refl,
    )
