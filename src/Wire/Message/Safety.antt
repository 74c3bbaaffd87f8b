-- ===== src/Wire/Message/Safety.antt =====
-- One payload, one fragment header and one envelope of `ParsePayloads`, on any input.
use swan.Common.{
  ℕ, ◌-◌, ◌≤◌, ◌≡◌, refl, sym, arith, false, not, ◌||◌, List, length, take, drop, ltb, ◌==◌, ltb→ge,
  le→ltb, bit_and, length-drop, length-take, get_or,
}
use swan.Common.Outcome.{ok, Ensures, reject-Ensures, slice_ok, slice_from_ok, index_ok}
use swan.Wire.Errors.{WireError}
use swan.Wire.Be.{be_uint16}
use swan.Wire.Be.Laws.{be_uint16_ok, be_uint16_bind}
use swan.Wire.Header.{SkfHeader, parse_skf_header}
use swan.Wire.Message.{Payload, read_payload}

-- A payload of declared length `len` at the front of `rest`.
abbrev pub PayloadAt : List ℕ → ℕ → Payload × ℕ → Type 0
PayloadAt rest next (p, len) =
    (p.type ≡ next)
    × (4 ≤ len)
    × (len ≤ length rest)
    × (p.body ≡ take (len - 4) (drop 4 rest))
    × (p.next ≡ get_or rest 0 0)
    × (p.critical ≡ not (bit_and (get_or rest 1 0) 0x80 == 0))
    × (be_uint16 {E = WireError} (take 2 (drop 2 rest)) ≡ ok len)

pub read_payload-Ensures :
    (rest : List ℕ) (next : ℕ) → Ensures (PayloadAt rest next) (read_payload rest next)
unfolding read_payload
read_payload-Ensures rest next =
    reject-Ensures (PayloadAt rest next) (ltb (length rest) 4) _ _ λ short.
      let long : 4 ≤ length rest = ltb→ge (length rest) 4 short in
      rw
        (
          index_ok {E = WireError} rest 0 0 (omega arith),
          index_ok {E = WireError} rest 1 0 (omega arith),
          slice_ok {E = WireError} rest 2 4 (omega arith) long,
        )
        (let (len, e) =
            be_uint16_ok {E = WireError} (take 2 (drop 2 rest))
              (omega (arith, length-take 2 (drop 2 rest), length-drop 2 rest)) in
          rw e (
            reject-Ensures (PayloadAt rest next) (ltb len 4) _ _ λ lo.
              reject-Ensures (PayloadAt rest next) (ltb (length rest) len) _ _ λ hi.
                let lo' : 4 ≤ len = ltb→ge len 4 lo in
                let hi' : len ≤ length rest = ltb→ge (length rest) len hi in
                rw (slice_ok {E = WireError} rest 4 len lo' hi')
                  (refl, lo', hi', refl, refl, refl, e)))

pub read_payload_complete :
    (rest : List ℕ) (next : ℕ) (p : Payload) (len : ℕ)
    → PayloadAt rest next (p, len)
    → read_payload rest next ≡ ok (p, len)
unfolding read_payload
read_payload_complete rest next p len h =
    rw
      (
        le→ltb (length rest) 4 (omega arith),
        index_ok {E = WireError} rest 0 0 (omega arith),
        index_ok {E = WireError} rest 1 0 (omega arith),
        slice_ok {E = WireError} rest 2 4 (omega arith) (omega arith),
        h.6,
        le→ltb len 4 h.1,
        le→ltb (length rest) len h.2,
        slice_ok {E = WireError} rest 4 len h.1 h.2,
      )
      (λ i. ok (
        record { type = sym h.0 i; critical = sym h.5 i; next = sym h.4 i; body = sym h.3 i },
        len,
      ))

-- A fragment header at the front of a body.
abbrev pub FragmentAt : List ℕ → SkfHeader → Type 0
FragmentAt b fr =
    (4 ≤ length b)
    × (be_uint16 {E = WireError} (take 2 b) ≡ ok fr.fragment_number)
    × (be_uint16 {E = WireError} (take 2 (drop 2 b)) ≡ ok fr.total_fragments)
    × (1 ≤ fr.fragment_number)
    × (fr.fragment_number ≤ fr.total_fragments)

numbers_of : (n t : ℕ) → (n == 0 || t == 0 || ltb t n) ≡ false → (1 ≤ n) × (n ≤ t)
numbers_of n t c = ground arith

numbers_pass : (n t : ℕ) → 1 ≤ n → n ≤ t → (n == 0 || t == 0 || ltb t n) ≡ false
numbers_pass n t h k = ground arith

pub parse_skf_header-Ensures :
    (b : List ℕ)
    → Ensures (λ (r : SkfHeader × List ℕ). FragmentAt b r.0 × (r.1 ≡ drop 4 b)) (parse_skf_header b)
unfolding parse_skf_header
parse_skf_header-Ensures b =
    let Q = λ (r : SkfHeader × List ℕ). FragmentAt b r.0 × (r.1 ≡ drop 4 b) in
    reject-Ensures Q (ltb (length b) 4) _ _ λ short.
      let long : 4 ≤ length b = ltb→ge (length b) 4 short in
      rw
        (
          slice_ok {E = WireError} b 0 2 (omega arith) (omega arith),
          slice_ok {E = WireError} b 2 4 (omega arith) long,
          slice_from_ok {E = WireError} b 4 long,
        )
        (be_uint16_bind Q (take 2 b) _ (omega (arith, length-take 2 b)) λ n en.
          be_uint16_bind Q (take 2 (drop 2 b)) _
            (omega (arith, length-take 2 (drop 2 b), length-drop 2 b))
            λ t et.
              reject-Ensures Q (n == 0 || t == 0 || ltb t n) _ _
                λ c. let k = numbers_of n t c in ((long, en, et, k.0, k.1), refl))

pub parse_skf_header_complete :
    (b : List ℕ) (fr : SkfHeader) → FragmentAt b fr → parse_skf_header b ≡ ok (fr, drop 4 b)
unfolding parse_skf_header
parse_skf_header_complete b fr h =
    rw
      (
        le→ltb (length b) 4 h.0,
        slice_ok {E = WireError} b 0 2 (omega arith) (omega arith),
        slice_ok {E = WireError} b 2 4 (omega arith) h.0,
        slice_from_ok {E = WireError} b 4 h.0,
        h.1,
        h.2,
        numbers_pass fr.fragment_number fr.total_fragments h.3 h.4,
      )
      refl
