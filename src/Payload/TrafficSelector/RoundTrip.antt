-- ===== src/Payload/TrafficSelector/RoundTrip.antt =====
-- The TS body: what is appended parses back, and the parser returns on any input.
use swan.Common.{
  ℕ, ◌+◌, ◌-◌, ◌*◌, ◌≤◌, ◌<◌, ◌≡◌, ◌⊎◌, inl, inr, refl, sym, ap, ◌∙◌, arith, Bool, true, false, not,
  ◌&&◌, List, [], ◌∷◌, ◌++◌, length, take, drop, ◌==◌, if◌then◌else◌, le→ltb, eq→==, ne→==,
  append_assoc, append-nil, length-append, take-append_length, drop-append_length, All, Bool-cases,
  some, none,
}
use swan.Common.Bits.{byte_at}
use swan.Common.Outcome.{ok, slice_ok, slice_from_ok}
use swan.Wire.Be.Laws.{put_uint16_append, be_uint16-put}
use swan.Payload.Errors.{PayloadError}
use swan.Payload.Ip.{Ip, v4_prefix, is_v4_mapped, to4, to16, ip_octets, clone_ip, compare_ip, is_gt}
use swan.Payload.TrafficSelector.{
  Selector, addr_len, append_traffic_selector, append_selectors, append_ts, parse_traffic_selector,
  read_selectors, parse_ts,
}

-- An IPv4 address in the 16-byte form, or an IPv6 address that is not one of those.
abbrev pub HasOctets : ℕ → Ip → List ℕ → Type 0
HasOctets t ip octets =
    (t ≡ 7) × (length octets ≡ 4) × (ip ≡ v4_prefix ++ octets)
    ⊎ (t ≡ 8) × (length octets ≡ 16) × (ip ≡ octets) × (is_v4_mapped v4_prefix octets ≡ false)

-- A selector as the parser makes it: its two addresses have octets of the type's width, and its
-- ports and its addresses are in order.
pub record IsSelector (s : Selector) : Type 0 where
  pub start_octets : List ℕ
  pub end_octets : List ℕ
  pub start_has : HasOctets s.type s.start_addr start_octets
  pub end_has : HasOctets s.type s.end_addr end_octets
  pub any_protocol : s.protocol_id ≡ 0
  pub ports : s.start_port ≤ s.end_port
  pub end_port_fits : s.end_port < 65536
  pub addresses : is_gt (compare_ip s.start_addr s.end_addr) ≡ false

to4_lem : (octets : List ℕ) → length octets ≡ 4 → to4 (v4_prefix ++ octets) ≡ some octets
unfolding to4 is_v4_mapped
to4_lem octets l =
    let full : List ℕ = v4_prefix ++ octets in
    rw (ne→== (length full) 4 (omega arith), eq→== (length full) 16 (omega arith)) refl

to4-none :
    (octets : List ℕ)
    → length octets ≡ 16
    → is_v4_mapped v4_prefix octets ≡ false
    → to4 octets ≡ none
unfolding to4
to4-none octets l m =
    rw (ne→== (length octets) 4 (omega arith), eq→== (length octets) 16 (omega arith), m) refl

to16_lem : (octets : List ℕ) → length octets ≡ 16 → to16 octets ≡ some octets
unfolding to16
to16_lem octets l =
    rw (ne→== (length octets) 4 (omega arith), eq→== (length octets) 16 (omega arith)) refl

ip_octets-some : (ip octets : List ℕ) → to4 ip ≡ some octets → ip_octets ip ≡ octets
unfolding ip_octets
ip_octets-some ip octets e = rw (e, ip_octets) refl

ip_octets-none :
    (ip octets : List ℕ) → to4 ip ≡ none → to16 ip ≡ some octets → ip_octets ip ≡ octets
unfolding ip_octets
ip_octets-none ip octets e e' = rw (e, ip_octets) (rw e' refl)

abbrev width : ℕ → ℕ
width t = if t == 7 then 4 else 16

-- An address has the octets of its type's width, and is made again from them.
abbrev Fits : ℕ → Ip → Type 0
Fits t ip =
    (addr_len t ≡ ok (width t)) × (length (ip_octets ip) ≡ width t) × (clone_ip (ip_octets ip) ≡ ip)

HasOctets-Fits : (t : ℕ) (ip : Ip) (octets : List ℕ) → HasOctets t ip octets → Fits t ip
unfolding addr_len ip_octets clone_ip
HasOctets-Fits t ip octets (inl h) =
    let e : ip_octets ip ≡ octets = ip_octets-some ip octets (ap to4 h.2 ∙ to4_lem octets h.1) in
    rw (h.0, e) (refl, h.1, rw (h.2, eq→== (length octets) 4 h.1) refl)
HasOctets-Fits t ip octets (inr h) =
    let e : ip_octets ip ≡ octets =
      ip_octets-none ip octets (ap to4 h.2 ∙ to4-none octets h.1 h.3)
        (ap to16 h.2 ∙ to16_lem octets h.1) in
    rw (h.0, e)
      (
        refl,
        h.1,
        rw (h.2, ne→== (length octets) 4 (omega (arith, h.1)), eq→== (length octets) 16 h.1) refl,
      )

width_pos : (t : ℕ) → (1 ≤ width t) × (width t ≤ 16)
width_pos t = elim (Bool-cases (t == 7)) [
  | inl e ↦ rw e (omega arith, omega arith)
  | inr e ↦ rw e (omega arith, omega arith)
]

-- What a selector is written as.
abbrev selector_head : Selector → ℕ → List ℕ
selector_head s w =
    s.type
    ∷ s.protocol_id
    ∷ byte_at (8 + 2 * w) 8
    ∷ byte_at (8 + 2 * w) 0
    ∷ byte_at s.start_port 8
    ∷ byte_at s.start_port 0
    ∷ byte_at s.end_port 8
    ∷ byte_at s.end_port 0
    ∷ []

abbrev encode_selector : Selector → List ℕ
encode_selector s =
    selector_head s (length (ip_octets s.start_addr))
    ++ (ip_octets s.start_addr ++ ip_octets s.end_addr)

unfoldable encode_selectors : List Selector → List ℕ
encode_selectors [] = []
encode_selectors (s ∷ ss) = encode_selector s ++ encode_selectors ss

append_traffic_selector_lem :
    (dst : List ℕ) (s : Selector)
    → IsSelector s
    → append_traffic_selector dst s ≡ ok (dst ++ encode_selector s)
unfolding append_traffic_selector
append_traffic_selector_lem dst s h =
    let a : List ℕ = ip_octets s.start_addr in
    let b : List ℕ = ip_octets s.end_addr in
    let w : ℕ = length a in
    let fa = HasOctets-Fits s.type s.start_addr h.start_octets h.start_has in
    let fb = HasOctets-Fits s.type s.end_addr h.end_octets h.end_has in
    let pos : 1 ≤ width s.type = (width_pos s.type).0 in
    let h0 = byte_at (8 + 2 * w) 8 in
    let h1 = byte_at (8 + 2 * w) 0 in
    let p0 = byte_at s.start_port 8 in
    let p1 = byte_at s.start_port 0 in
    let head = selector_head s w in
    rw
      (
        ne→== w 0 (omega (arith, fa.1)),
        ne→== (length b) 0 (omega (arith, fb.1)),
        eq→== w (length b) (omega (arith, fa.1, fb.1)),
        put_uint16_append {E = PayloadError} dst
            (s.type ∷ s.protocol_id ∷ 0 ∷ 0 ∷ 0 ∷ 0 ∷ 0 ∷ 0 ∷ []) 2 (length dst + 2) (8 + 2 * w)
            (omega arith) (omega arith),
        put_uint16_append {E = PayloadError} dst
            (s.type ∷ s.protocol_id ∷ h0 ∷ h1 ∷ 0 ∷ 0 ∷ 0 ∷ 0 ∷ []) 4 (length dst + 4) s.start_port
            (omega arith) (omega arith),
        put_uint16_append {E = PayloadError} dst
            (s.type ∷ s.protocol_id ∷ h0 ∷ h1 ∷ p0 ∷ p1 ∷ 0 ∷ 0 ∷ []) 6 (length dst + 6) s.end_port
            (omega arith) (omega arith),
      )
      (ap ok (append_assoc (dst ++ head) a b ∙ append_assoc dst head (a ++ b)))

append_selectors_lem :
    (dst : List ℕ) (ss : List Selector)
    → All IsSelector ss
    → append_selectors dst ss ≡ ok (dst ++ encode_selectors ss)
unfolding append_selectors encode_selectors
append_selectors_lem dst [] h = ap ok (sym (append-nil dst))
append_selectors_lem dst (s ∷ ss) h = rw (append_traffic_selector_lem dst s h.0) (
    append_selectors_lem (dst ++ encode_selector s) ss h.1
    ∙ ap ok (append_assoc dst (encode_selector s) (encode_selectors ss)))

and_false : (x : Bool) → (x && false) ≡ false
and_false true = refl
and_false false = refl

parse_traffic_selector-encode :
    (s : Selector) (rest : List ℕ)
    → IsSelector s
    → parse_traffic_selector (encode_selector s ++ rest) ≡ ok (s, rest)
unfolding parse_traffic_selector
parse_traffic_selector-encode s rest h =
    let a : List ℕ = ip_octets s.start_addr in
    let b : List ℕ = ip_octets s.end_addr in
    let w : ℕ = width s.type in
    let fa = HasOctets-Fits s.type s.start_addr h.start_octets h.start_has in
    let fb = HasOctets-Fits s.type s.end_addr h.end_octets h.end_has in
    let wide = width_pos s.type in
    let la : length a ≡ w = fa.1 in
    let all : List ℕ = encode_selector s ++ rest in
    let l : length all ≡ 8 + 2 * w + length rest =
      omega (arith, length-append (a ++ b) rest, length-append a b, fa.1, fb.1) in
    let e_addrs : take (8 + 2 * length a - 8) ((a ++ b) ++ rest) ≡ a ++ b =
      take-append_length (a ++ b) rest (8 + 2 * length a - 8)
        (omega (arith, length-append a b, fa.1, fb.1)) in
    let e_tail : drop (8 + 2 * length a) all ≡ rest =
      drop-append_length (encode_selector s) rest (8 + 2 * length a)
        (omega (arith, length-append a b, fa.1, fb.1)) in
    let e_start : take (w - 0) (a ++ b) ≡ a =
      take-append_length a b (w - 0) (omega (arith, fa.1)) in
    let e_end : drop w (a ++ b) ≡ b = drop-append_length a b w (omega (arith, fa.1)) in
    rw
      (
        le→ltb (length all) 8 (omega (arith, l)),
        fa.0,
        eq→== s.protocol_id 0 h.any_protocol,
        be_uint16-put {E = PayloadError} (8 + 2 * length a) [] (omega (arith, fa.1)),
        eq→== (8 + 2 * length a) (8 + 2 * w) (omega (arith, fa.1)),
        le→ltb (length all) (8 + 2 * length a) (omega (arith, l, fa.1)),
        be_uint16-put {E = PayloadError} s.start_port [] (omega (arith, h.ports, h.end_port_fits)),
        be_uint16-put {E = PayloadError} s.end_port [] h.end_port_fits,
        le→ltb s.end_port s.start_port h.ports,
        slice_ok {E = PayloadError} all 8 (8 + 2 * length a) (omega arith) (omega (arith, l, fa.1)),
        slice_from_ok {E = PayloadError} all (8 + 2 * length a) (omega (arith, l, fa.1)),
        e_addrs,
        e_tail,
        slice_ok {E = PayloadError} (a ++ b) 0 w (omega arith)
            (omega (arith, length-append a b, fa.1)),
        slice_from_ok {E = PayloadError} (a ++ b) w (omega (arith, length-append a b, fa.1)),
        e_start,
        e_end,
        fa.2,
        fb.2,
        h.addresses,
        and_false (not (length s.start_addr == 0)),
      )
      refl

read_selectors-encode :
    (ss acc : List Selector) (count : ℕ)
    → All IsSelector ss
    → read_selectors (length ss) count (encode_selectors ss) acc ≡ ok (acc ++ ss, [])
unfolding read_selectors encode_selectors
read_selectors-encode [] acc count h = ap (λ t. ok (t, [])) (sym (append-nil acc))
read_selectors-encode (s ∷ ss) acc count h =
    rw (parse_traffic_selector-encode s (encode_selectors ss) h.0) (
      read_selectors-encode ss (acc ++ (s ∷ [])) count h.1
      ∙ ap (λ t. ok (t, [])) (append_assoc acc (s ∷ []) ss))

-- Up to 255 well-formed selectors are appended behind `dst`, with no panic, and parse back: the
-- ports, the addresses in the form the parser gives them, and the order of the selectors are kept.
pub parse_ts-append :
    (dst : List ℕ) (ss : List Selector)
    → length ss ≤ 255
    → All IsSelector ss
    → (body : List ℕ) × (append_ts dst ss ≡ ok (dst ++ body)) × (parse_ts body ≡ ok ss)
unfolding append_ts parse_ts
parse_ts-append dst ss n h =
    let head : List ℕ = length ss ∷ 0 ∷ 0 ∷ 0 ∷ [] in
    let enc = encode_selectors ss in
    (
      head ++ enc,
      rw (le→ltb 255 (length ss) n)
          (append_selectors_lem (dst ++ head) ss h ∙ ap ok (append_assoc dst head enc)),
      rw (le→ltb (length (head ++ enc)) 4 (omega arith), read_selectors-encode ss [] (length ss) h)
          refl,
    )
