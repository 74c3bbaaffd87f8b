-- ===== src/Payload/TrafficSelector.antt =====
-- The TSi and TSr payload bodies: wire/payload/ts.go.
pub mod RoundTrip
pub mod Safety
use swan.Common.{
  ℕ, zero, suc, ◌+◌, ◌-◌, ◌*◌, ltb, ◌==◌, if◌then◌else◌, Bool, true, false, ◌&&◌, ◌||◌, not, List,
  [], ◌∷◌, ◌++◌, length,
}
use swan.Common.Outcome.{
  Outcome, ok, err, panic, ◌>>=◌, ◌>>◌, reject, panic_if, index, slice, slice_from,
}
use swan.Wire.Be.{be_uint16, put_uint16}
use swan.Payload.Ip.{Ip, ip_octets, clone_ip, compare_ip, is_gt}
use swan.Payload.Errors.{
  PayloadError, ts_too_short, ts_reserved, ts_entry_too_short, ts_unsupported_type, ts_protocol,
  ts_entry_length, ts_entry_exceeds, ts_port_reversed, ts_address_reversed, ts_selector,
  ts_trailing,
}

pub record Selector : Type 0 where
  pub type : ℕ
  pub protocol_id : ℕ
  pub start_port : ℕ
  pub end_port : ℕ
  pub start_addr : Ip
  pub end_addr : Ip

unfoldable pub addr_len : ℕ → Outcome PayloadError ℕ
addr_len t = if t == 7 then ok 4 else if t == 8 then ok 16 else err (ts_unsupported_type t)

unfoldable pub append_traffic_selector : List ℕ → Selector → Outcome PayloadError (List ℕ)
append_traffic_selector dst s = do
  let start_octets = ip_octets s.start_addr
  let end_octets = ip_octets s.end_addr
  let width = length start_octets
  panic_if (width == 0 || length end_octets == 0 || not (width == length end_octets))
  let start = length dst
  let dst0 = dst ++ (s.type ∷ s.protocol_id ∷ 0 ∷ 0 ∷ 0 ∷ 0 ∷ 0 ∷ 0 ∷ [])
  dst1 ← put_uint16 dst0 (start + 2) (8 + 2 * width)
  dst2 ← put_uint16 dst1 (start + 4) s.start_port
  dst3 ← put_uint16 dst2 (start + 6) s.end_port
  ok ((dst3 ++ start_octets) ++ end_octets)

unfoldable pub append_selectors : List ℕ → List Selector → Outcome PayloadError (List ℕ)
append_selectors dst [] = ok dst
append_selectors dst (s ∷ ss) = do dst1 ← append_traffic_selector dst s; append_selectors dst1 ss

unfoldable pub append_ts : List ℕ → List Selector → Outcome PayloadError (List ℕ)
append_ts dst ss = do
  panic_if (ltb 255 (length ss))
  append_selectors (dst ++ (length ss ∷ 0 ∷ 0 ∷ 0 ∷ [])) ss

unfoldable pub parse_traffic_selector : List ℕ → Outcome PayloadError (Selector × List ℕ)
parse_traffic_selector b = do
  reject (ltb (length b) 8) (ts_entry_too_short (length b))
  type ← index b 0
  width ← addr_len type
  protocol ← index b 1
  reject (not (protocol == 0)) (ts_protocol protocol)
  lb ← slice b 2 4
  entry_len ← be_uint16 lb
  reject (not (entry_len == 8 + 2 * width)) (ts_entry_length entry_len width)
  reject (ltb (length b) entry_len) (ts_entry_exceeds entry_len (length b))
  sb ← slice b 4 6
  start_port ← be_uint16 sb
  eb ← slice b 6 8
  end_port ← be_uint16 eb
  reject (ltb end_port start_port) (ts_port_reversed start_port end_port)
  addrs ← slice b 8 entry_len
  start_bytes ← slice addrs 0 width
  end_bytes ← slice_from addrs width
  let start_addr = clone_ip start_bytes
  let end_addr = clone_ip end_bytes
  reject (not (length start_addr == 0) && is_gt (compare_ip start_addr end_addr))
      ts_address_reversed
  tail ← slice_from b entry_len
  ok (
    record {
      type = type;
      protocol_id = protocol;
      start_port = start_port;
      end_port = end_port;
      start_addr = start_addr;
      end_addr = end_addr;
    },
    tail,
  )

-- An error of entry `i` is wrapped with its number.
abbrev wrap {ℓ} : {A : Type ℓ} → ℕ → Outcome PayloadError A → Outcome PayloadError A
wrap i (ok a) = ok a
wrap i (err e) = err (ts_selector i e)
wrap i panic = panic

-- The loop of `ParseTS`: `left` rounds of `count` are still to come.
unfoldable pub read_selectors :
    ℕ → ℕ → List ℕ → List Selector → Outcome PayloadError (List Selector × List ℕ)
read_selectors zero count rest acc = ok (acc, rest)
read_selectors (suc left) count rest acc = do
  (s, tail) ← wrap (count - suc left) (parse_traffic_selector rest)
  read_selectors left count tail (acc ++ (s ∷ []))

unfoldable pub parse_ts : List ℕ → Outcome PayloadError (List Selector)
parse_ts b = do
  reject (ltb (length b) 4) (ts_too_short (length b))
  count ← index b 0
  b1 ← index b 1
  b2 ← index b 2
  b3 ← index b 3
  reject (not (b1 == 0) || not (b2 == 0) || not (b3 == 0)) ts_reserved
  rest ← slice_from b 4
  (ss, left) ← read_selectors count count rest []
  reject (not (length left == 0)) (ts_trailing (length left))
  ok ss
