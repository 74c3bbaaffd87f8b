-- ===== src/Eap/Fragment.antt =====
-- PEAP fragments: eap/peap/fragment.go, and the packet's shape of eap/peap/peap.go. A nil payload is
-- an empty one; a nil fragmenter, which the constructor makes for a chunk of 0, is `none` there, and
-- the operations are those of a receiver that is not nil.

pub mod Steps
pub mod Relay
use swan.Common.{
  ℕ, zero, suc, ◌+◌, ◌-◌, ltb, ◌==◌, if◌then◌else◌, Bool, true, false, ◌&&◌, ◌||◌, not, List, [],
  ◌∷◌, ◌++◌, length, take, drop, Option, none, some, bit_and, bit_or,
}
use swan.Common.Bits.{byte_at}
use swan.Common.Outcome.{Outcome, ok, err, panic, ◌>>=◌, ◌>>◌, reject, index, slice, slice_from}
use swan.Wire.Be.{be_uint32}

abbrev pub flag_length_included : ℕ
flag_length_included = 0x80

abbrev pub flag_more_fragments : ℕ
flag_more_fragments = 0x40

abbrev pub flag_version_mask : ℕ
flag_version_mask = 0x07

pub data FragmentError : Type 0 where
  already_active : FragmentError
  bad_chunk : FragmentError
  none_pending : FragmentError
  unexpected_length : FragmentError
  zero_length : FragmentError
  missing_length : FragmentError
  exceeds_declared : ℕ → ℕ → FragmentError
  differs_from_declared : ℕ → ℕ → FragmentError
  missing_flags : FragmentError
  unsupported_peap_version : ℕ → FragmentError
  missing_message_length : FragmentError

pub record OutboundFragmenter : Type 0 where
  pub payload : List ℕ
  pub offset : ℕ
  pub chunk : ℕ
  pub include_length : Bool

unfoldable pub new_outbound_fragmenter : ℕ → Bool → Option OutboundFragmenter
new_outbound_fragmenter chunk include_length =
    if chunk == 0
    then none
    else some (record { payload = []; offset = 0; chunk = chunk; include_length = include_length })

unfoldable pub pending : OutboundFragmenter → Bool
pending f = ltb f.offset (length f.payload)

-- A packet, and whether it is the last one.
abbrev pub Fragment : Type 0
Fragment = List ℕ × Bool

abbrev pub set_flag : Bool → ℕ → ℕ → ℕ
set_flag c flag flags = if c then bit_or flags flag else flags

abbrev pub total_bytes : Bool → ℕ → List ℕ
total_bytes false total = []
total_bytes true total =
    byte_at total 24 ∷ byte_at total 16 ∷ byte_at total 8 ∷ byte_at total 0 ∷ []

-- The packet that `Start` makes.
unfoldable pub first_packet : OutboundFragmenter → List ℕ → ℕ → List ℕ
first_packet f payload base_flags =
    let more = ltb f.chunk (length payload) in
    let with_length = more || f.include_length in
    let flags =
      set_flag more flag_more_fragments (set_flag with_length flag_length_included base_flags) in
    let end' : ℕ = if more then f.chunk else length payload in
    flags ∷ (total_bytes with_length (length payload) ++ take end' payload)

unfoldable pub start :
    OutboundFragmenter → List ℕ → ℕ → OutboundFragmenter × Outcome FragmentError Fragment
start f payload base_flags =
    if pending f
    then (f, err already_active)
    else if f.chunk == 0
    then (f, err bad_chunk)
    else if ltb f.chunk (length payload)
    then (
      record f { payload = payload; offset = f.chunk },
      ok (first_packet f payload base_flags, false),
    )
    else (record f { payload = []; offset = 0 }, ok (first_packet f payload base_flags, true))

unfoldable pub next : OutboundFragmenter → OutboundFragmenter × Outcome FragmentError Fragment
next f =
    let size = length f.payload in
    let end' : ℕ = if ltb (f.offset + f.chunk) size then f.offset + f.chunk else size in
    let body = slice f.payload f.offset end' in
    if not (pending f)
    then (f, err none_pending)
    else if ltb end' size
    then (record f { offset = end' }, body >>= λ b. ok (flag_more_fragments ∷ b, false))
    else (record f { payload = []; offset = 0 }, body >>= λ b. ok (0 ∷ b, true))

-- `expected` is `none` for -1.
pub record InboundFragmenter : Type 0 where
  pub parts : List (List ℕ)
  pub total : ℕ
  pub expected : Option ℕ

abbrev pub new_inbound_fragmenter : InboundFragmenter
new_inbound_fragmenter = record { parts = []; total = 0; expected = none }

unfoldable pub join : List (List ℕ) → List ℕ
join [] = []
join (p ∷ ps) = p ++ join ps

-- What a push answers: `some` message that is complete, or `none`.
abbrev pub Pushed : Type 0
Pushed = InboundFragmenter × Outcome FragmentError (Option (List ℕ))

-- The part of `Push` behind the tests of the L flag: a fragment of a message of `expected` bytes.
unfoldable pub collect : InboundFragmenter → ℕ → ℕ → List ℕ → Pushed
collect f expected flags data' =
    let parts = f.parts ++ (data' ∷ []) in
    let total = f.total + length data' in
    let f' : InboundFragmenter = record f { parts = parts; total = total } in
    if ltb expected total
    then (f', err (exceeds_declared total expected))
    else if not (bit_and flags flag_more_fragments == 0)
    then (f', ok none)
    else if not (total == expected)
    then (f', err (differs_from_declared total expected))
    else (new_inbound_fragmenter, ok (some (join parts)))

unfoldable pub push_first : InboundFragmenter → ℕ → ℕ → List ℕ → Pushed
push_first f flags length_included data' = elim f.expected [
  | some e ↦ (f, err unexpected_length)
  | none ↦
      if length_included == 0
      then (f, err zero_length)
      else collect (record { parts = []; total = 0; expected = some length_included })
          length_included flags data'
]

unfoldable pub push_next : InboundFragmenter → ℕ → List ℕ → Pushed
push_next f flags data' = elim f.expected [
  | some e ↦ collect f e flags data'
  | none ↦
      if not (bit_and flags flag_more_fragments == 0)
      then (f, err missing_length)
      else (f, ok (some data'))
]

unfoldable pub push_fragment : InboundFragmenter → ℕ → ℕ → List ℕ → Pushed
push_fragment f flags length_included data' =
    if not (bit_and flags flag_length_included == 0)
    then push_first f flags length_included data'
    else push_next f flags data'

unfoldable pub reset_fragmenter : InboundFragmenter → InboundFragmenter
reset_fragmenter f = record f { parts = []; total = 0; expected = none }

-- The EAP identifier is left out. `length_included` is 0 with no L flag, which is what
-- `collectTLSRecord` passes on.
pub record PeapRequest : Type 0 where
  pub flags : ℕ
  pub has_length : Bool
  pub length_included : ℕ
  pub data' : List ℕ

unfoldable pub parse_peap_request : List ℕ → Outcome FragmentError PeapRequest
parse_peap_request payload = do
  reject (ltb (length payload) 1) missing_flags
  flags ← index payload 0
  reject (not (bit_and flags flag_version_mask == 0))
      (unsupported_peap_version (bit_and flags flag_version_mask))
  rest ← slice_from payload 1
  elim (bit_and flags flag_length_included == 0) [
    | true ↦ ok (record { flags = flags; has_length = false; length_included = 0; data' = rest })
    | false ↦ do
      reject (ltb (length rest) 4) missing_message_length
      n ← be_uint32 rest
      tail ← slice_from rest 4
      ok (record { flags = flags; has_length = true; length_included = n; data' = tail })
  ]

unfoldable pub collect_tls_record : InboundFragmenter → PeapRequest → Pushed
collect_tls_record f req =
    let n : ℕ =
      if not (bit_and req.flags flag_length_included == 0) then req.length_included else 0 in
    push_fragment f req.flags n req.data'

unfoldable pub is_ack_request : PeapRequest → Bool
is_ack_request req = length req.data' == 0 && (not req.has_length && bit_and req.flags 0xe0 == 0)
