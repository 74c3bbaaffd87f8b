-- ===== src/Payload/Notify.antt =====
-- The NOTIFY and DELETE payload bodies: wire/payload/notify.go and delete.go.
pub mod RoundTrip
pub mod Safety
use swan.Common.{
  ℕ, zero, suc, ◌+◌, ◌-◌, ◌*◌, ltb, ◌==◌, if◌then◌else◌, Bool, true, false, ◌&&◌, ◌||◌, not, List,
  [], ◌∷◌, ◌++◌, length,
}
use swan.Common.Outcome.{
  Outcome, ok, err, panic, ◌>>=◌, ◌>>◌, reject, panic_if, index, slice, slice_from,
}
use swan.Wire.Be.{be_uint16, be_uint32, put_uint16, put_uint32}
use swan.Wire.Consts.{
  notify_protocol_none, delete_protocol_ike, delete_protocol_ah, delete_protocol_esp,
}
use swan.Payload.Errors.{
  PayloadError, notify_too_short, notify_spi_exceeds, notify_without_spi, notify_with_spi,
  delete_too_short, ike_delete_spi, ike_delete_count, esp_delete_size, esp_delete_count,
  delete_protocol, delete_length,
}

pub record Notify : Type 0 where
  pub protocol_id : ℕ
  pub spi : List ℕ
  pub type : ℕ
  pub data' : List ℕ

unfoldable pub append_notify : List ℕ → Notify → Outcome PayloadError (List ℕ)
append_notify dst n = do
  panic_if (ltb 255 (length n.spi))
  let start = length dst
  let dst0 = dst ++ (n.protocol_id ∷ length n.spi ∷ 0 ∷ 0 ∷ [])
  dst1 ← put_uint16 dst0 (start + 2) n.type
  ok ((dst1 ++ n.spi) ++ n.data')

unfoldable pub check_notify_scope : ℕ → ℕ → Outcome PayloadError (Unit {0})
check_notify_scope protocol_id spi_len =
    if spi_len == 0
    then reject
        (not (protocol_id == notify_protocol_none) && not (protocol_id == delete_protocol_ike))
        (notify_without_spi protocol_id)
    else reject
        (not (protocol_id == delete_protocol_ah) && not (protocol_id == delete_protocol_esp))
        (notify_with_spi protocol_id)

unfoldable pub parse_notify : List ℕ → Outcome PayloadError Notify
parse_notify b = do
  reject (ltb (length b) 4) (notify_too_short (length b))
  spi_size ← index b 1
  reject (ltb (length b) (4 + spi_size)) notify_spi_exceeds
  protocol_id ← index b 0
  spi ← slice b 4 (4 + spi_size)
  tb ← slice b 2 4
  type ← be_uint16 tb
  rest ← slice_from b (4 + spi_size)
  check_notify_scope protocol_id (length spi)
  ok (record { protocol_id = protocol_id; spi = spi; type = type; data' = rest })

pub record Delete : Type 0 where
  pub protocol_id : ℕ
  pub spis : List ℕ

-- The loop that appends the SPIs.
unfoldable pub append_spis : List ℕ → List ℕ → Outcome PayloadError (List ℕ)
append_spis dst [] = ok dst
append_spis dst (spi ∷ spis) = do
  let dst0 = dst ++ (0 ∷ 0 ∷ 0 ∷ 0 ∷ [])
  dst1 ← put_uint32 dst0 (length dst0 - 4) spi
  append_spis dst1 spis

-- The switch on the protocol: what cannot be encoded panics.
unfoldable pub check_delete : Delete → Outcome PayloadError (Unit {0})
check_delete d =
    if d.protocol_id == delete_protocol_ike
    then panic_if (not (length d.spis == 0))
    else if d.protocol_id == delete_protocol_esp
    then panic_if (length d.spis == 0 || ltb 0xffff (length d.spis))
    else panic

unfoldable pub append_delete : List ℕ → Delete → Outcome PayloadError (List ℕ)
append_delete dst d = do
  check_delete d
  let spi_size = if d.protocol_id == delete_protocol_esp then 4 else 0
  let start = length dst
  let dst0 = dst ++ (d.protocol_id ∷ spi_size ∷ 0 ∷ 0 ∷ [])
  dst1 ← put_uint16 dst0 (start + 2) (length d.spis)
  append_spis dst1 d.spis

-- The loop over the SPIs, four bytes at a time; that fuel runs out is written as a panic.
unfoldable pub read_spis : ℕ → List ℕ → ℕ → List ℕ → Outcome PayloadError (List ℕ)
read_spis zero b off acc = panic
read_spis (suc fuel) b off acc = elim (ltb off (length b)) [
  | false ↦ ok acc
  | true ↦ do
    sb ← slice b off (off + 4)
    spi ← be_uint32 sb
    read_spis fuel b (off + 4) (acc ++ (spi ∷ []))
]

-- The switch on the protocol in the parser.
unfoldable pub check_delete_counts : ℕ → ℕ → ℕ → Outcome PayloadError (Unit {0})
check_delete_counts protocol_id spi_size count =
    if protocol_id == delete_protocol_ike
    then (reject (not (spi_size == 0)) ike_delete_spi >> reject (not (count == 0)) ike_delete_count)
    else if protocol_id == delete_protocol_esp
    then (reject (not (spi_size == 4)) (esp_delete_size spi_size)
        >> reject (count == 0) esp_delete_count)
    else err (delete_protocol protocol_id)

unfoldable pub parse_delete : List ℕ → Outcome PayloadError Delete
parse_delete b = do
  reject (ltb (length b) 4) (delete_too_short (length b))
  protocol_id ← index b 0
  spi_size ← index b 1
  cb ← slice b 2 4
  count ← be_uint16 cb
  check_delete_counts protocol_id spi_size count
  let expected = 4 + count * spi_size
  reject (not (length b == expected)) (delete_length expected (length b))
  spis ← read_spis (length b) b 4 []
  ok (record { protocol_id = protocol_id; spis = spis })
