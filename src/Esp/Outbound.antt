-- ===== src/Esp/Outbound.antt =====
-- The outbound worker: esp/outflow.go. `seq` is a uint32, `packets` and `bytes_out` are uint64. The
-- scratch buffers and the datagram pool are memory reuse and are left out; the random IV of a
-- packet is an argument, `none` when the generator fails.

pub mod Numbers
pub mod Sequence
use swan.Common.{
  ℕ, zero, suc, ◌+◌, ◌-◌, ◌*◌, ◌%◌, ◌/◌, ◌^◌, ltb, leb, ◌==◌, if◌then◌else◌, Bool, true, false,
  ◌&&◌, ◌||◌, not, List, [], ◌∷◌, ◌++◌, length, Option, none, some,
}
use swan.Common.Outcome.{
  Outcome, ok, err, panic, ◌>>=◌, ◌>>◌, reject, panic_if, of_elem, index, slice, slice_from,
}
use swan.Wire.Be.{put_uint32}
use swan.Esp.Errors.{
  EspError, incomplete_configuration, seq_wrapped, empty_packet, unsupported_version, iv_failed,
  too_large, encrypt_failed, sign_failed, integrity_required,
}
use swan.Esp.Suite.{
  EncryptionAlg, Integrity, Selection, ChildKeys, PreparedEncryption, PreparedIntegrity, Crypto,
}
use swan.Esp.Inbound.{
  esp_header_len, next_header_ipv4, next_header_ipv6, prepared, Keyed, prepare_state, encryption_of,
  integrity_of, check_state,
}

abbrev pub max_wire_datagram : ℕ
max_wire_datagram = 65535

pub record FlowLimit : Type 0 where
  pub bytes : ℕ
  pub packets : ℕ

-- `has_flow_warn` says that the channel is not nil.
pub record OutboundConfig : Type 0 where
  pub spi : ℕ
  pub selection : Option Selection
  pub keys : Option ChildKeys
  pub warn_at : ℕ
  pub has_flow_warn : Bool
  pub flow_limit : FlowLimit

pub record Outbound : Type 0 where
  pub cfg : OutboundConfig
  pub seq : ℕ
  pub wrapped : Bool
  pub packets : ℕ
  pub bytes_out : ℕ
  pub warned : Bool
  pub enc : Option PreparedEncryption
  pub integ : Option PreparedIntegrity
  pub state_err : Option EspError

unfoldable pub prepare_outbound : Crypto → OutboundConfig → Outcome EspError Keyed
prepare_outbound crypto cfg = do
  selection ← prepared cfg.selection incomplete_configuration
  enc ← prepared selection.encryption incomplete_configuration
  keys ← prepared cfg.keys incomplete_configuration
  prepare_state crypto enc selection.integrity keys.sk_ei keys.sk_ai

abbrev pub bind_outbound : OutboundConfig → Outcome EspError Keyed → Outcome EspError Outbound
bind_outbound cfg m =
    let base : Outbound = record {
      cfg = cfg;
      seq = 1;
      wrapped = false;
      packets = 0;
      bytes_out = 0;
      warned = false;
      enc = none;
      integ = none;
      state_err = none;
    } in
    elim m [
      | ok (enc, integ) ↦ ok (record base { enc = some enc; integ = integ })
      | err e ↦ ok (record base { state_err = some e })
      | panic ↦ panic
    ]

unfoldable pub new_outbound : Crypto → OutboundConfig → Outcome EspError Outbound
new_outbound crypto cfg = bind_outbound cfg (prepare_outbound crypto cfg)

unfoldable pub ip_next_header : ℕ → Outcome EspError ℕ
ip_next_header first =
    let version = first / 16 in
    if version == 4
    then ok next_header_ipv4
    else if version == 6
    then ok next_header_ipv6
    else err (unsupported_version version)

-- The bytes `i`, `i + 1`, ... of the padding.
unfoldable pub pad_bytes : ℕ → ℕ → List ℕ
pad_bytes zero i = []
pad_bytes (suc n) i = i % 256 ∷ pad_bytes n (suc i)

unfoldable pub pad_len_of : ℕ → ℕ → ℕ
pad_len_of block_len n = (block_len - (n + 2) % block_len) % block_len

-- The packet, its padding, and the trailer. A block length of 0 divides by zero.
unfoldable pub pad_plain : EncryptionAlg → List ℕ → ℕ → Outcome EspError (List ℕ)
pad_plain enc packet next_header = do
  panic_if (enc.block_len == 0)
  let pad_len = pad_len_of enc.block_len (length packet)
  ok (packet ++ (pad_bytes pad_len 1 ++ (pad_len % 256 ∷ next_header ∷ [])))

-- The limits and the sequence number that call for a rekey.
unfoldable pub is_trigger : Outbound → Bool
is_trigger p =
    let limit = p.cfg.flow_limit in
    ltb 0 limit.bytes && leb limit.bytes p.bytes_out
    || ltb 0 limit.packets && leb limit.packets p.packets
    || ltb 0 p.cfg.warn_at && leb p.cfg.warn_at p.seq

-- `true` beside the state says that the trigger is sent, without blocking, on `FlowWarn`.
unfoldable pub check_flow_triggers : Outbound → Outbound × Bool
check_flow_triggers p =
    if p.warned || not p.cfg.has_flow_warn
    then (p, false)
    else if not (is_trigger p)
    then (p, false)
    else (record p { warned = true }, true)

-- A sequence number is used up, and the packet is counted.
unfoldable pub take_seq : Outbound → ℕ → Outbound × Bool
take_seq p n = check_flow_triggers (record p {
  seq = (p.seq + 1) % 2 ^ 32;
  packets = (p.packets + 1) % 2 ^ 64;
  bytes_out = (p.bytes_out + n) % 2 ^ 64;
})

abbrev pub integ_outer_icv : Option Integrity → ℕ
integ_outer_icv none = 0
integ_outer_icv (some integ) = integ.output_len

-- The length of the datagram that a padded text takes.
unfoldable pub wire_len : Outbound → EncryptionAlg → List ℕ → ℕ
wire_len p enc plain =
    let trailer_icv : ℕ =
      if enc.aead then enc.icv_len else integ_outer_icv (integrity_of p.cfg.selection) in
    esp_header_len + enc.iv_len + length plain + trailer_icv

-- The datagram of one sequence number: header, IV, sealed text, and the ICV where there is one.
unfoldable pub seal_datagram :
    Outbound → EncryptionAlg → ℕ → List ℕ → List ℕ → Outcome EspError (List ℕ)
seal_datagram p enc seq iv plain = do
  let n = wire_len p enc plain
  reject (ltb max_wire_datagram n) (too_large n)
  header0 ← put_uint32 (0 ∷ 0 ∷ 0 ∷ 0 ∷ 0 ∷ 0 ∷ 0 ∷ 0 ∷ []) 0 p.cfg.spi
  header ← put_uint32 header0 4 seq
  state ← prepared p.enc encrypt_failed
  sealed ← prepared (state.seal_to iv header plain) encrypt_failed
  let datagram : List ℕ = header ++ (iv ++ sealed)
  elim enc.aead [
    | true ↦ ok datagram
    | false ↦ do
      integ ← prepared p.integ integrity_required
      icv ← prepared (integ.sign datagram) sign_failed
      ok (datagram ++ icv)
  ]

abbrev pub Begun : Type 0
Begun = EncryptionAlg × List ℕ × List ℕ

-- `process` up to the sequence number: the algorithm, the padded text and the IV.
unfoldable pub begin : Outbound → Option (List ℕ) → List ℕ → Outcome EspError Begun
begin p fill packet = do
  reject p.wrapped seq_wrapped
  check_state p.state_err
  reject (length packet == 0) empty_packet
  first ← index packet 0
  next_header ← ip_next_header first
  enc ← of_elem (encryption_of p.cfg.selection)
  plain ← pad_plain enc packet next_header
  iv ← prepared fill iv_failed
  ok (enc, plain, iv)

-- The state after a packet, whether a trigger is sent, and the datagram.
abbrev pub Step : Type 0
Step = Outbound × Bool × Outcome EspError (List ℕ)

-- The rest of `process`. At sequence number 0 the counter has wrapped, for good.
unfoldable pub conclude : Outbound → ℕ → Outcome EspError Begun → Step
conclude p n (err e) = (p, false, err e)
conclude p n panic = (p, false, panic)
conclude p n (ok (enc, plain, iv)) =
    let (p', sent) = take_seq p n in
    if p.seq == 0
    then (record p { wrapped = true }, false, err seq_wrapped)
    else (p', sent, seal_datagram p' enc p.seq iv plain)

unfoldable pub process : Outbound → Option (List ℕ) → List ℕ → Step
process p fill packet = conclude p (length packet) (begin p fill packet)
