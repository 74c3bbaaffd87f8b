-- ===== src/Esp/Inbound.antt =====
-- The inbound worker: esp/inflow.go. The plaintext pool is memory reuse and is left out: a packet
-- is a list of its own.
pub mod Ready
pub mod Safety
pub mod Delivery
use swan.Common.{
  ℕ, ◌+◌, ◌-◌, ltb, ◌==◌, if◌then◌else◌, Bool, true, false, ◌&&◌, ◌||◌, not, List, [], ◌∷◌, ◌++◌,
  length, Option, none, some,
}
use swan.Common.Outcome.{
  Outcome, ok, err, panic, ◌>>=◌, ◌>>◌, reject, of_elem, index, slice, slice_from,
}
use swan.Wire.Be.{be_uint32}
use swan.Esp.Errors.{
  EspError, incomplete_configuration, prepare_encryption, prepare_integrity, spi_mismatch,
  too_short_for_header, zero_sequence, integrity_required, too_short_for_iv_icv, integrity_failed,
  decrypt_failed, missing_trailer, bad_padding, unsupported_inner, empty_inner, replayed,
}
use swan.Esp.Replay.{ReplayWindow, accept, reset}
use swan.Esp.Suite.{
  EncryptionAlg, Integrity, verify, Selection, ChildKeys, PreparedEncryption, PreparedIntegrity,
  Crypto,
}

abbrev pub esp_header_len : ℕ
esp_header_len = 8

abbrev pub next_header_ipv4 : ℕ
next_header_ipv4 = 4

abbrev pub next_header_ipv6 : ℕ
next_header_ipv6 = 41

pub record InboundConfig : Type 0 where
  pub spi : ℕ
  pub selection : Option Selection
  pub keys : Option ChildKeys

-- `alg` and `integ_alg` are the pointers `cfg.Selection.Encryption` and `cfg.Selection.Integrity`.
pub record Inbound : Type 0 where
  pub spi : ℕ
  pub alg : Option EncryptionAlg
  pub integ_alg : Option Integrity
  pub window : ReplayWindow
  pub enc : Option PreparedEncryption
  pub integ : Option PreparedIntegrity
  pub state_err : Option EspError

abbrev pub Keyed : Type 0
Keyed = PreparedEncryption × Option PreparedIntegrity

-- A state is prepared, or the error `e` is returned.
abbrev pub prepared {ℓ} : {A : Type ℓ} → Option A → EspError → Outcome EspError A
prepared none e = err e
prepared (some s) e = ok s

-- The end of `prepareInbound` and of `prepareOutbound`, for the two keys of the direction.
unfoldable pub prepare_state :
    Crypto → EncryptionAlg → Option Integrity → List ℕ → List ℕ → Outcome EspError Keyed
prepare_state crypto enc integ_alg enc_key integ_key = do
  state ← prepared (crypto.prepare enc enc_key) prepare_encryption
  elim enc.aead [
    | true ↦ ok (state, none)
    | false ↦ do
      alg ← prepared integ_alg integrity_required
      integ ← prepared (crypto.prepare_integ alg integ_key) prepare_integrity
      ok (state, some integ)
  ]

abbrev pub encryption_of : Option Selection → Option EncryptionAlg
encryption_of none = none
encryption_of (some s) = s.encryption

abbrev pub integrity_of : Option Selection → Option Integrity
integrity_of none = none
integrity_of (some s) = s.integrity

unfoldable pub prepare_inbound : Crypto → InboundConfig → Outcome EspError Keyed
prepare_inbound crypto cfg = do
  selection ← prepared cfg.selection incomplete_configuration
  enc ← prepared selection.encryption incomplete_configuration
  keys ← prepared cfg.keys incomplete_configuration
  prepare_state crypto enc selection.integrity keys.sk_er keys.sk_ar

abbrev pub bind_inbound : InboundConfig → Outcome EspError Keyed → Outcome EspError Inbound
bind_inbound cfg m =
    let base : Inbound = record {
      spi = cfg.spi;
      alg = encryption_of cfg.selection;
      integ_alg = integrity_of cfg.selection;
      window = reset;
      enc = none;
      integ = none;
      state_err = none;
    } in
    elim m [
      | ok (enc, integ) ↦ ok (record base { enc = some enc; integ = integ })
      | err e ↦ ok (record base { state_err = some e })
      | panic ↦ panic
    ]

-- `NewInbound`: an error of the preparation is kept in the state.
unfoldable pub new_inbound : Crypto → InboundConfig → Outcome EspError Inbound
new_inbound crypto cfg = bind_inbound cfg (prepare_inbound crypto cfg)

unfoldable pub accept_spi : Inbound → List ℕ → Outcome EspError Bool
accept_spi p datagram =
    if ltb (length datagram) esp_header_len
    then ok false
    else do sb ← slice datagram 0 4; spi ← be_uint32 sb; ok (spi == p.spi)

-- The tag's length: the AEAD's own, or the integrity transform's.
unfoldable pub icv_len_of : EncryptionAlg → Option Integrity → Outcome EspError ℕ
icv_len_of enc integ_alg = elim enc.aead [
  | true ↦ ok enc.icv_len
  | false ↦ do integ ← prepared integ_alg integrity_required; ok integ.output_len
]

-- The text of a datagram, authenticated and decrypted.
unfoldable pub open_body :
    Inbound → EncryptionAlg → ℕ → List ℕ → List ℕ → List ℕ → Outcome EspError (List ℕ)
open_body p enc icv_len datagram iv rest = elim enc.aead [
  | true ↦ do
    state ← prepared p.enc decrypt_failed
    aad ← slice datagram 0 esp_header_len
    prepared (state.open_to iv aad rest) decrypt_failed
  | false ↦ do
    integ ← prepared p.integ integrity_required
    ciphertext ← slice rest 0 (length rest - icv_len)
    received ← slice_from rest (length rest - icv_len)
    auth_area ← slice datagram 0 (length datagram - icv_len)
    reject (not (verify integ auth_area received)) integrity_failed
    state ← prepared p.enc decrypt_failed
    prepared (state.open_to iv [] ciphertext) decrypt_failed
]

-- The inner packet: the text without its padding and its two trailer bytes.
unfoldable pub strip_trailer : List ℕ → Outcome EspError (List ℕ)
strip_trailer plain = do
  reject (ltb (length plain) 2) missing_trailer
  pad_len ← index plain (length plain - 2)
  next_header ← index plain (length plain - 1)
  reject (ltb (length plain) (pad_len + 2)) bad_padding
  reject (not (next_header == next_header_ipv4) && not (next_header == next_header_ipv6))
      (unsupported_inner next_header)
  inner ← slice plain 0 (length plain - pad_len - 2)
  reject (length inner == 0) empty_inner
  ok inner

abbrev pub check_state : Option EspError → Outcome EspError (Unit {0})
check_state none = ok tt
check_state (some e) = err e

-- `ProcessPooled` up to the replay window: the sequence number and the inner packet.
unfoldable pub decrypt : Inbound → List ℕ → Outcome EspError (ℕ × List ℕ)
decrypt p datagram = do
  check_state p.state_err
  mine ← accept_spi p datagram
  reject (not mine) spi_mismatch
  reject (ltb (length datagram) esp_header_len) too_short_for_header
  sb ← slice datagram 4 8
  seq ← be_uint32 sb
  reject (seq == 0) zero_sequence
  enc ← of_elem p.alg
  icv_len ← icv_len_of enc p.integ_alg
  body ← slice_from datagram esp_header_len
  reject (ltb (length body) (enc.iv_len + icv_len)) too_short_for_iv_icv
  iv ← slice body 0 enc.iv_len
  rest ← slice_from body enc.iv_len
  plain ← open_body p enc icv_len datagram iv rest
  inner ← strip_trailer plain
  ok (seq, inner)

-- The window's answer decides whether the packet is delivered.
unfoldable pub deliver : Inbound → ℕ → List ℕ → Inbound × Outcome EspError (List ℕ)
deliver p seq inner =
    let (window', fresh) = accept seq p.window in
    (record p { window = window' }, if fresh then ok inner else err replayed)

abbrev pub conclude : Inbound → Outcome EspError (ℕ × List ℕ) → Inbound × Outcome EspError (List ℕ)
conclude p (ok (seq, inner)) = deliver p seq inner
conclude p (err e) = (p, err e)
conclude p panic = (p, panic)

unfoldable pub process : Inbound → List ℕ → Inbound × Outcome EspError (List ℕ)
process p datagram = conclude p (decrypt p datagram)
