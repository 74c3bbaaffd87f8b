-- ===== src/Esp/Link.antt =====
-- The two workers back to back: what one end seals, the other end delivers.
pub mod Receive
pub mod Send
use mathlib.Core.Path.{subst}
use native.Mathlib.Nat.{mod-lt, mod_self, add-mod-mod, mod-add-mod, mod-eq_of_lt}
use swan.Common.{
  ℕ, zero, suc, ◌+◌, ◌-◌, ◌*◌, ◌%◌, ◌^◌, ◌/◌, ◌≤◌, ◌<◌, ◌≡◌, ◌≢◌, ◌⊎◌, inl, inr, refl, sym, ap, ◌∙◌,
  arith, Bool, true, false, not, ◌||◌, ◌&&◌, List, [], ◌∷◌, ◌++◌, length, take, drop, ltb, leb,
  ◌==◌, if◌then◌else◌, Bool-cases, Option, some, none, ne→==, eq→==, le→ltb, lt→ltb, append_assoc,
  get_or, length-append, get_or-append, take-append_length, drop-append_length,
}
use swan.Common.Outcome.{
  Outcome, ok, err, panic, ◌>>=◌, ◌>>◌, reject, Ensures, Ensures-mono, >>=-Ensures, reject-Ensures,
  >>=-ok, reject-ok, index_ok, of_elem, slice_ok, slice_from_ok,
}
use swan.Common.Bits.{byte_at}
use swan.Wire.Be.Laws.{be_uint32-put, put_uint32_ok}
use swan.Esp.Errors.{
  EspError, decrypt_failed, integrity_required, encrypt_failed, sign_failed, replayed,
}
use swan.Esp.Suite.{
  EncryptionAlg, Integrity, PreparedEncryption, PreparedIntegrity, Pair, IntegrityPair, verify,
  equal,
}
use swan.Esp.Inbound.{
  Inbound, check_state, prepared, accept_spi, icv_len_of, open_body, strip_trailer, decrypt,
  encryption_of, integrity_of,
}
use swan.Esp.Inbound.{process as receive}
use swan.Esp.Inbound.Ready.{prepared_bind}
use swan.Esp.Inbound.Delivery.{serve, process-serve}
use swan.Esp.Replay.Moves.{allowed, Tracks}
use swan.Esp.Outbound.{
  Outbound, OutboundConfig, process, Begun, Step, ip_next_header, pad_bytes, pad_len_of, pad_plain,
  begin, take_seq, check_flow_triggers, is_trigger, seal_datagram, wire_len, conclude,
}
use swan.Esp.Trailer.{IsBlock}
use swan.Esp.Outbound.Numbers.{header_of}

-- Two ends of one SA: `p` sends what `q` receives, with one algorithm, one SPI and one key, and,
-- where the cipher has no tag, one authenticator.
pub record Linked (p : Outbound) (q : Inbound) : Type 0 where
  pub alg : EncryptionAlg
  pub sender : PreparedEncryption
  pub receiver : PreparedEncryption
  pub block : IsBlock alg
  pub p_alg : encryption_of p.cfg.selection ≡ some alg
  pub q_alg : q.alg ≡ some alg
  pub p_enc : p.enc ≡ some sender
  pub q_enc : q.enc ≡ some receiver
  pub pair : Pair alg sender receiver
  pub q_ready : q.state_err ≡ none
  pub same_spi : p.cfg.spi ≡ q.spi
  pub spi_fits : q.spi < 2 ^ 32
  pub auth :
      (alg.aead ≡ true)
      ⊎ ((alg.aead ≡ false)
          × (alg.icv_len ≡ 0)
          × ((ia : Integrity) × (si : PreparedIntegrity) × (ri : PreparedIntegrity) × (q.integ_alg
                ≡ some ia)
              × (p.integ ≡ some si)
              × (q.integ ≡ some ri)
              × IntegrityPair ia si ri))
