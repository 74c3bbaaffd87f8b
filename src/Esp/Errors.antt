-- ===== src/Esp/Errors.antt =====
-- What the ESP workers report: the errors of esp/inflow.go and esp/outflow.go.
use swan.Common.{ℕ}

pub data EspError : Type 0 where
  incomplete_configuration : EspError
  prepare_encryption : EspError
  prepare_integrity : EspError
  spi_mismatch : EspError
  too_short_for_header : EspError
  zero_sequence : EspError
  integrity_required : EspError
  too_short_for_iv_icv : EspError
  integrity_failed : EspError
  decrypt_failed : EspError
  missing_trailer : EspError
  bad_padding : EspError
  unsupported_inner : ℕ → EspError
  empty_inner : EspError
  replayed : EspError
  seq_wrapped : EspError
  empty_packet : EspError
  unsupported_version : ℕ → EspError
  iv_failed : EspError
  too_large : ℕ → EspError
  encrypt_failed : EspError
  sign_failed : EspError
