-- ===== src/Payload/Errors.antt =====
-- The errors of the package wire/payload, one constructor for each message.
use swan.Common.{ℕ}

pub data PayloadError : Type 0 where
  nonce_empty : PayloadError
  ke_too_short : ℕ → PayloadError
  ke_missing_data : PayloadError
  auth_too_short : ℕ → PayloadError
  auth_reserved : PayloadError
  cert_too_short : PayloadError
  cert_missing_der : PayloadError
  id_too_short : ℕ → PayloadError
  id_missing_data : PayloadError
  notify_too_short : ℕ → PayloadError
  notify_spi_exceeds : PayloadError
  notify_without_spi : ℕ → PayloadError
  notify_with_spi : ℕ → PayloadError
  delete_too_short : ℕ → PayloadError
  ike_delete_spi : PayloadError
  ike_delete_count : PayloadError
  esp_delete_size : ℕ → PayloadError
  esp_delete_count : PayloadError
  delete_protocol : ℕ → PayloadError
  delete_length : ℕ → ℕ → PayloadError
  transform_too_short : ℕ → PayloadError
  transform_length : ℕ → PayloadError
  transform_exceeds : ℕ → ℕ → PayloadError
  proposal_too_short : ℕ → PayloadError
  proposal_length : ℕ → PayloadError
  proposal_exceeds : ℕ → ℕ → PayloadError
  proposal_spi_exceeds : PayloadError
  proposal_no_transforms : PayloadError
  transform_index_short : ℕ → ℕ → PayloadError
  transform_chain_ended : ℕ → ℕ → PayloadError
  transform_marker : ℕ → PayloadError
  transform_missing_last : PayloadError
  proposal_trailing : ℕ → PayloadError
  key_length_size : ℕ → PayloadError
  key_length_format : PayloadError
  key_length_type : ℕ → PayloadError
  sa_proposal_short : ℕ → PayloadError
  sa_missing_last : PayloadError
  sa_marker : ℕ → PayloadError
  sa_missing_proposals : PayloadError
  ts_too_short : ℕ → PayloadError
  ts_reserved : PayloadError
  ts_entry_too_short : ℕ → PayloadError
  ts_unsupported_type : ℕ → PayloadError
  ts_protocol : ℕ → PayloadError
  ts_entry_length : ℕ → ℕ → PayloadError
  ts_entry_exceeds : ℕ → ℕ → PayloadError
  ts_port_reversed : ℕ → ℕ → PayloadError
  ts_address_reversed : PayloadError
  ts_selector : ℕ → PayloadError → PayloadError
  ts_trailing : ℕ → PayloadError
  config_too_short : ℕ → PayloadError
  config_kind : ℕ → PayloadError
  config_reserved : PayloadError
  config_attr_too_short : ℕ → PayloadError
  config_attr_exceeds : PayloadError
