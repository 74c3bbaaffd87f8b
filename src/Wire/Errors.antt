-- ===== src/Wire/Errors.antt =====
-- The errors of the package wire, one constructor for each message, with the values it prints.
use swan.Common.{ℕ}

-- wire/errors.go and the messages of wire/header.go.
pub data WireError : Type 0 where
  packet_too_short : ℕ → WireError
  total_below_header : ℕ → WireError
  total_exceeds_input : ℕ → ℕ → WireError
  unexpected_version : ℕ → WireError
  invalid_flags : ℕ → WireError
  skf_too_short : ℕ → WireError
  skf_numbers : ℕ → ℕ → WireError
  payload_header : ℕ → ℕ → WireError
  payload_length : ℕ → ℕ → WireError
  not_terminal : ℕ → ℕ → WireError
  unexpected_encrypted : ℕ → WireError
  trailing_bytes : ℕ → WireError

-- The messages of wire/builder.go.
pub data BuildError : Type 0 where
  payload_none : BuildError
  payload_too_large : ℕ → ℕ → BuildError
  packet_too_large : ℕ → BuildError
