-- ===== src/Wire/Consts.antt =====
-- The numbers of wire/consts.go that the code below tests. The typed constants are their numbers.
use swan.Common.{ℕ}

-- Header / payload envelope numbers.
abbrev pub header_len : ℕ
header_len = 28

abbrev pub payload_header_len : ℕ
payload_header_len = 4

abbrev pub skf_header_len : ℕ
skf_header_len = 4

abbrev pub ike_default_version : ℕ
ike_default_version = 0x20

-- IKE header flag bits.
abbrev pub flag_initiator : ℕ
flag_initiator = 0x08

abbrev pub flag_version : ℕ
flag_version = 0x10

abbrev pub flag_response : ℕ
flag_response = 0x20

-- Payload types.
abbrev pub payload_type_none : ℕ
payload_type_none = 0

abbrev pub payload_type_notify : ℕ
payload_type_notify = 41

abbrev pub payload_type_sk : ℕ
payload_type_sk = 46

abbrev pub payload_type_skf : ℕ
payload_type_skf = 53

-- Exchange types.
abbrev pub exchange_ike_sa_init : ℕ
exchange_ike_sa_init = 34

abbrev pub exchange_ike_auth : ℕ
exchange_ike_auth = 35

-- Notify and delete protocol ids.
abbrev pub notify_protocol_none : ℕ
notify_protocol_none = 0

abbrev pub delete_protocol_ike : ℕ
delete_protocol_ike = 1

abbrev pub delete_protocol_ah : ℕ
delete_protocol_ah = 2

abbrev pub delete_protocol_esp : ℕ
delete_protocol_esp = 3

-- Transform / proposal chaining values, and the encoding of transform attributes.
abbrev pub transform_chain_last : ℕ
transform_chain_last = 0

abbrev pub proposal_chain_more : ℕ
proposal_chain_more = 2

abbrev pub transform_chain_more : ℕ
transform_chain_more = 3

abbrev pub transform_attr_key_length : ℕ
transform_attr_key_length = 14

abbrev pub transform_attr_format_tv : ℕ
transform_attr_format_tv = 0x8000

-- Configuration payload kinds and attributes.
abbrev pub config_type_request : ℕ
config_type_request = 1

abbrev pub config_type_reply : ℕ
config_type_reply = 2

abbrev pub config_type_set : ℕ
config_type_set = 3

abbrev pub config_type_ack : ℕ
config_type_ack = 4

abbrev pub config_attr_internal_ipv4_address : ℕ
config_attr_internal_ipv4_address = 1

abbrev pub config_attr_internal_ipv4_dns : ℕ
config_attr_internal_ipv4_dns = 3

abbrev pub config_attr_internal_ipv6_address : ℕ
config_attr_internal_ipv6_address = 8

abbrev pub config_attr_internal_ipv6_dns : ℕ
config_attr_internal_ipv6_dns = 10
