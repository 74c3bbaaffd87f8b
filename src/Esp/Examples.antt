-- ===== src/Esp/Examples.antt =====
-- The theorems on the ESP data path at concrete workers: the cipher adds a tag of twelve bytes and
-- hides nothing.
use swan.Common.{
  ℕ, ◌-◌, ◌%◌, ◌≤◌, ◌≡◌, inl, refl, sym, ap, ◌∙◌, arith, true, false, List, [], ◌∷◌, ◌++◌, length,
  take, if◌then◌else◌, Option, none, some, take-append_length, length-append,
}
use swan.Common.Outcome.{ok, err, Ensures}
use swan.Esp.Errors.{replayed}
use swan.Esp.Replay.{reset, accept_all}
use swan.Esp.Replay.Moves.{allowed, allowed_all, Tracks}
use swan.Esp.Replay.Refinement.{accept_all-reset, reset-Tracks}
use swan.Esp.Suite.{EncryptionAlg, Selection, ChildKeys, PreparedEncryption, Crypto, Pair}
use swan.Esp.Inbound.{
  Inbound, InboundConfig, new_inbound, prepare_inbound, prepare_state, decrypt, strip_trailer,
}
use swan.Esp.Inbound.{process as receive}
use swan.Esp.Inbound.Delivery.{serve, process-serve, delivered, Distinct, delivered-Distinct}
use swan.Esp.Outbound.{Outbound, OutboundConfig, new_outbound, prepare_outbound, process, pad_plain}
use swan.Esp.Outbound.Numbers.{Input, numbers, Ascending, triggers}
use swan.Esp.Outbound.Sequence.{numbers-Ascending, triggers_once}
use swan.Esp.Trailer.{pad_plain-strip_trailer}
use swan.Esp.Link.{Linked}
use swan.Esp.Link.Send.{process-process}
use swan.Transport.Frame.{kind_esp, classify}
use swan.Transport.Routing.{process-classify}

accept_all-reset_example :
    accept_all (5 ∷ 3 ∷ 5 ∷ 200 ∷ 100 ∷ []) reset ≡ allowed_all (5 ∷ 3 ∷ 5 ∷ 200 ∷ 100 ∷ []) []
accept_all-reset_example = accept_all-reset (5 ∷ 3 ∷ 5 ∷ 200 ∷ 100 ∷ [])

-- AES-GCM with a tag of 12 bytes.
abbrev gcm12 : EncryptionAlg
gcm12 = record {
  transform_id = 19;
  transform_key_len = 16;
  key_len = 20;
  salt_len = 4;
  iv_len = 8;
  block_len = 1;
  icv_len = 12;
  aead = true;
}

abbrev tag : List ℕ
tag = 0 ∷ 0 ∷ 0 ∷ 0 ∷ 0 ∷ 0 ∷ 0 ∷ 0 ∷ 0 ∷ 0 ∷ 0 ∷ 0 ∷ []

abbrev plain_cipher : PreparedEncryption
plain_cipher = record {
  seal_to = λ iv aad plain. some (plain ++ tag);
  open_to = λ iv aad sealed. some (take (length sealed - 12) sealed);
}

abbrev crypto : Crypto
crypto = record { prepare = λ alg key. some plain_cipher; prepare_integ = λ integ key. none }

abbrev some_selection : Option Selection
some_selection = some (record { encryption = some gcm12; integrity = none })

abbrev some_keys : Option ChildKeys
some_keys = some (record { sk_ei = []; sk_ai = []; sk_er = []; sk_ar = [] })

abbrev in_config : InboundConfig
in_config = record { spi = 0x1000; selection = some_selection; keys = some_keys }

abbrev out_config : OutboundConfig
out_config = record {
  spi = 0x1000;
  selection = some_selection;
  keys = some_keys;
  warn_at = 3;
  has_flow_warn = true;
  flow_limit = record { bytes = 0; packets = 0 };
}

abbrev receiver : Inbound
receiver = record {
  spi = 0x1000;
  alg = some gcm12;
  integ_alg = none;
  window = reset;
  enc = some plain_cipher;
  integ = none;
  state_err = none;
}

abbrev sender : Outbound
sender = record {
  cfg = out_config;
  seq = 1;
  wrapped = false;
  packets = 0;
  bytes_out = 0;
  warned = false;
  enc = some plain_cipher;
  integ = none;
  state_err = none;
}

receiver-new : new_inbound crypto in_config ≡ ok receiver
unfolding new_inbound prepare_inbound prepare_state
receiver-new = refl

sender-new : new_outbound crypto out_config ≡ ok sender
unfolding new_outbound prepare_outbound prepare_state
sender-new = refl

-- The front of an IPv4 packet.
abbrev some_packet : List ℕ
some_packet = 0x45 ∷ 0 ∷ 0 ∷ 4 ∷ []

abbrev some_iv : List ℕ
some_iv = 1 ∷ 2 ∷ 3 ∷ 4 ∷ 5 ∷ 6 ∷ 7 ∷ 8 ∷ []

abbrev inputs : List Input
inputs =
    (some some_iv, some_packet)
    ∷ (none, some_packet)
    ∷ (some some_iv, [])
    ∷ (some some_iv, some_packet)
    ∷ (some some_iv, some_packet)
    ∷ []

-- What the sender makes of the packet.
abbrev datagram : List ℕ
datagram = 0 ∷ 0 ∷ 0x10 ∷ 0 ∷ 0 ∷ 0 ∷ 0 ∷ 1 ∷ (some_iv ++ (some_packet ++ (0 ∷ 4 ∷ tag)))

process-serve_example :
    ((receive receiver datagram).1 ≡ (serve [] (decrypt receiver datagram)).1)
    × Tracks (receive receiver datagram).0.window (serve [] (decrypt receiver datagram)).0
    × ((receive receiver datagram).0
        ≡ record receiver { window = (receive receiver datagram).0.window })
process-serve_example = process-serve receiver [] datagram reset-Tracks

delivered-Distinct_example : Distinct (delivered receiver (datagram ∷ datagram ∷ []))
delivered-Distinct_example =
    delivered-Distinct crypto in_config receiver (datagram ∷ datagram ∷ []) receiver-new

numbers-Ascending_example : Ascending 1 (numbers sender inputs)
numbers-Ascending_example = numbers-Ascending crypto out_config sender inputs sender-new

triggers_once_example : triggers sender inputs ≤ 1
triggers_once_example = triggers_once sender inputs

pad_plain-strip_trailer_example :
    (plain : List ℕ) × (pad_plain gcm12 some_packet 4 ≡ ok plain)
    × (strip_trailer plain ≡ ok some_packet)
    × (length plain % 1 ≡ 0)
pad_plain-strip_trailer_example =
    pad_plain-strip_trailer gcm12 some_packet 4 (omega arith, omega arith) (omega arith) (inl refl)

some-injective : {x y : List ℕ} → some x ≡ some y → x ≡ y
some-injective {x = x} e = ap (λ o. elim o [ some v ↦ v | none ↦ x ]) e

plain_cipher-Pair : Pair gcm12 plain_cipher plain_cipher
plain_cipher-Pair = record {
  open-seal = λ iv aad aad' plain sealed h e.
      let s : plain ++ tag ≡ sealed = some-injective e in
      ap some (
        ap (λ (t : List ℕ). take (length t - 12) t) (sym s)
        ∙ take-append_length plain tag (length (plain ++ tag) - 12)
            (omega (arith, length-append plain tag)));
  length-seal = λ iv aad plain sealed e.
      let s : plain ++ tag ≡ sealed = some-injective e in
      ap (λ (t : List ℕ). length t) (sym s) ∙ length-append plain tag;
}

abbrev link : Linked sender receiver
link = record {
  alg = gcm12;
  sender = plain_cipher;
  receiver = plain_cipher;
  block = (omega arith, omega arith);
  p_alg = refl;
  q_alg = refl;
  p_enc = refl;
  q_enc = refl;
  pair = plain_cipher-Pair;
  q_ready = refl;
  same_spi = refl;
  spi_fits = omega arith;
  auth = inl refl;
}

process-process_example :
    Ensures
      (λ (d : List ℕ).
        (receive receiver d).1 ≡ (if allowed 1 [] then ok some_packet else err replayed))
      (process sender (some some_iv) some_packet).2
process-process_example =
    process-process sender receiver link some_iv some_packet [] (omega arith) refl reset-Tracks

process-classify_example :
    Ensures (λ (d : List ℕ). classify d ≡ kind_esp) (process sender (some some_iv) some_packet).2
process-classify_example =
    process-classify sender receiver link some_iv some_packet (omega arith) refl (omega arith)
