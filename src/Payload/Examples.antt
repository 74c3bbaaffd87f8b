-- ===== src/Payload/Examples.antt =====
-- The theorems on the payload bodies at concrete bodies.
use swan.Common.{
  ℕ, ◌+◌, ◌*◌, ◌≤◌, ◌≡◌, ◌⊎◌, inl, inr, refl, arith, List, [], ◌∷◌, ◌++◌, length, drop, All,
}
use swan.Common.Outcome.{ok, Ensures}
use swan.Payload.Ip.{v4_prefix, compare_ip, compare_bytes}
use swan.Payload.Simple.{KeyExchange, append_ke, parse_ke}
use swan.Payload.Simple.RoundTrip.{parse_ke-append}
use swan.Payload.Notify.{Notify, append_notify, parse_notify, Delete, append_delete, parse_delete}
use swan.Payload.Notify.RoundTrip.{IsScoped, parse_notify-append, parse_delete-append}
use swan.Payload.Notify.Safety.{parse_notify-Ensures, parse_delete-Ensures}
use swan.Payload.Proposal.{transforms_len, Proposal, append_sa, parse_sa}
use swan.Payload.Proposal.RoundTrip.{parse_sa-append}
use swan.Payload.Proposal.Safety.{parse_sa-Ensures}
use swan.Payload.TrafficSelector.{Selector, append_ts, parse_ts}
use swan.Payload.TrafficSelector.RoundTrip.{IsSelector, parse_ts-append}
use swan.Payload.Config.{ConfigPayload, append_config_payload, parse_config_payload}
use swan.Payload.Config.RoundTrip.{parse_config_payload-append}

-- A value of group 31.
abbrev some_ke : KeyExchange
some_ke = record { dh_group = 31; data' = 7 ∷ 8 ∷ 9 ∷ [] }

parse_ke-append_example :
    (body : List ℕ) × (append_ke (1 ∷ []) some_ke ≡ ok (1 ∷ body)) × (parse_ke body ≡ ok some_ke)
parse_ke-append_example = parse_ke-append (1 ∷ []) some_ke (omega arith) (omega arith)

-- REKEY_SA of an ESP SPI.
abbrev rekey : Notify
rekey = record { protocol_id = 3; spi = 1 ∷ 2 ∷ 3 ∷ 4 ∷ []; type = 16393; data' = [] }

parse_notify-append_example :
    (body : List ℕ) × (append_notify [] rekey ≡ ok body) × (parse_notify body ≡ ok rekey)
parse_notify-append_example =
    parse_notify-append [] rekey (omega arith) (omega arith) (inr (omega arith, inr refl))

abbrev rekey_bytes : List ℕ
rekey_bytes = 3 ∷ 4 ∷ 0x40 ∷ 9 ∷ 1 ∷ 2 ∷ 3 ∷ 4 ∷ []

parse_notify-Ensures_example :
    Ensures
      (λ (n : Notify).
        IsScoped n
        × (length n.spi ≡ 4)
        × (n.spi ≡ 1 ∷ 2 ∷ 3 ∷ 4 ∷ [])
        × (n.data' ≡ drop (4 + 4) rekey_bytes))
      (parse_notify rekey_bytes)
parse_notify-Ensures_example = parse_notify-Ensures rekey_bytes

-- Two ESP SAs.
abbrev two_spis : Delete
two_spis = record { protocol_id = 3; spis = 0xdeadbeef ∷ 256 ∷ [] }

parse_delete-append_example :
    (body : List ℕ) × (append_delete [] two_spis ≡ ok body) × (parse_delete body ≡ ok two_spis)
parse_delete-append_example =
    parse_delete-append [] two_spis (inr (refl, omega arith, omega arith))
      (omega arith, (omega arith, tt))

abbrev delete_bytes : List ℕ
delete_bytes = 3 ∷ 4 ∷ 0 ∷ 1 ∷ 0 ∷ 0 ∷ 1 ∷ 0 ∷ []

parse_delete-Ensures_example :
    Ensures
      (λ (d : Delete).
        ((d.protocol_id ≡ 1) × (length d.spis ≡ 0) × (length delete_bytes ≡ 4))
        ⊎ ((d.protocol_id ≡ 3)
            × (1 ≤ length d.spis)
            × (length delete_bytes ≡ 4 + length d.spis * 4)))
      (parse_delete delete_bytes)
parse_delete-Ensures_example = parse_delete-Ensures delete_bytes

-- AES-GCM-16 with a 256-bit key, and a group.
abbrev some_proposal : Proposal
some_proposal = record {
  num = 1;
  protocol_id = 3;
  spi = 1 ∷ 2 ∷ 3 ∷ 4 ∷ [];
  transforms =
      record { type = 1; id = 20; attrs = 0x80 ∷ 14 ∷ 1 ∷ 0 ∷ [] }
      ∷ record { type = 5; id = 0; attrs = [] }
      ∷ [];
}

parse_sa-append_example :
    (body : List ℕ) × (append_sa [] (some_proposal ∷ []) ≡ ok body)
    × (parse_sa body ≡ ok (some_proposal ∷ []))
unfolding transforms_len
parse_sa-append_example = parse_sa-append [] some_proposal [] (
  record {
    spi = omega arith;
    transforms = ((omega arith, omega arith), ((omega arith, omega arith), tt));
    some_transform = omega arith;
    count = omega arith;
    total = omega arith;
  },
  tt,
)

-- One proposal of one transform.
abbrev sa_bytes : List ℕ
sa_bytes = 0 ∷ 0 ∷ 0 ∷ 16 ∷ 1 ∷ 1 ∷ 0 ∷ 1 ∷ 0 ∷ 0 ∷ 0 ∷ 8 ∷ 1 ∷ 0 ∷ 0 ∷ 12 ∷ []

parse_sa-Ensures_example :
    Ensures
      (λ (ps : List Proposal). (1 ≤ length ps) × All (λ (p : Proposal). 1 ≤ length p.transforms) ps)
      (parse_sa sa_bytes)
parse_sa-Ensures_example = parse_sa-Ensures sa_bytes

-- 10.0.0.0 to 10.0.0.255, any port.
abbrev subnet : Selector
subnet = record {
  type = 7;
  protocol_id = 0;
  start_port = 0;
  end_port = 65535;
  start_addr = v4_prefix ++ (10 ∷ 0 ∷ 0 ∷ 0 ∷ []);
  end_addr = v4_prefix ++ (10 ∷ 0 ∷ 0 ∷ 255 ∷ []);
}

subnet-IsSelector : IsSelector subnet
unfolding compare_ip compare_bytes
subnet-IsSelector = record {
  start_octets = 10 ∷ 0 ∷ 0 ∷ 0 ∷ [];
  end_octets = 10 ∷ 0 ∷ 0 ∷ 255 ∷ [];
  start_has = inl (refl, refl, refl);
  end_has = inl (refl, refl, refl);
  any_protocol = refl;
  ports = omega arith;
  end_port_fits = omega arith;
  addresses = refl;
}

parse_ts-append_example :
    (body : List ℕ) × (append_ts [] (subnet ∷ []) ≡ ok body) × (parse_ts body ≡ ok (subnet ∷ []))
parse_ts-append_example = parse_ts-append [] (subnet ∷ []) (omega arith) (subnet-IsSelector, tt)

abbrev ts_bytes : List ℕ
ts_bytes =
    1 ∷ 0 ∷ 0 ∷ 0 ∷ 7 ∷ 0 ∷ 0 ∷ 16 ∷ 0 ∷ 0 ∷ 255 ∷ 255 ∷ 10 ∷ 0 ∷ 0 ∷ 0 ∷ 10 ∷ 0 ∷ 0 ∷ 255 ∷ []

-- A reply with an address.
abbrev some_reply : ConfigPayload
some_reply = record { kind = 2; attributes = record { type = 1; value = 10 ∷ 0 ∷ 0 ∷ 2 ∷ [] } ∷ [] }

parse_config_payload-append_example :
    (body : List ℕ) × (append_config_payload [] some_reply ≡ ok body)
    × (parse_config_payload body ≡ ok some_reply)
parse_config_payload-append_example =
    parse_config_payload-append [] some_reply (inr refl) ((omega arith, omega arith), tt)

abbrev reply_bytes : List ℕ
reply_bytes = 2 ∷ 0 ∷ 0 ∷ 0 ∷ 0 ∷ 1 ∷ 0 ∷ 4 ∷ 10 ∷ 0 ∷ 0 ∷ 2 ∷ []
