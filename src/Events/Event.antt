-- ===== src/Events/Event.antt =====
-- The events that the hub hands on: the types of events/hub.go. Texts and addresses are lists of bytes.
use swan.Common.{ℕ, List}

pub data EventKind : Type 0 where
  event_starting : EventKind
  event_handshake_started : EventKind
  event_stage_changed : EventKind
  event_negotiated_algorithm : EventKind
  event_eap_process : EventKind
  event_handshake_completed : EventKind
  event_config_assigned : EventKind
  event_started : EventKind
  event_stopping : EventKind
  event_stopped : EventKind
  event_broken : EventKind
  event_assigned_updated : EventKind

pub data Stage : Type 0 where
  stage_ike_init : Stage
  stage_ike_auth : Stage
  stage_eap : Stage
  stage_child_sa : Stage
  stage_running : Stage

pub record NegotiatedAlgorithm : Type 0 where
  pub protocol : List ℕ
  pub encryption : List ℕ
  pub integrity : List ℕ
  pub prf : List ℕ
  pub dh : List ℕ

pub record EapProcess : Type 0 where
  pub method : List ℕ
  pub state : List ℕ
  pub round : ℕ

pub record Assigned : Type 0 where
  pub internal_ipv4 : List ℕ
  pub internal_ipv6 : List ℕ
  pub internal_ipv6_prefix : ℕ
  pub dns4 : List (List ℕ)
  pub dns6 : List (List ℕ)
  pub address_expiry_seconds : ℕ

pub record Event : Type 0 where
  pub kind : EventKind
  pub stage : Stage
  pub alg : NegotiatedAlgorithm
  pub eap : EapProcess
  pub assigned : Assigned
  pub reason : List ℕ
