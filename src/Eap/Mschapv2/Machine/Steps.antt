-- ===== src/Eap/Mschapv2/Machine/Steps.antt =====
-- Every step of the MSCHAPv2 peer keeps what its state says of the packets it has seen.
use mathlib.Core.Path.{subst}
use swan.Common.{branches, ℕ, ◌≡◌, inl, refl, sym, ◌==◌, ==_iff, List, [], ◌∷◌, Option, none, some}
use swan.Common.Outcome.{Outcome, ok, err, panic}
use swan.Eap.Packet.{EapError, EapPacket, parse_eap, code_request, code_success, code_failure}
use swan.Eap.Avp.{type_identity}
use swan.Eap.Mschapv2.Text.{MschapError}
use swan.Eap.Mschapv2.Derive.{MschapCrypto}
use swan.Eap.Mschapv2.Machine.{
  Phase, negotiating, failed, completed, ChallengeState, Method, Result, Step, MschapRequest,
  read_request, answer_challenge, op_challenge, op_success, op_failure, type_mschapv2, phase_of,
  Answer, await_success, check_success, settle, on_success, give_up, on_read, of_request,
  on_eap_success, on_eap_request, on_packet, handle, is_failed,
}
use swan.Eap.Mschapv2.Machine.Trust.{
  Input, after, fresh, Requests, HasSeen, Sound, HasSeen-later, answer_fresh, if_true,
  check_success_ok,
}

module _ (c : MschapCrypto) (identity password : List ℕ) where
  abbrev IsSound : List Input → Method → Type 0
  IsSound = Sound c identity password

  Sound-later :
      (x : Input) (seen : List Input) (m : Method) (p : Phase)
      → IsSound seen m
      → IsSound (x ∷ seen) (record m { phase = p })
  Sound-later x seen m p (i, w, h) = (i, w, HasSeen-later c identity password x seen m.state h)

  await_success-Sound :
      (random : Option (List ℕ)) (packet : List ℕ) (seen : List Input) (m : Method)
      (pkt : EapPacket) (r : MschapRequest) (o : Outcome MschapError Answer)
      → Requests packet 1 pkt r
      → answer_challenge c m random pkt.identifier r.mschap_id r.data' ≡ o
      → IsSound seen m
      → IsSound ((random, packet) ∷ seen) (await_success m r.mschap_id o).0
  await_success-Sound random packet seen m pkt r (ok a) q e (i, w, h) = (
    i,
    w,
    inl (
      pkt,
      r,
      a,
      q,
      refl,
      subst
          (λ j.
            answer_challenge c (fresh j password) random pkt.identifier r.mschap_id r.data' ≡ ok a)
          i
          (subst
            (λ v.
              answer_challenge c (fresh m.identity v) random pkt.identifier r.mschap_id r.data'
              ≡ ok a)
            w (answer_fresh c m random pkt.identifier r.mschap_id r.data' a e)),
      refl,
      refl,
    ),
  )
  await_success-Sound random packet seen m pkt r (err x) q e h =
      Sound-later (random, packet) seen m m.phase h
  await_success-Sound random packet seen m pkt r panic q e h =
      Sound-later (random, packet) seen m m.phase h

  settle-Sound :
      (random : Option (List ℕ)) (packet : List ℕ) (seen : List Input) (m : Method)
      (pkt : EapPacket) (r : MschapRequest) (s : ChallengeState) (o : Outcome MschapError (List ℕ))
      → Requests packet 3 pkt r
      → check_success s pkt.identifier r.mschap_id r.data' ≡ o
      → HasSeen c identity password seen (some s)
      → IsSound seen m
      → IsSound ((random, packet) ∷ seen) (settle m s o).0
  settle-Sound random packet seen m pkt r s (ok resp) q e hs (i, w, h) =
      let (x, y, z) = check_success_ok s pkt.identifier r.mschap_id r.data' resp e in
      (i, w, inl ((pkt, r, q, sym y, z), if_true _ _ s.expecting_success x hs))
  settle-Sound random packet seen m pkt r s (err x) q e hs h =
      Sound-later (random, packet) seen m m.phase h
  settle-Sound random packet seen m pkt r s panic q e hs h =
      Sound-later (random, packet) seen m m.phase h

  on_success-Sound :
      (random : Option (List ℕ)) (packet : List ℕ) (seen : List Input) (m : Method)
      (pkt : EapPacket) (r : MschapRequest) (o : Option ChallengeState)
      → Requests packet 3 pkt r
      → HasSeen c identity password seen o
      → IsSound seen m
      → IsSound ((random, packet) ∷ seen) (on_success m o pkt.identifier r.mschap_id r.data').0
  unfolding on_success
  on_success-Sound random packet seen m pkt r none q hs h =
      Sound-later (random, packet) seen m m.phase h
  on_success-Sound random packet seen m pkt r (some s) q hs h =
      settle-Sound random packet seen m pkt r s _ q refl hs h

  give_up-Sound :
      (x : Input) (seen : List Input) (m : Method) (o : Outcome MschapError (Unit {0}))
      → IsSound seen m
      → IsSound (x ∷ seen) (give_up m o).0
  give_up-Sound x seen m (ok u) (i, w, h) = (i, w, tt)
  give_up-Sound x seen m (err e) h = Sound-later x seen m m.phase h
  give_up-Sound x seen m panic h = Sound-later x seen m m.phase h

  on_read-Sound :
      (random : Option (List ℕ)) (packet : List ℕ) (seen : List Input) (m : Method)
      (pkt : EapPacket) (o : Outcome MschapError MschapRequest)
      → parse_eap packet ≡ ok pkt
      → pkt.code ≡ 1
      → pkt.type ≡ 26
      → read_request pkt.data' ≡ o
      → IsSound seen m
      → IsSound ((random, packet) ∷ seen) (on_read c m random pkt.identifier o).0
  unfolding on_read
  on_read-Sound random packet seen m pkt (err x) a b d e h =
      Sound-later (random, packet) seen m failed h
  on_read-Sound random packet seen m pkt panic a b d e h =
      Sound-later (random, packet) seen m m.phase h
  on_read-Sound random packet seen m pkt (ok r) a b d e h =
      let P : Step (List ℕ) → Type 0 = λ st. IsSound ((random, packet) ∷ seen) st.0 in
      branches P (r.opcode == op_challenge) _ _
        (λ k.
          await_success-Sound random packet seen m pkt r _ (a, b, d, e, (==_iff _ _).0 k) refl h)
        (λ _.
          branches P (r.opcode == op_success) _ _
            (λ k.
              on_success-Sound random packet seen m pkt r m.state (a, b, d, e, (==_iff _ _).0 k) h.2
                h)
            (λ _.
              branches P (r.opcode == op_failure) _ _
                (λ _. give_up-Sound (random, packet) seen m _ h)
                (λ _. Sound-later (random, packet) seen m m.phase h)))

  of_request-Sound :
      (seen : List Input) (st : Step (List ℕ)) → IsSound seen st.0 → IsSound seen (of_request st).0
  of_request-Sound seen (m, ok resp) h = h
  of_request-Sound seen (m, err e) h = h
  of_request-Sound seen (m, panic) h = h

  on_eap_request-Sound :
      (random : Option (List ℕ)) (packet : List ℕ) (seen : List Input) (m : Method)
      (pkt : EapPacket)
      → parse_eap packet ≡ ok pkt
      → pkt.code ≡ 1
      → IsSound seen m
      → IsSound ((random, packet) ∷ seen) (on_eap_request c m random pkt).0
  unfolding on_eap_request
  on_eap_request-Sound random packet seen m pkt a b h =
      let P : Step Result → Type 0 = λ st. IsSound ((random, packet) ∷ seen) st.0 in
      branches P (pkt.type == type_identity) _ _
        (λ _. Sound-later (random, packet) seen m negotiating h)
        (λ _.
          branches P (pkt.type == type_mschapv2) _ _
            (λ k. of_request-Sound ((random, packet) ∷ seen) _ (
              on_read-Sound random packet seen (record m { phase = phase_of m.state }) pkt _ a b
                ((==_iff _ _).0 k) refl h))
            (λ _. Sound-later (random, packet) seen m negotiating h))

  on_eap_success-Sound :
      (x : Input) (seen : List Input) (m : Method) (o : Option ChallengeState)
      → IsSound seen m
      → IsSound (x ∷ seen) (on_eap_success m o).0
  unfolding on_eap_success
  on_eap_success-Sound x seen m none h = Sound-later x seen m failed h
  on_eap_success-Sound x seen m (some s) h =
      branches (λ (st : Step Result). IsSound (x ∷ seen) st.0) s.expecting_success _ _
        (λ _. Sound-later x seen m failed h) (λ _. Sound-later x seen m completed h)

  on_packet-Sound :
      (random : Option (List ℕ)) (packet : List ℕ) (seen : List Input) (m : Method)
      (o : Outcome EapError EapPacket)
      → parse_eap packet ≡ o
      → IsSound seen m
      → IsSound ((random, packet) ∷ seen) (on_packet c m random o).0
  unfolding on_packet
  on_packet-Sound random packet seen m (err e) k h = Sound-later (random, packet) seen m failed h
  on_packet-Sound random packet seen m panic k h = Sound-later (random, packet) seen m m.phase h
  on_packet-Sound random packet seen m (ok pkt) k h =
      let P : Step Result → Type 0 = λ st. IsSound ((random, packet) ∷ seen) st.0 in
      branches P (pkt.code == code_request) _ _
        (λ e. on_eap_request-Sound random packet seen m pkt k ((==_iff _ _).0 e) h)
        (λ _.
          branches P (pkt.code == code_success) _ _
            (λ _. on_eap_success-Sound (random, packet) seen m m.state h)
            (λ _.
              branches P (pkt.code == code_failure) _ _
                (λ _. Sound-later (random, packet) seen m failed h)
                (λ _. Sound-later (random, packet) seen m failed h)))

  handle-Sound :
      (random : Option (List ℕ)) (packet : List ℕ) (seen : List Input) (m : Method)
      → IsSound seen m
      → IsSound ((random, packet) ∷ seen) (handle c m random packet).0
  unfolding handle
  handle-Sound random packet seen m h =
      branches (λ (st : Step Result). IsSound ((random, packet) ∷ seen) st.0) (is_failed m.phase) _
        _ (λ _. Sound-later (random, packet) seen m m.phase h)
        (λ _. on_packet-Sound random packet seen m _ refl h)

  pub after-Sound : (m : Method) (seen : List Input) → IsSound [] m → IsSound seen (after c m seen)
  unfolding after
  after-Sound m [] h = h
  after-Sound m ((random, packet) ∷ earlier) h =
      handle-Sound random packet earlier (after c m earlier) (after-Sound m earlier h)
