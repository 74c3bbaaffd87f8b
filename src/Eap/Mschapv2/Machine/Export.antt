-- ===== src/Eap/Mschapv2/Machine/Export.antt =====
-- What the MSCHAPv2 peer has seen when it exports a key.
use mathlib.Core.Path.{subst}
use swan.Common.{branches, ℕ, ◌≡◌, refl, sym, ◌==◌, List, Option, none, some}
use swan.Common.Outcome.{Outcome, ok, err, panic}
use swan.Eap.Packet.{EapError, EapPacket, parse_eap, code_request, code_success, code_failure}
use swan.Eap.Avp.{type_identity}
use swan.Eap.Mschapv2.Text.{MschapError}
use swan.Eap.Mschapv2.Derive.{MschapCrypto}
use swan.Eap.Mschapv2.Machine.{
  ChallengeState, Method, Result, action_send, action_complete, Step, reset_method, sent,
  type_mschapv2, of_request, on_eap_success, on_eap_request, on_packet, handle, is_failed,
}
use swan.Eap.Mschapv2.Machine.Trust.{Input, after, Verified, HasSeen, Sound, if_false}
use swan.Eap.Mschapv2.Machine.Steps.{after-Sound}

module _ (c : MschapCrypto) (identity password : List ℕ) where
  -- What stands behind a key that a step exports.
  abbrev Known : List Input → List ℕ → Type 0
  Known seen msk = (id : ℕ) × (hex : List ℕ) × Verified c identity password seen id hex msk

  abbrev Exports : Outcome MschapError Result → List ℕ → Type 0
  Exports (ok (action_send b)) msk = ⊥
  Exports (ok (action_complete k)) msk = k ≡ msk
  Exports (err e) msk = ⊥
  Exports panic msk = ⊥

  sent-Exports : (o : Outcome MschapError (List ℕ)) (msk : List ℕ) → Exports (sent o) msk → ⊥
  sent-Exports (ok b) msk h = h
  sent-Exports (err e) msk h = h
  sent-Exports panic msk h = h

  of_request-Exports : (st : Step (List ℕ)) (msk : List ℕ) → Exports (of_request st).1 msk → ⊥
  of_request-Exports (m, ok b) msk h = h
  of_request-Exports (m, err e) msk h = h
  of_request-Exports (m, panic) msk h = h

  on_eap_request-Exports :
      (m : Method) (random : Option (List ℕ)) (pkt : EapPacket) (msk : List ℕ)
      → Exports (on_eap_request c m random pkt).1 msk
      → ⊥
  unfolding on_eap_request
  on_eap_request-Exports m random pkt msk =
      let P : Step Result → Type 0 = λ st. Exports st.1 msk → ⊥ in
      branches P (pkt.type == type_identity) _ _ (λ _. sent-Exports _ msk)
        (λ _.
          branches P (pkt.type == type_mschapv2) _ _ (λ _. of_request-Exports _ msk)
            (λ _. sent-Exports _ msk))

  on_eap_success-Known :
      (seen : List Input) (m : Method) (o : Option ChallengeState) (msk : List ℕ)
      → HasSeen c identity password seen o
      → Exports (on_eap_success m o).1 msk
      → Known seen msk
  unfolding on_eap_success
  on_eap_success-Known seen m none msk h = λ x. absurd x
  on_eap_success-Known seen m (some s) msk h =
      branches (λ (st : Step Result). Exports st.1 msk → Known seen msk) s.expecting_success _ _
        (λ _ x. absurd x)
        (λ e x. (
          s.mschap_id,
          s.auth_hex,
          subst (λ k. Verified c identity password seen s.mschap_id s.auth_hex k) x
              (if_false _ _ s.expecting_success e h),
        ))

  on_packet-Known :
      (seen : List Input) (m : Method) (random : Option (List ℕ)) (o : Outcome EapError EapPacket)
      (msk : List ℕ)
      → Sound c identity password seen m
      → Exports (on_packet c m random o).1 msk
      → Known seen msk
  unfolding on_packet
  on_packet-Known seen m random (err e) msk h = λ x. absurd x
  on_packet-Known seen m random panic msk h = λ x. absurd x
  on_packet-Known seen m random (ok pkt) msk h =
      let P : Step Result → Type 0 = λ st. Exports st.1 msk → Known seen msk in
      branches P (pkt.code == code_request) _ _
        (λ _ x. absurd (on_eap_request-Exports m random pkt msk x))
        (λ _.
          branches P (pkt.code == code_success) _ _
            (λ _. on_eap_success-Known seen m m.state msk h.2)
            (λ _. branches P (pkt.code == code_failure) _ _ (λ _ x. absurd x) (λ _ x. absurd x)))

  handle-Known :
      (seen : List Input) (m : Method) (random : Option (List ℕ)) (packet msk : List ℕ)
      → Sound c identity password seen m
      → Exports (handle c m random packet).1 msk
      → Known seen msk
  unfolding handle
  handle-Known seen m random packet msk h =
      branches (λ (st : Step Result). Exports st.1 msk → Known seen msk) (is_failed m.phase) _ _
        (λ _ x. absurd x) (λ _. on_packet-Known seen m random (parse_eap packet) msk h)

-- Behind a reset, and after any packets, a step that exports a key had these before it: a challenge whose
-- answer made that key and an authenticator, and behind it a success message of the server with the
-- same id and that authenticator.
pub handle-after :
    (c : MschapCrypto) (m : Method) (earlier : List Input) (random : Option (List ℕ))
    (packet msk : List ℕ)
    → (handle c (after c (reset_method m) earlier) random packet).1 ≡ ok (action_complete msk)
    → (id : ℕ) × (hex : List ℕ) × Verified c m.identity m.password earlier id hex msk
handle-after c m earlier random packet msk e =
    handle-Known c m.identity m.password earlier (after c (reset_method m) earlier) random packet
      msk (after-Sound c m.identity m.password (reset_method m) earlier (refl, refl, tt))
      (subst (λ o. Exports c m.identity m.password o msk) (sym e) refl)
