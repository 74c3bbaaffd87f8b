-- ===== src/Eap/Mschapv2/Machine/Trust.antt =====
-- What the packets that the MSCHAPv2 peer has seen say of its state.
use swan.Common.{
  ℕ, ◌≡◌, ◌⊎◌, inr, refl, ==_iff, if◌then◌else◌, Bool, true, false, not, List, [], ◌∷◌, Option,
  none, some,
}
use swan.Common.Outcome.{Outcome, ok, err, panic, ◌>>=◌, reject}
use swan.Eap.Packet.{EapPacket, parse_eap}
use swan.Eap.Mschapv2.Text.{verify_success}
use swan.Eap.Mschapv2.Derive.{MschapCrypto}
use swan.Eap.Mschapv2.Machine.{
  negotiating, ChallengeState, Method, MschapRequest, read_request, answer_challenge, Answer,
  check_open, check_success, handle, is_expecting,
}

-- What the random source gave, and the packet.
abbrev pub Input : Type 0
Input = Option (List ℕ) × List ℕ

-- The method behind a run of packets, of which the last stands first.
unfoldable pub after : MschapCrypto → Method → List Input → Method
after c m [] = m
after c m ((random, packet) ∷ earlier) = (handle c (after c m earlier) random packet).0

abbrev pub fresh : List ℕ → List ℕ → Method
fresh identity password = record {
  identity = identity;
  password = password;
  phase = negotiating;
  state = none;
}

-- The packet is a MSCHAPv2 request with the opcode, and these fields.
abbrev pub Requests : List ℕ → ℕ → EapPacket → MschapRequest → Type 0
Requests packet op pkt r =
    (parse_eap packet ≡ ok pkt)
    × (pkt.code ≡ 1)
    × (pkt.type ≡ 26)
    × (read_request pkt.data' ≡ ok r)
    × (r.opcode ≡ op)

pub either_way :
    (b : Bool) {A B A' B' : Type 0}
    → (A → A')
    → (B → B')
    → (if b then A else B)
    → (if b then A' else B')
either_way true f g h = f h
either_way false f g h = g h

module _ (c : MschapCrypto) (identity password : List ℕ) where
  -- The packet is a challenge with the id, and its answer made the authenticator and the key.
  abbrev pub Challenges : Input → ℕ → List ℕ → List ℕ → Type 0
  Challenges (random, packet) id hex msk =
      (pkt : EapPacket) × (r : MschapRequest) × (a : Answer) × (Requests packet 1 pkt r)
      × (r.mschap_id ≡ id)
      × (answer_challenge c (fresh identity password) random pkt.identifier r.mschap_id r.data'
          ≡ ok a)
      × (a.auth_hex ≡ hex)
      × (a.msk ≡ msk)

  -- The packet is a success of the server, whose authenticator is the expected one.
  abbrev pub Succeeds : Input → ℕ → List ℕ → Type 0
  Succeeds (random, packet) id hex =
      (pkt : EapPacket) × (r : MschapRequest) × (Requests packet 3 pkt r)
      × (r.mschap_id ≡ id)
      × (verify_success r.data' hex ≡ ok tt)

  abbrev pub Waiting : List Input → ℕ → List ℕ → List ℕ → Type 0
  Waiting [] id hex msk = ⊥
  Waiting (x ∷ earlier) id hex msk = Challenges x id hex msk ⊎ Waiting earlier id hex msk

  -- A success that verifies, behind the challenge that the key is derived from.
  abbrev pub Verified : List Input → ℕ → List ℕ → List ℕ → Type 0
  Verified [] id hex msk = ⊥
  Verified (x ∷ earlier) id hex msk =
      (Succeeds x id hex × Waiting earlier id hex msk) ⊎ Verified earlier id hex msk

  abbrev pub HasSeen : List Input → Option ChallengeState → Type 0
  HasSeen seen none = Unit
  HasSeen seen (some s) =
      if s.expecting_success
      then Waiting seen s.mschap_id s.auth_hex s.msk
      else Verified seen s.mschap_id s.auth_hex s.msk

  abbrev pub Sound : List Input → Method → Type 0
  Sound seen m = (m.identity ≡ identity) × (m.password ≡ password) × HasSeen seen m.state

  pub HasSeen-later :
      (x : Input) (seen : List Input) (o : Option ChallengeState)
      → HasSeen seen o
      → HasSeen (x ∷ seen) o
  HasSeen-later x seen none h = tt
  HasSeen-later x seen (some s) h = either_way s.expecting_success inr inr h

pub bind_ok {ℓ κ} :
    {E : Type 0} {A : Type ℓ} {B : Type κ} (m : Outcome E A) (f : A → Outcome E B) (b : B)
    → (m >>= f) ≡ ok b
    → (a : A) × (m ≡ ok a) × (f a ≡ ok b)
bind_ok (ok a) f b h = (a, refl, h)
bind_ok (err e) f b h = cc
bind_ok panic f b h = cc

pub reject_ok : {E : Type 0} (t : Bool) (e : E) (u : Unit {0}) → reject t e ≡ ok u → t ≡ false
reject_ok true e u h = cc
reject_ok false e u h = refl

pub answer_fresh :
    (c : MschapCrypto) (m : Method) (random : Option (List ℕ)) (eap_id mid : ℕ) (d : List ℕ)
    (a : Answer)
    → answer_challenge c m random eap_id mid d ≡ ok a
    → answer_challenge c (fresh m.identity m.password) random eap_id mid d ≡ ok a
unfolding answer_challenge
answer_fresh c m random eap_id mid d a h =
    let (u, e, k) = bind_ok (reject (is_expecting m.state) _) _ a h in k

pub if_true : (A B : Type 0) (b : Bool) → b ≡ true → (if b then A else B) → A
if_true A B true e h = h
if_true A B false e h = cc

pub if_false : (A B : Type 0) (b : Bool) → b ≡ false → (if b then A else B) → B
if_false A B true e h = cc
if_false A B false e h = h

pub not-false : (b : Bool) → not b ≡ false → b ≡ true
not-false true h = refl
not-false false h = cc

pub check_success_ok :
    (s : ChallengeState) (eap_id mid : ℕ) (d resp : List ℕ)
    → check_success s eap_id mid d ≡ ok resp
    → (s.expecting_success ≡ true) × (s.mschap_id ≡ mid) × (verify_success d s.auth_hex ≡ ok tt)
unfolding check_success
check_success_ok s eap_id mid d resp h =
    let (u0, e0, h1) = bind_ok (check_open s mid) _ resp h in
    let (u1, e1, h2) = bind_ok (verify_success d s.auth_hex) _ resp h1 in
    let (u4, e4, h4) = bind_ok (reject (not s.expecting_success) _) _ u0 e0 in
    (not-false _ (reject_ok _ _ u4 e4), (==_iff _ _).0 (not-false _ (reject_ok _ _ u0 h4)), e1)
