-- ===== src/Esp/Inbound/Ready.antt =====
-- The keyed states of an inbound worker.
use swan.Common.{ℕ, ◌≡◌, ◌⊎◌, inl, inr, refl, ap, ◌∙◌, List, Bool-cases, Option, some, none}
use swan.Common.Outcome.{Outcome, ok, err, panic, ◌>>=◌, Ensures, Ensures-mono}
use swan.Esp.Errors.{EspError}
use swan.Esp.Replay.{reset}
use swan.Esp.Suite.{EncryptionAlg, Integrity, Crypto}
use swan.Esp.Inbound.{
  Inbound, InboundConfig, prepared, Keyed, prepare_state, prepare_inbound, encryption_of,
  new_inbound, bind_inbound,
}

-- A worker that was prepared knows its algorithm; one that was not keeps the error.
abbrev pub IsReady : Inbound → Type 0
IsReady p =
    ((e : EspError) × (p.state_err ≡ some e))
    ⊎ ((alg : EncryptionAlg) × (p.state_err ≡ none) × (p.alg ≡ some alg))

abbrev pub Any {ℓ} : {A : Type ℓ} → A → Type 0
Any a = Unit

pub prepared_bind {ℓ κ} :
    {A : Type ℓ} {B : Type κ} (Q : B → Type 0) (o : Option A) (e : EspError)
    (f : A → Outcome EspError B)
    → ((a : A) → o ≡ some a → Ensures Q (f a))
    → Ensures Q (prepared o e >>= f)
prepared_bind Q none e f h = tt
prepared_bind Q (some a) e f h = h a refl

pub prepared-Ensures {ℓ} :
    {A : Type ℓ} (Q : A → Type 0) (o : Option A) (e : EspError)
    → ((a : A) → o ≡ some a → Q a)
    → Ensures Q (prepared o e)
prepared-Ensures Q none e h = tt
prepared-Ensures Q (some a) e h = h a refl

prepare_state-Ensures :
    (crypto : Crypto) (enc : EncryptionAlg) (integ_alg : Option Integrity) (k k' : List ℕ)
    → Ensures Any (prepare_state crypto enc integ_alg k k')
unfolding prepare_state
prepare_state-Ensures crypto enc integ_alg k k' =
    prepared_bind Any (crypto.prepare enc k) _ _ λ state _. elim (Bool-cases enc.aead) [
      | inl e ↦ rw (e, prepare_state) tt
      | inr e ↦
          rw (e, prepare_state)
            (prepared_bind Any integ_alg _ _
              λ alg _. prepared_bind Any (crypto.prepare_integ alg k') _ _ λ integ _. tt)
    ]

abbrev HasAlg : InboundConfig → Type 0
HasAlg cfg = (alg : EncryptionAlg) × (encryption_of cfg.selection ≡ some alg)

prepare_inbound-Ensures :
    (crypto : Crypto) (cfg : InboundConfig)
    → Ensures (λ (k : Keyed). HasAlg cfg) (prepare_inbound crypto cfg)
unfolding prepare_inbound
prepare_inbound-Ensures crypto cfg =
    let Q = λ (k : Keyed). HasAlg cfg in
    prepared_bind Q cfg.selection _ _ λ selection es.
      prepared_bind Q selection.encryption _ _ λ enc ee. prepared_bind Q cfg.keys _ _ λ keys _.
        Ensures-mono Any Q (prepare_state crypto enc selection.integrity keys.sk_er keys.sk_ar)
          (prepare_state-Ensures crypto enc selection.integrity keys.sk_er keys.sk_ar)
          λ k _. (enc, ap encryption_of es ∙ ee)

bind_inbound-IsReady :
    (cfg : InboundConfig) (m : Outcome EspError Keyed)
    → Ensures (λ (k : Keyed). HasAlg cfg) m
    → (p : Inbound) × (bind_inbound cfg m ≡ ok p) × IsReady p × (p.window ≡ reset)
bind_inbound-IsReady cfg (ok (enc, integ)) h = (_, refl, inr (h.0, refl, h.1), refl)
bind_inbound-IsReady cfg (err e) h = (_, refl, inl (e, refl), refl)
bind_inbound-IsReady cfg panic h = absurd h

-- A worker is made for any configuration, ready and with a fresh window: the error of a configuration that is
-- incomplete, or whose cipher cannot be prepared, is kept in the worker.
pub new_inbound-IsReady :
    (crypto : Crypto) (cfg : InboundConfig)
    → (p : Inbound) × (new_inbound crypto cfg ≡ ok p) × IsReady p × (p.window ≡ reset)
unfolding new_inbound
new_inbound-IsReady crypto cfg =
    bind_inbound-IsReady cfg (prepare_inbound crypto cfg) (prepare_inbound-Ensures crypto cfg)
