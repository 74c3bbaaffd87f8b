-- ===== src/Esp/Inbound/Delivery.antt =====
-- What the inbound worker delivers over its life: no sequence number twice.
use swan.Common.{
  ℕ, ◌≡◌, inl, inr, refl, sym, ap, arith, true, false, List, [], ◌∷◌, take, drop, if◌then◌else◌,
  Bool-cases, All,
}
use mathlib.Core.Path.{subst}
use swan.Common.Outcome.{Outcome, ok, err, panic, Ensures, Ensures-ok}
use swan.Wire.Be.{be_uint32}
use swan.Esp.Errors.{EspError, replayed}
use swan.Esp.Replay.{ReplayWindow, reset}
use swan.Esp.Replay.Moves.{contains, allowed, seen_after, Tracks}
use swan.Esp.Replay.Refinement.{accept-allowed, reset-Tracks}
use swan.Esp.Suite.{Crypto}
use swan.Esp.Inbound.{Inbound, InboundConfig, new_inbound, decrypt, deliver, conclude, process}
use swan.Esp.Inbound.Ready.{IsReady, new_inbound-IsReady}
use swan.Esp.Inbound.Safety.{DecryptOf, decrypt-Ensures}

-- The specification of one datagram, for a worker that delivered `seen`: a decrypted packet is
-- delivered when its sequence number is allowed, and an error changes nothing.
abbrev pub serve : List ℕ → Outcome EspError (ℕ × List ℕ) → List ℕ × Outcome EspError (List ℕ)
serve seen (ok (seq, inner)) =
    (seen_after seq seen, if allowed seq seen then ok inner else err replayed)
serve seen (err e) = (seen, err e)
serve seen panic = (seen, panic)

conclude-serve :
    (p : Inbound) (seen : List ℕ) (m : Outcome EspError (ℕ × List ℕ))
    → Tracks p.window seen
    → ((conclude p m).1 ≡ (serve seen m).1)
      × Tracks (conclude p m).0.window (serve seen m).0
      × ((conclude p m).0 ≡ record p { window = (conclude p m).0.window })
unfolding deliver
conclude-serve p seen (err e) t = (refl, t, refl)
conclude-serve p seen panic t = (refl, t, refl)
conclude-serve p seen (ok (seq, inner)) t =
    let (e, t') = accept-allowed seq p.window seen t in
    (ap (λ b. if b then ok inner else err replayed) e, t', refl)

-- One datagram, for a worker whose window tracks what was delivered: the answer is the
-- specification's, the window goes on tracking what was delivered, and nothing else changes.
pub process-serve :
    (p : Inbound) (seen d : List ℕ)
    → Tracks p.window seen
    → ((process p d).1 ≡ (serve seen (decrypt p d)).1)
      × Tracks (process p d).0.window (serve seen (decrypt p d)).0
      × ((process p d).0 ≡ record p { window = (process p d).0.window })
unfolding process
process-serve p seen d t = conclude-serve p seen (decrypt p d) t

abbrev value_or : Outcome EspError ℕ → ℕ
value_or (ok n) = n
value_or (err e) = 0
value_or panic = 0

-- The sequence number in a datagram's header.
abbrev pub seq_field : List ℕ → ℕ
seq_field d = value_or (be_uint32 (take 4 (drop 4 d)))

abbrev note : Outcome EspError (List ℕ) → ℕ → List ℕ → List ℕ
note (ok inner) seq rest = seq ∷ rest
note (err e) seq rest = rest
note panic seq rest = rest

-- The sequence numbers of the packets that a worker delivers out of a sequence of datagrams.
unfoldable pub delivered : Inbound → List (List ℕ) → List ℕ
delivered p [] = []
delivered p (d ∷ ds) = note (process p d).1 (seq_field d) (delivered (process p d).0 ds)

unfoldable pub Distinct : List ℕ → Type 0
Distinct [] = Unit
Distinct (x ∷ xs) = (contains x xs ≡ false) × Distinct xs

abbrev Fresh : List ℕ → List ℕ → Type 0
Fresh seen xs = All (λ x. contains x seen ≡ false) xs

Fresh-cons :
    (s : ℕ) (seen xs : List ℕ) → Fresh (s ∷ seen) xs → (contains s xs ≡ false) × Fresh seen xs
unfolding contains
Fresh-cons s seen [] h = (refl, tt)
Fresh-cons s seen (x ∷ xs) (h, hs) =
    let (e, k) = Fresh-cons s seen xs hs in (ground (arith, h, e), (ground (arith, h), k))

allowed_fresh : (seq : ℕ) (seen : List ℕ) → allowed seq seen ≡ true → contains seq seen ≡ false
unfolding allowed
allowed_fresh seq seen h = ground (arith, h)

note-Distinct :
    (p : Inbound) (seen d rest : List ℕ) (m : Outcome EspError (ℕ × List ℕ))
    → Ensures (DecryptOf p d) m
    → Distinct rest
    → Fresh (serve seen m).0 rest
    → Distinct (note (serve seen m).1 (seq_field d) rest)
      × Fresh seen (note (serve seen m).1 (seq_field d) rest)
unfolding Distinct
note-Distinct p seen d rest (err e) h k f = (k, f)
note-Distinct p seen d rest panic h k f = (k, f)
note-Distinct p seen d rest (ok (seq, inner)) h k f =
    let e : seq_field d ≡ seq = ap value_or h.1 in
    elim (Bool-cases (allowed seq seen)) [
      | inr no' ↦
          let f' : Fresh seen rest =
            subst (λ b. Fresh (if b then seq ∷ seen else seen) rest) no' f in
          rw no' (k, f')
      | inl yes' ↦
          let f' : Fresh (seq ∷ seen) rest =
            subst (λ b. Fresh (if b then seq ∷ seen else seen) rest) yes' f in
          let (fresh, fs) = Fresh-cons seq seen rest f' in
          let new : contains seq seen ≡ false = allowed_fresh seq seen yes' in
          rw (yes', e) ((fresh, k), (new, fs))
    ]

IsReady-window : (p : Inbound) (w : ReplayWindow) → IsReady p → IsReady (record p { window = w })
IsReady-window p w h = h

delivered_lem :
    (p : Inbound) (seen : List ℕ) (ds : List (List ℕ))
    → IsReady p
    → Tracks p.window seen
    → Distinct (delivered p ds) × Fresh seen (delivered p ds)
unfolding delivered Distinct
delivered_lem p seen [] r t = (tt, tt)
delivered_lem p seen (d ∷ ds) r t =
    let (answer, t', same) = process-serve p seen d t in
    let p' : Inbound = (process p d).0 in
    let r' : IsReady p' = subst IsReady (sym same) (IsReady-window p p'.window r) in
    let (k, f) = delivered_lem p' (serve seen (decrypt p d)).0 ds r' t' in
    subst
      (λ a.
        Distinct (note a (seq_field d) (delivered p' ds))
        × Fresh seen (note a (seq_field d) (delivered p' ds)))
      (sym answer)
      (note-Distinct p seen d (delivered p' ds) (decrypt p d) (decrypt-Ensures p d r) k f)

-- A worker delivers no sequence number twice over its life, whatever datagrams it is given, replays
-- and forgeries included.
pub delivered-Distinct :
    (crypto : Crypto) (cfg : InboundConfig) (p : Inbound) (ds : List (List ℕ))
    → new_inbound crypto cfg ≡ ok p
    → Distinct (delivered p ds)
delivered-Distinct crypto cfg p ds e =
    let Fine = λ (q : Inbound). IsReady q × (q.window ≡ reset) in
    let (p0, e0, r0, w0) = new_inbound-IsReady crypto cfg in
    let (r, w) =
      Ensures-ok Fine (new_inbound crypto cfg) p e (subst (Ensures Fine) (sym e0) (r0, w0)) in
    (delivered_lem p [] ds r (subst (λ v. Tracks v []) (sym w) reset-Tracks)).0
