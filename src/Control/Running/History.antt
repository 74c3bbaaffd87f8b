-- ===== src/Control/Running/History.antt =====
-- The history of responses that a running SA keeps.
use mathlib.Core.Path.{subst}
use swan.Common.{
  ℕ, zero, suc, ◌-◌, ◌<◌, ◌≡◌, ◌⊎◌, inl, inr, refl, sym, ap, ◌∙◌, arith, ltb, ◌==◌, ==_iff,
  if◌then◌else◌, Bool, true, false, List, [], ◌∷◌, ◌++◌, length, drop, length-append, length-drop,
  drop-drop, drop-append, All, All-append, Option, none, some, Bool-cases, ltb→ge,
}
use swan.Control.Running.{
  CachedResponse, RunningRequest, remember_response, replay_cached_frames, or_entry, newest,
}

abbrev pub entry_of : RunningRequest → List (List ℕ) → CachedResponse
entry_of r frames = record { message_id = r.message_id; response_packets = frames }

abbrev pub Before : CachedResponse → CachedResponse → Type 0
Before x y = x.message_id < y.message_id

-- The ids rise.
abbrev pub Rising : List CachedResponse → Type 0
Rising [] = Unit
Rising (x ∷ xs) = All (Before x) xs × Rising xs

abbrev pub Has : CachedResponse → List CachedResponse → Type 0
Has a [] = ⊥
Has a (x ∷ xs) = (x ≡ a) ⊎ Has a xs

abbrev pub last4 : List CachedResponse → List CachedResponse
last4 xs = drop (length xs - 4) xs

pub Has-drop :
    (a : CachedResponse) (k : ℕ) (xs : List CachedResponse) → Has a (drop k xs) → Has a xs
Has-drop a zero xs h = h
Has-drop a (suc k) [] h = h
Has-drop a (suc k) (x ∷ xs) h = inr (Has-drop a k xs h)

pub Has-append : (a : CachedResponse) (xs ys : List CachedResponse) → Has a xs → Has a (xs ++ ys)
Has-append a [] ys h = absurd h
Has-append a (x ∷ xs) ys (inl e) = inl e
Has-append a (x ∷ xs) ys (inr h) = inr (Has-append a xs ys h)

some_eq : {A : Type 0} (x y : A) → some x ≡ some y → x ≡ y
some_eq x y e = ap (λ o. elim o [ some v ↦ v | none ↦ x ]) e

replayed_first :
    (x : CachedResponse) (xs : List CachedResponse) (r : RunningRequest) (f : List (List ℕ))
    (b : Bool)
    → (x.message_id == r.message_id) ≡ b
    → (if b then some x.response_packets else none) ≡ some f
    → x ≡ entry_of r f
replayed_first x xs r f true e h =
    ap (λ (i : ℕ). record { message_id = i; response_packets = x.response_packets })
      ((==_iff x.message_id r.message_id).0 e)
    ∙ ap (λ (p : List (List ℕ)). entry_of r p) (some_eq x.response_packets f h)
replayed_first x xs r f false e h = cc

replayed_rest :
    (x : CachedResponse) (xs : List CachedResponse) (r : RunningRequest) (f : List (List ℕ))
    (o : Option (List (List ℕ)))
    → (o ≡ some f → Has (entry_of r f) xs)
    → or_entry o x r.message_id ≡ some f
    → Has (entry_of r f) (x ∷ xs)
replayed_rest x xs r f (some g) ih h = inr (ih h)
replayed_rest x xs r f none ih h = inl (replayed_first x xs r f _ refl h)

pub replayed-Has :
    (xs : List CachedResponse) (r : RunningRequest) (f : List (List ℕ))
    → replay_cached_frames xs r.message_id ≡ some f
    → Has (entry_of r f) xs
unfolding replay_cached_frames
replayed-Has [] r f h = cc
replayed-Has (x ∷ xs) r f h = replayed_rest x xs r f _ (replayed-Has xs r f) h

newest-drop : (k : ℕ) (xs : List CachedResponse) → k < length xs → newest (drop k xs) ≡ newest xs
newest-drop zero xs h = refl
newest-drop (suc k) [] h = absurd (omega arith)
newest-drop (suc k) (x ∷ []) h = absurd (omega arith)
newest-drop (suc k) (x ∷ y ∷ ys) h = newest-drop k (y ∷ ys) (omega arith)

pub Rising-newest :
    (xs : List CachedResponse) (z e : CachedResponse)
    → Rising xs
    → newest xs ≡ some z
    → Before z e
    → All (λ y. Before y e) xs
Rising-newest [] z e r h b = tt
Rising-newest (x ∷ []) z e r h b = (subst (λ v. Before v e) (sym (some_eq x z h)) b, tt)
Rising-newest (x ∷ y ∷ ys) z e r h b =
    let rest = Rising-newest (y ∷ ys) z e r.1 h b in (omega (arith, r.0.0, rest.0), rest)

pub Rising-snoc :
    (xs : List CachedResponse) (e : CachedResponse)
    → Rising xs
    → All (λ y. Before y e) xs
    → Rising (xs ++ (e ∷ []))
Rising-snoc [] e r b = (tt, tt)
Rising-snoc (x ∷ xs) e (r, rs) (b, bs) =
    (All-append (Before x) xs (e ∷ []) r (b, tt), Rising-snoc xs e rs bs)

pub remember_lem :
    (xs : List CachedResponse) (e : CachedResponse)
    → remember_response xs e ≡ last4 (xs ++ (e ∷ []))
unfolding remember_response
remember_lem xs e = elim (Bool-cases (ltb 4 (length (xs ++ (e ∷ []))))) [
  | inl b ↦ rw (b) refl
  | inr b ↦ rw (b) (
      ap (λ (k : ℕ). drop k (xs ++ (e ∷ []))) {x = 0}
        (omega (arith, ltb→ge 4 (length (xs ++ (e ∷ []))) b)))
]

pub last4-append :
    (xs : List CachedResponse) (e : CachedResponse)
    → last4 (last4 xs ++ (e ∷ [])) ≡ last4 (xs ++ (e ∷ []))
last4-append xs e =
    let k = length xs - 4 in
    let moved = drop-append k xs (e ∷ []) (omega arith) in
    ap last4 (sym moved)
    ∙ drop-drop (xs ++ (e ∷ [])) k (length (drop k (xs ++ (e ∷ []))) - 4)
        (length (xs ++ (e ∷ [])) - 4)
        (omega (arith, length-drop k (xs ++ (e ∷ [])), length-append xs (e ∷ [])))

pub Has-last : (xs : List CachedResponse) (e : CachedResponse) → Has e (xs ++ (e ∷ []))
Has-last [] e = inl refl
Has-last (x ∷ xs) e = inr (Has-last xs e)

pub newest-last4 : (all : List CachedResponse) → newest (last4 all) ≡ newest all
newest-last4 [] = newest_empty (0 - 4)
  where
    newest_empty : (k : ℕ) → newest (drop k []) ≡ none
    newest_empty zero = refl
    newest_empty (suc k) = refl
newest-last4 (x ∷ xs) = newest-drop (length (x ∷ xs) - 4) (x ∷ xs) (omega arith)

cons_nil : {A : Type 0} (x : CachedResponse) (xs : List CachedResponse) → x ∷ xs ≡ [] → A
cons_nil x xs e = cc

pub newest-none : (all : List CachedResponse) → newest all ≡ none → all ≡ []
newest-none [] h = refl
newest-none (x ∷ []) h = cc
newest-none (x ∷ y ∷ ys) h = cons_nil y ys (newest-none (y ∷ ys) h)
