-- ===== src/Events/Hub/Sublists.antt =====
-- Lists that leave elements out, and the last elements of a list.
use swan.Common.{
  drop-append, ℕ, zero, suc, ◌+◌, ◌-◌, ◌≤◌, ◌≡◌, refl, sym, ap, ◌∙◌, arith, ◌==◌, List, [], ◌∷◌,
  ◌++◌, length, drop, length-append, length-drop, drop-drop, Bool-cases, ==_iff, inl, inr,
}
use swan.Events.Event.{Event}
use swan.Events.Hub.{retain}

pub data Sublist : List Event → List Event → Type 0 where
  nil : Sublist [] []
  keep : (x : Event) {xs ys : List Event} → Sublist xs ys → Sublist (x ∷ xs) (x ∷ ys)
  skip : (y : Event) {xs ys : List Event} → Sublist xs ys → Sublist xs (y ∷ ys)

pub Sublist_refl : (xs : List Event) → Sublist xs xs
Sublist_refl [] = nil
Sublist_refl (x ∷ xs) = keep x (Sublist_refl xs)

pub Sublist_skip_last :
    {xs ys : List Event} (e : Event) → Sublist xs ys → Sublist xs (ys ++ (e ∷ []))
Sublist_skip_last e nil = skip e nil
Sublist_skip_last e (keep x s) = keep x (Sublist_skip_last e s)
Sublist_skip_last e (skip y s) = skip y (Sublist_skip_last e s)

pub Sublist_keep_last :
    {xs ys : List Event} (e : Event) → Sublist xs ys → Sublist (xs ++ (e ∷ [])) (ys ++ (e ∷ []))
Sublist_keep_last e nil = keep e nil
Sublist_keep_last e (keep x s) = keep x (Sublist_keep_last e s)
Sublist_keep_last e (skip y s) = skip y (Sublist_keep_last e s)

abbrev pub last : ℕ → List Event → List Event
last n xs = drop (length xs - n) xs

pub drop_all : (k : ℕ) (xs : List Event) → length xs ≤ k → drop k xs ≡ []
drop_all zero [] h = refl
drop_all zero (x ∷ xs) h = absurd (omega arith)
drop_all (suc k) [] h = refl
drop_all (suc k) (x ∷ xs) h = drop_all k xs (omega arith)

pub retain-last :
    (n : ℕ) (xs : List Event) (e : Event) → retain n (last n xs) e ≡ last n (xs ++ (e ∷ []))
unfolding retain
retain-last n xs e =
    let len = length-append xs (e ∷ []) in
    let end = λ (k : ℕ). drop k (xs ++ (e ∷ [])) in
    elim (Bool-cases (n == 0)) [
      | inl z ↦
          let z' = (==_iff n 0).0 z in
          rw (z) (
            drop_all (length xs - n) xs (omega arith)
            ∙ sym (drop_all (length (xs ++ (e ∷ [])) - n) (xs ++ (e ∷ [])) (omega arith)))
      | inr z ↦ elim (Bool-cases (length (last n xs) == n)) [
        | inl f ↦
            let f' = (==_iff (length (last n xs)) n).0 f in
            rw (z, f)
              (ap (λ t. t ++ (e ∷ [])) (drop-drop xs (length xs - n) 1 (length xs - n + 1) refl)
                ∙ sym (
                    drop-append (length xs - n + 1) xs (e ∷ [])
                      (ground (arith, length-drop (length xs - n) xs)))
                ∙ ap end (ground (arith, length-drop (length xs - n) xs)))
        | inr f ↦
            rw (z, f)
              (sym (drop-append (length xs - n) xs (e ∷ []) (omega arith))
                ∙ ap end (ground (arith, length-drop (length xs - n) xs)))
      ]
    ]
