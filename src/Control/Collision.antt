-- ===== src/Control/Collision.antt =====
-- The decision of a simultaneous rekey: control/collision.go.
use Prim.Native.Nat.{Ordering}
use swan.Common.{
  ℕ, ◌≤◌, ◌≡◌, ◌≢◌, ◌⊎◌, inl, inr, refl, sym, ap, ◌∙◌, arith, ltb, ◌==◌, if◌then◌else◌, Bool, true,
  false, ◌||◌, List, [], ◌∷◌, length, take, le→ltb, ne→==, Bool-cases, ltb→lt, ltb→ge,
}

pub data CollisionDecision : Type 0 where
  no_collision : CollisionDecision
  we_win : CollisionDecision
  we_lose : CollisionDecision

-- `bytes.Compare`: a proper prefix is less.
unfoldable pub compare_slices : List ℕ → List ℕ → Ordering
compare_slices [] [] = Ordering.eq
compare_slices [] (y ∷ ys) = Ordering.lt
compare_slices (x ∷ xs) [] = Ordering.gt
compare_slices (x ∷ xs) (y ∷ ys) =
    if ltb x y then Ordering.lt else if ltb y x then Ordering.gt else compare_slices xs ys

abbrev pub is_lt : Ordering → Bool
is_lt Ordering.lt = true
is_lt o = false

-- The length of the shorter nonce.
unfoldable pub shorter : List ℕ → List ℕ → ℕ
shorter a b = if ltb (length b) (length a) then length b else length a

unfoldable pub decide_nonce_collision : List ℕ → List ℕ → CollisionDecision
decide_nonce_collision ours theirs =
    let n = shorter ours theirs in
    if length ours == 0 || length theirs == 0
    then no_collision
    else if is_lt (compare_slices (take n ours) (take n theirs))
    then we_lose
    else we_win

flip : Ordering → Ordering
flip Ordering.lt = Ordering.gt
flip Ordering.gt = Ordering.lt
flip Ordering.eq = Ordering.eq

compare_slices-flip : (xs ys : List ℕ) → compare_slices ys xs ≡ flip (compare_slices xs ys)
unfolding compare_slices flip
compare_slices-flip [] [] = refl
compare_slices-flip [] (y ∷ ys) = refl
compare_slices-flip (x ∷ xs) [] = refl
compare_slices-flip (x ∷ xs) (y ∷ ys) = elim (Bool-cases (ltb x y)) [
  | inl l ↦ rw (l, le→ltb y x (omega (arith, ltb→lt x y l))) refl
  | inr n ↦ elim (Bool-cases (ltb y x)) [
    | inl g ↦ rw (n, g) refl
    | inr e ↦ rw (n, e) (compare_slices-flip xs ys)
  ]
]

lt-ne-eq : Ordering.lt ≢ Ordering.eq
lt-ne-eq e = cc

gt-ne-eq : Ordering.gt ≢ Ordering.eq
gt-ne-eq e = cc

compare_slices-eq : (xs ys : List ℕ) → compare_slices xs ys ≡ Ordering.eq → xs ≡ ys
unfolding compare_slices
compare_slices-eq [] [] h = refl
compare_slices-eq [] (y ∷ ys) h = cc
compare_slices-eq (x ∷ xs) [] h = cc
compare_slices-eq (x ∷ xs) (y ∷ ys) h = elim (Bool-cases (ltb x y)) [
  | inl l ↦ absurd (lt-ne-eq (sym (rw l refl) ∙ h))
  | inr n ↦ elim (Bool-cases (ltb y x)) [
    | inl g ↦ absurd (gt-ne-eq (sym (rw (n, g) refl) ∙ h))
    | inr e ↦
        let head : x ≡ y = omega (arith, ltb→ge x y n, ltb→ge y x e) in
        let tail : xs ≡ ys = compare_slices-eq xs ys (sym (rw (n, e) refl) ∙ h) in
        rw (head, tail) refl
  ]
]

shorter_comm : (a b : List ℕ) → shorter a b ≡ shorter b a
unfolding shorter
shorter_comm a b = ground arith

abbrev pick : Ordering → CollisionDecision
pick o = if is_lt o then we_lose else we_win

decide_lem :
    (a b : List ℕ)
    → 1 ≤ length a
    → 1 ≤ length b
    → decide_nonce_collision a b
      ≡ pick (compare_slices (take (shorter a b) a) (take (shorter a b) b))
unfolding decide_nonce_collision
decide_lem a b ha hb = rw (ne→== (length a) 0 (omega arith), ne→== (length b) 0 (omega arith)) refl

-- The two decisions, from the two comparisons.
abbrev Mirror : List ℕ → List ℕ → CollisionDecision → CollisionDecision → Type 0
Mirror p q mine theirs =
    ((mine ≡ we_lose) × (theirs ≡ we_win))
    ⊎ ((mine ≡ we_win) × (theirs ≡ we_lose))
    ⊎ ((mine ≡ we_win) × (theirs ≡ we_win) × (p ≡ q))

pick-Mirror :
    (p q : List ℕ) (o : Ordering) → compare_slices p q ≡ o → Mirror p q (pick o) (pick (flip o))
unfolding flip
pick-Mirror p q Ordering.lt e = inl (refl, refl)
pick-Mirror p q Ordering.gt e = inr (inl (refl, refl))
pick-Mirror p q Ordering.eq e = inr (inr (refl, refl, compare_slices-eq p q e))

-- The bytes of a nonce that are compared with those of another.
abbrev pub prefix : List ℕ → List ℕ → List ℕ
prefix a b = take (shorter a b) a

-- The two ends of a simultaneous rekey decide from the same two nonces, each with its own first.
-- With both nonces there, exactly one of them gives way, unless the compared bytes are equal: then
-- neither does.
pub decide_nonce_collision-mirror :
    (a b : List ℕ)
    → 1 ≤ length a
    → 1 ≤ length b
    → ((decide_nonce_collision a b ≡ we_lose) × (decide_nonce_collision b a ≡ we_win))
      ⊎ ((decide_nonce_collision a b ≡ we_win) × (decide_nonce_collision b a ≡ we_lose))
      ⊎ ((decide_nonce_collision a b ≡ we_win)
          × (decide_nonce_collision b a ≡ we_win)
          × (prefix a b ≡ prefix b a))
decide_nonce_collision-mirror a b ha hb =
    let p = take (shorter a b) a in
    let q = take (shorter a b) b in
    let same : take (shorter b a) b ≡ q = ap (λ n. take n b) (shorter_comm b a) in
    let same' : take (shorter b a) a ≡ p = ap (λ n. take n a) (shorter_comm b a) in
    rw (decide_lem a b ha hb, decide_lem b a hb ha, same, same', compare_slices-flip p q)
      (pick-Mirror p q (compare_slices p q) refl)
