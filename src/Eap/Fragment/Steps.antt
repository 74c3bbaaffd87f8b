-- ===== src/Eap/Fragment/Steps.antt =====
-- Single steps of a fragmenter and of a collector, for a message of any length.
use swan.Common.{
  ℕ, zero, suc, ◌+◌, ◌-◌, ◌^◌, ◌≤◌, ◌<◌, ◌≡◌, ◌≢◌, refl, ap, ◌∙◌, arith, Bool, true, false, List,
  [], ◌∷◌, ◌++◌, length, take, drop, none, some, bit_and, lt→ltb, le→ltb, ne→==, eq→==,
}
use swan.Common.Outcome.{Outcome, ok, ◌>>=◌, slice_ok, >>=-ok}
use swan.Common.Bits.{byte_at}
use swan.Wire.Be.Laws.{be_uint32-put}
use swan.Eap.Fragment.{
  FragmentError, OutboundFragmenter, InboundFragmenter, Pushed, pending, start, next, first_packet,
  join, collect, push_first, push_next, push_fragment, new_inbound_fragmenter, parse_peap_request,
  collect_tls_record,
}

-- The collector takes one packet in.
unfoldable pub receive : InboundFragmenter → List ℕ → Outcome FragmentError Pushed
receive g packet = do req ← parse_peap_request packet; ok (collect_tls_record g req)

-- The bytes of a packet with no length field.
pub parse_plain :
    (flags : ℕ) (body : List ℕ)
    → bit_and flags 7 ≡ 0
    → bit_and flags 0x80 ≡ 0
    → parse_peap_request (flags ∷ body)
      ≡ ok (record { flags = flags; has_length = false; length_included = 0; data' = body })
unfolding parse_peap_request
parse_plain flags body v l = rw (le→ltb (length (flags ∷ body)) 1 (omega arith), v, l) refl

pub parse_long :
    (flags n : ℕ) (body : List ℕ)
    → bit_and flags 7 ≡ 0
    → bit_and flags 0x80 ≢ 0
    → n < 2 ^ 32
    → parse_peap_request (flags ∷ byte_at n 24 ∷ byte_at n 16 ∷ byte_at n 8 ∷ byte_at n 0 ∷ body)
      ≡ ok (record { flags = flags; has_length = true; length_included = n; data' = body })
unfolding parse_peap_request
parse_long flags n body v l h =
    let rest : List ℕ = byte_at n 24 ∷ byte_at n 16 ∷ byte_at n 8 ∷ byte_at n 0 ∷ body in
    rw
      (
        le→ltb (length (flags ∷ rest)) 1 (omega arith),
        v,
        ne→== (bit_and flags 0x80) 0 l,
        parse_peap_request,
        le→ltb (length rest) 4 (omega arith),
        be_uint32-put {E = FragmentError} n body h,
      )
      refl

pub take_nil : (n : ℕ) → take {A = ℕ} n [] ≡ []
take_nil zero = refl
take_nil (suc n) = refl

pub take-more : (xs : List ℕ) (k e : ℕ) → k ≤ e → take k xs ++ take (e - k) (drop k xs) ≡ take e xs
take-more xs zero e h = ap (λ n. take n xs) (omega arith)
take-more [] (suc k) zero h = absurd (omega arith)
take-more [] (suc k) (suc e) h = take_nil (suc e - suc k)
take-more (x ∷ xs) (suc k) zero h = absurd (omega arith)
take-more (x ∷ xs) (suc k) (suc e) h =
    ap (λ t. x ∷ t)
      (ap (λ n. take k xs ++ take n (drop k xs)) (omega arith) ∙ take-more xs k e (omega arith))

-- A collector that has the first `k` of `n` bytes.
abbrev pub having : List (List ℕ) → ℕ → ℕ → InboundFragmenter
having parts k n = record { parts = parts; total = k; expected = some n }

pub receive_more :
    (parts : List (List ℕ)) (k n : ℕ) (x : List ℕ)
    → k + length x ≤ n
    → receive (having parts k n) (0x40 ∷ x)
      ≡ ok (having (parts ++ (x ∷ [])) (k + length x) n, ok none)
unfolding receive collect_tls_record push_fragment push_next collect
receive_more parts k n x h =
    >>=-ok _ _ (parse_plain 0x40 x refl refl) (rw (le→ltb n (k + length x) h) refl)

pub receive_last :
    (parts : List (List ℕ)) (k n : ℕ) (x : List ℕ)
    → k + length x ≡ n
    → receive (having parts k n) (0 ∷ x)
      ≡ ok (new_inbound_fragmenter, ok (some (join (parts ++ (x ∷ [])))))
unfolding receive collect_tls_record push_fragment push_next collect
receive_last parts k n x h =
    >>=-ok _ _ (parse_plain 0 x refl refl)
      (rw (le→ltb n (k + length x) (omega (arith, h)), eq→== (k + length x) n h) refl)

abbrev pub sending : List ℕ → ℕ → ℕ → Bool → OutboundFragmenter
sending all k c i = record { payload = all; offset = k; chunk = c; include_length = i }

pub next_more :
    (all : List ℕ) (k c : ℕ) (i : Bool)
    → k + c < length all
    → next (sending all k c i)
      ≡ (sending all (k + c) c i, ok (0x40 ∷ take (k + c - k) (drop k all), false))
unfolding next pending
next_more all k c i h =
    rw
      (
        lt→ltb k (length all) (omega arith),
        lt→ltb (k + c) (length all) h,
        slice_ok {E = FragmentError} all k (k + c) (omega arith) (omega arith),
        lt→ltb (k + c) (length all) h,
      )
      refl

pub next_last :
    (all : List ℕ) (k c : ℕ) (i : Bool)
    → k < length all
    → length all ≤ k + c
    → next (sending all k c i)
      ≡ (sending [] 0 c i, ok (0 ∷ take (length all - k) (drop k all), true))
unfolding next pending
next_last all k c i h e =
    rw
      (
        lt→ltb k (length all) h,
        le→ltb (k + c) (length all) e,
        slice_ok {E = FragmentError} all k (length all) (omega arith) (omega arith),
        le→ltb (length all) (length all) (omega arith),
      )
      refl

pub positive : (n : ℕ) → 0 < n → n ≢ 0
positive n h e = absurd (omega (arith, e))

pub start_more :
    (all : List ℕ) (c : ℕ) (i : Bool)
    → 1 ≤ c
    → c < length all
    → start (sending [] 0 c i) all 0 ≡ (
      sending all c c i,
      ok (
        0xc0
            ∷ byte_at (length all) 24
            ∷ byte_at (length all) 16
            ∷ byte_at (length all) 8
            ∷ byte_at (length all) 0
            ∷ take c all,
        false,
      ),
    )
unfolding start first_packet pending
start_more all c i c1 h = rw (ne→== c 0 (omega arith), lt→ltb c (length all) h) refl

-- A message that fits one packet, with the length field and without.
pub start_long :
    (all : List ℕ) (c : ℕ)
    → 1 ≤ c
    → length all ≤ c
    → start (sending [] 0 c true) all 0 ≡ (
      sending [] 0 c true,
      ok (
        0x80
            ∷ byte_at (length all) 24
            ∷ byte_at (length all) 16
            ∷ byte_at (length all) 8
            ∷ byte_at (length all) 0
            ∷ take (length all) all,
        true,
      ),
    )
unfolding start first_packet pending
start_long all c c1 h = rw (ne→== c 0 (omega arith), le→ltb c (length all) h) refl

pub start_plain :
    (all : List ℕ) (c : ℕ)
    → 1 ≤ c
    → length all ≤ c
    → start (sending [] 0 c false) all 0
      ≡ (sending [] 0 c false, ok (0 ∷ take (length all) all, true))
unfolding start first_packet pending
start_plain all c c1 h = rw (ne→== c 0 (omega arith), le→ltb c (length all) h) refl

pub receive_first :
    (n : ℕ) (x : List ℕ)
    → 0 < n
    → length x ≤ n
    → n < 2 ^ 32
    → receive new_inbound_fragmenter
        (0xc0 ∷ byte_at n 24 ∷ byte_at n 16 ∷ byte_at n 8 ∷ byte_at n 0 ∷ x)
      ≡ ok (having (x ∷ []) (0 + length x) n, ok none)
unfolding receive collect_tls_record push_fragment push_first collect
receive_first n x p h fits =
    >>=-ok _ _ (parse_long 0xc0 n x refl (positive 0x80 (omega arith)) fits)
      (rw (ne→== n 0 (omega arith), le→ltb n (0 + length x) (omega arith)) refl)

pub receive_only :
    (n : ℕ) (x : List ℕ)
    → 0 < n
    → length x ≡ n
    → n < 2 ^ 32
    → receive new_inbound_fragmenter
        (0x80 ∷ byte_at n 24 ∷ byte_at n 16 ∷ byte_at n 8 ∷ byte_at n 0 ∷ x)
      ≡ ok (new_inbound_fragmenter, ok (some (x ++ [])))
unfolding receive collect_tls_record push_fragment push_first collect join
receive_only n x p h fits =
    >>=-ok _ _ (parse_long 0x80 n x refl (positive 0x80 (omega arith)) fits) (
      rw
        (
          ne→== n 0 (omega arith),
          le→ltb n (0 + length x) (omega (arith, h)),
          eq→== (0 + length x) n (omega (arith, h)),
        )
        refl)

pub receive_plain :
    (x : List ℕ) → receive new_inbound_fragmenter (0 ∷ x) ≡ ok (new_inbound_fragmenter, ok (some x))
unfolding receive collect_tls_record push_fragment push_next
receive_plain x = >>=-ok _ _ (parse_plain 0 x refl refl) refl
