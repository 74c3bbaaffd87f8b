-- ===== src/Payload/Notify/RoundTrip.antt =====
-- NOTIFY and DELETE: what is appended parses back.
use swan.Common.{
  ℕ, zero, suc, ◌+◌, ◌-◌, ◌*◌, ◌^◌, ◌≤◌, ◌<◌, ◌≡◌, ◌⊎◌, inl, inr, refl, sym, ap, ◌∙◌, arith, List,
  [], ◌∷◌, ◌++◌, length, take, drop, ◌==◌, if◌then◌else◌, le→ltb, lt→ltb, eq→==, ne→==,
  append_assoc, append-nil, length-append, take-append_length, drop-append_length, All,
}
use swan.Common.Bits.{byte_at}
use swan.Common.Outcome.{ok, slice_ok, slice_from_ok}
use swan.Wire.Be.Laws.{put_uint16_append, put_uint32_append, be_uint16-put, be_uint32-put}
use swan.Payload.Errors.{PayloadError}
use swan.Payload.Notify.{
  Notify, append_notify, check_notify_scope, parse_notify, Delete, append_spis, check_delete,
  append_delete, read_spis, check_delete_counts, parse_delete,
}

-- The protocol fits the presence of an SPI, as the parser demands.
abbrev pub IsScoped : Notify → Type 0
IsScoped n =
    ((length n.spi ≡ 0) × ((n.protocol_id ≡ 0) ⊎ (n.protocol_id ≡ 1)))
    ⊎ ((1 ≤ length n.spi) × ((n.protocol_id ≡ 2) ⊎ (n.protocol_id ≡ 3)))

check_notify_scope_lem :
    (n : Notify) → IsScoped n → check_notify_scope n.protocol_id (length n.spi) ≡ ok tt
unfolding check_notify_scope
check_notify_scope_lem n (inl (z, inl p)) = rw (z, p) refl
check_notify_scope_lem n (inl (z, inr p)) = rw (z, p) refl
check_notify_scope_lem n (inr (z, inl p)) = rw (ne→== (length n.spi) 0 (omega arith), p) refl
check_notify_scope_lem n (inr (z, inr p)) = rw (ne→== (length n.spi) 0 (omega arith), p) refl

-- A scoped notification with a 16-bit type and an SPI of at most 255 bytes is appended behind `dst`,
-- and parses back.
pub parse_notify-append :
    (dst : List ℕ) (n : Notify)
    → n.type < 65536
    → length n.spi ≤ 255
    → IsScoped n
    → (body : List ℕ) × (append_notify dst n ≡ ok (dst ++ body)) × (parse_notify body ≡ ok n)
unfolding append_notify parse_notify
parse_notify-append dst n t s scope =
    let k = length n.spi in
    let head : List ℕ = n.protocol_id ∷ k ∷ byte_at n.type 8 ∷ byte_at n.type 0 ∷ [] in
    let b : List ℕ = head ++ (n.spi ++ n.data') in
    let l = length-append n.spi n.data' in
    let e_spi : take (4 + k - 4) (n.spi ++ n.data') ≡ n.spi =
      take-append_length n.spi n.data' (4 + k - 4) (omega arith) in
    let e_data : drop (4 + k) b ≡ n.data' =
      drop-append_length (head ++ n.spi) n.data' (4 + k) (omega arith) in
    (
      b,
      rw
          (
            le→ltb 255 k s,
            put_uint16_append {E = PayloadError} dst (n.protocol_id ∷ k ∷ 0 ∷ 0 ∷ []) 2
                (length dst + 2) n.type (omega arith) (omega arith),
          )
          (ap ok
            (append_assoc (dst ++ head) n.spi n.data' ∙ append_assoc dst head (n.spi ++ n.data'))),
      rw
          (
            le→ltb (length b) 4 (omega arith),
            le→ltb (length b) (4 + k) (omega (arith, l)),
            slice_ok {E = PayloadError} b 4 (4 + k) (omega arith) (omega (arith, l)),
            e_spi,
            be_uint16-put {E = PayloadError} n.type [] t,
            slice_from_ok {E = PayloadError} b (4 + k) (omega (arith, l)),
            e_data,
            check_notify_scope_lem n scope,
          )
          refl,
    )

unfoldable pub encode_spis : List ℕ → List ℕ
encode_spis [] = []
encode_spis (v ∷ vs) = byte_at v 24 ∷ byte_at v 16 ∷ byte_at v 8 ∷ byte_at v 0 ∷ encode_spis vs

append_spis_lem : (dst spis : List ℕ) → append_spis dst spis ≡ ok (dst ++ encode_spis spis)
unfolding append_spis encode_spis
append_spis_lem dst [] = ap ok (sym (append-nil dst))
append_spis_lem dst (v ∷ vs) =
    let z : List ℕ = 0 ∷ 0 ∷ 0 ∷ 0 ∷ [] in
    let x : List ℕ = byte_at v 24 ∷ byte_at v 16 ∷ byte_at v 8 ∷ byte_at v 0 ∷ [] in
    rw
      (put_uint32_append {E = PayloadError} dst z 0 (length (dst ++ z) - 4) v
        (omega (arith, length-append dst z)) (omega arith))
      (append_spis_lem (dst ++ x) vs ∙ ap ok (append_assoc dst x (encode_spis vs)))

length-encode_spis : (vs : List ℕ) → length (encode_spis vs) ≡ 4 * length vs
unfolding encode_spis
length-encode_spis [] = refl
length-encode_spis (v ∷ vs) = omega (arith, length-encode_spis vs)

-- The read position stands behind `front`.
read_spis-encode :
    (fuel off : ℕ) (front vs acc : List ℕ)
    → off ≡ length front
    → length vs < fuel
    → All (λ v. v < 2 ^ 32) vs
    → read_spis fuel (front ++ encode_spis vs) off acc ≡ ok (acc ++ vs)
unfolding read_spis encode_spis
read_spis-encode zero off front vs acc e f h = absurd (omega arith)
read_spis-encode (suc fuel) off front [] acc e f h =
    rw (append-nil front, le→ltb off (length front) (omega arith), read_spis)
      (ap ok (sym (append-nil acc)))
read_spis-encode (suc fuel) off front (v ∷ vs) acc e f h =
    let x : List ℕ = byte_at v 24 ∷ byte_at v 16 ∷ byte_at v 8 ∷ byte_at v 0 ∷ [] in
    let b = front ++ (x ++ encode_spis vs) in
    let l = length-append front (x ++ encode_spis vs) in
    let e_drop : drop off b ≡ x ++ encode_spis vs =
      drop-append_length front (x ++ encode_spis vs) off e in
    let e_spi : take (off + 4 - off) (drop off b) ≡ x =
      ap (take (off + 4 - off)) e_drop
      ∙ take-append_length x (encode_spis vs) (off + 4 - off) (omega arith) in
    rw
      (
        lt→ltb off (length b) (omega arith),
        read_spis,
        slice_ok {E = PayloadError} b off (off + 4) (omega arith) (omega arith),
        e_spi,
        be_uint32-put {E = PayloadError} v [] h.0,
      )
      (ap (λ t. read_spis fuel t (off + 4) (acc ++ (v ∷ [])))
          (sym (append_assoc front x (encode_spis vs)))
        ∙ read_spis-encode fuel (off + 4) (front ++ x) vs (acc ++ (v ∷ []))
            (omega (arith, length-append front x)) (omega arith) h.1
        ∙ ap ok (append_assoc acc (v ∷ []) vs))

-- A deletion that the code can send: no SPI for IKE, and 1 to 65535 of them for ESP.
abbrev pub IsDelete : Delete → Type 0
IsDelete d =
    ((d.protocol_id ≡ 1) × (d.spis ≡ []))
    ⊎ ((d.protocol_id ≡ 3) × (1 ≤ length d.spis) × (length d.spis ≤ 0xffff))

-- The size of an SPI that the protocol implies.
abbrev spi_size : Delete → ℕ
spi_size d = if d.protocol_id == 3 then 4 else 0

check_delete_lem : (d : Delete) → IsDelete d → check_delete d ≡ ok tt
unfolding check_delete
check_delete_lem d (inl (p, z)) = rw (p, z) refl
check_delete_lem d (inr (p, lo, hi)) =
    rw (p, ne→== (length d.spis) 0 (omega arith), le→ltb 0xffff (length d.spis) hi) refl

check_delete_counts_lem :
    (d : Delete)
    → IsDelete d
    → check_delete_counts d.protocol_id (spi_size d) (length d.spis) ≡ ok tt
unfolding check_delete_counts
check_delete_counts_lem d (inl (p, z)) = rw (p, z) refl
check_delete_counts_lem d (inr (p, lo, hi)) = rw (p, ne→== (length d.spis) 0 (omega arith)) refl

spis_size : (d : Delete) → IsDelete d → length (encode_spis d.spis) ≡ length d.spis * spi_size d
unfolding encode_spis
spis_size d (inl (p, z)) = rw (p, z) refl
spis_size d (inr (p, lo, hi)) = rw p (omega (arith, length-encode_spis d.spis))

count_fits : (d : Delete) → IsDelete d → length d.spis < 65536
count_fits d (inl (p, z)) = rw z (omega arith)
count_fits d (inr (p, lo, hi)) = omega arith

-- A deletion of 32-bit SPIs is appended behind `dst`, and parses back.
pub parse_delete-append :
    (dst : List ℕ) (d : Delete)
    → IsDelete d
    → All (λ v. v < 2 ^ 32) d.spis
    → (body : List ℕ) × (append_delete dst d ≡ ok (dst ++ body)) × (parse_delete body ≡ ok d)
unfolding append_delete parse_delete
parse_delete-append dst d h v =
    let c = length d.spis in
    let head : List ℕ = d.protocol_id ∷ spi_size d ∷ byte_at c 8 ∷ byte_at c 0 ∷ [] in
    let b : List ℕ = head ++ encode_spis d.spis in
    let l = spis_size d h in
    let small : c < 65536 = count_fits d h in
    (
      b,
      rw
          (
            check_delete_lem d h,
            put_uint16_append {E = PayloadError} dst (d.protocol_id ∷ spi_size d ∷ 0 ∷ 0 ∷ []) 2
                (length dst + 2) c (omega arith) (omega arith),
          )
          (append_spis_lem (dst ++ head) d.spis
            ∙ ap ok (append_assoc dst head (encode_spis d.spis))),
      rw
          (
            le→ltb (length b) 4 (omega arith),
            be_uint16-put {E = PayloadError} c [] small,
            check_delete_counts_lem d h,
            eq→== (length b) (4 + c * spi_size d) (omega arith),
            read_spis-encode (length b) 4 head d.spis [] (omega arith)
                (omega (arith, length-encode_spis d.spis)) v,
          )
          refl,
    )
