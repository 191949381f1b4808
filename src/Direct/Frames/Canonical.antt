-- ===== src/Direct/Frames/Canonical.antt =====
-- What `decodeFrame` accepts: only frames that their sender may send, in their one encoding.
use wildbloom.Prelude.{
  ℕ, suc, ◌+◌, ◌*◌, ◌/◌, ◌%◌, ◌≤◌, ◌<◌, ◌≡◌, ◌⊎◌, inl, inr, refl, sym, ap, ◌∙◌, List, [], ◌∷◌, ◌++◌,
  arith, length, ◌||◌, subst, take, drop, leb, ltb, AllBytes, All-drop, ==_iff, drop-drop,
  drop-length_le, same_or_not, ◌≢◌, ◌==◌, take-append-drop, length-take, length-drop, Bool-cases,
}
use wildbloom.Direct.Frames.{
  Role, sender, receiver, failure, Frame, data_frame, ack, end_frame, stop, Result, ok, err,
  encode_data, encode_ack, encode_end, encode_kept, encode_stop, decode_frame, max_safe_integer,
  ◌>>=◌, u32_bytes, read_u64, get_u32, decode_data, decode_ack, decode_end, decode_kept,
  decode_stop, stop_code,
}
use wildbloom.Direct.Frames.RoundTrip.{encode, IsAllowed, high, low, write_u64_ok}

get_u32-ok :
    (xs : List ℕ) (v : ℕ)
    → AllBytes xs
    → get_u32 xs ≡ ok v
    → (v < 4294967296) × (u32_bytes v ++ drop 4 xs ≡ xs)
get_u32-ok [] v b h = cc
get_u32-ok (p ∷ []) v b h = cc
get_u32-ok (p ∷ q ∷ []) v b h = cc
get_u32-ok (p ∷ q ∷ r ∷ []) v b h = cc
get_u32-ok (p ∷ q ∷ r ∷ s ∷ xs) v b h = ground arith

bind-ok :
    {A B : Type 0} {seen : B} (first : Result A) (next : A → Result B)
    → (first >>= next) ≡ ok seen
    → (value : A) × (first ≡ ok value) × (next value ≡ ok seen)
bind-ok (err e) next h = cc
bind-ok (ok value) next h = (value, refl, h)

-- The two halves of a number that is put together from them.
halves :
    (hi lo : ℕ)
    → lo < 4294967296
    → ((hi * 4294967296 + lo) / 4294967296 ≡ hi) × ((hi * 4294967296 + lo) % 4294967296 ≡ lo)
halves hi lo h = omega arith

read_u64-parts :
    (xs : List ℕ) (v : ℕ)
    → read_u64 xs 0 ≡ ok v
    → (hi : ℕ) × (lo : ℕ) × (get_u32 xs ≡ ok hi)
      × (get_u32 (drop 4 xs) ≡ ok lo)
      × (hi ≤ 2097151)
      × (v ≡ hi * 4294967296 + lo)
read_u64-parts xs v h =
    let (hi, e, k) = bind-ok (get_u32 xs) _ h in
    elim (Bool-cases (ltb 2097151 hi)) [
      | inl p ↦ absurd (cc (p, k))
      | inr p ↦
          let (lo, e2, k2) =
            bind-ok (get_u32 (drop 4 xs)) (λ low. ok (hi * 4294967296 + low)) (rw p at k) in
          (hi, lo, e, e2, ground arith, cc k2)
    ]

read_u64-ok :
    (xs : List ℕ) (v : ℕ)
    → AllBytes xs
    → read_u64 xs 0 ≡ ok v
    → (v ≤ max_safe_integer) × (high v ++ (low v ++ drop 8 xs) ≡ xs)
read_u64-ok xs v b h =
    let (hi, lo, e, e2, le, ev) = read_u64-parts xs v h in
    let first = get_u32-ok xs hi b e in
    let second = get_u32-ok (drop 4 xs) lo (All-drop (λ b. b < 256) 4 xs b) e2 in
    let (p, q) = halves hi lo second.0 in
    (
      omega arith,
      rw (ev, p, q)
          (ap (λ t. u32_bytes hi ++ (u32_bytes lo ++ t)) (sym (drop-drop 4 4 xs))
            ∙ ap (λ t. u32_bytes hi ++ t) second.1
            ∙ first.1),
    )

-- A message of two bytes, a STOP with a reason that the protocol does not have, which is read as reason 2.
abbrev pub IsUnknownStop : List ℕ → Frame → Type 0
IsUnknownStop bytes f =
    (b : ℕ) × (bytes ≡ 5 ∷ b ∷ []) × (b ≢ 1) × (b ≢ 2) × (b ≢ 3) × (f ≡ stop failure)

-- `bytes` is the encoding of `f`, or a STOP with an unknown reason.
abbrev pub IsCanonical : Role → List ℕ → Frame → Type 0
IsCanonical from bytes f = IsAllowed from f × ((encode f ≡ ok bytes) ⊎ IsUnknownStop bytes f)

ok-injective : {A : Type 0} {a b : A} → ok a ≡ ok b → a ≡ b
ok-injective h = cc h

data-ok :
    (from : Role) (rest : List ℕ) (f : Frame)
    → AllBytes rest
    → decode_data from (1 ∷ rest) ≡ ok f
    → IsCanonical from (1 ∷ rest) f
unfolding decode_data encode_data
data-ok receiver rest f b h = cc h
data-ok sender rest f b h =
    elim (Bool-cases (leb (suc (length rest)) 9 || ltb 65536 (suc (length rest)))) [
      | inl p ↦ absurd (cc (p, h))
      | inr p ↦
          let (o, e, k) =
            bind-ok (read_u64 rest 0) (λ o. ok (data_frame o (drop 8 rest))) (rw p at h) in
          let (le, whole) = read_u64-ok rest o b e in
          subst (IsCanonical sender (1 ∷ rest)) (ok-injective k) (
            (refl, le, ground (arith, length-drop 8 rest), ground (arith, length-drop 8 rest)),
            inl (ground (arith, length-drop 8 rest, write_u64_ok o le, whole)),
          )
    ]

ack-ok :
    (from : Role) (rest : List ℕ) (f : Frame)
    → AllBytes rest
    → decode_ack from (2 ∷ rest) ≡ ok f
    → IsCanonical from (2 ∷ rest) f
unfolding decode_ack encode_ack
ack-ok sender rest f b h = cc h
ack-ok receiver rest f b h = elim (Bool-cases (suc (length rest) == 9)) [
  | inr p ↦ absurd (cc (p, h))
  | inl p ↦
      let (n, e, k) = bind-ok (read_u64 rest 0) (λ n. ok (ack n)) (rw p at h) in
      let (le, whole) = read_u64-ok rest n b e in
      subst (IsCanonical receiver (2 ∷ rest)) (ok-injective k)
        ((refl, le), inl (ground (arith, drop-length_le 8 rest, write_u64_ok n le, whole)))
]

end-ok :
    (from : Role) (rest : List ℕ) (f : Frame)
    → AllBytes rest
    → decode_end from (3 ∷ rest) ≡ ok f
    → IsCanonical from (3 ∷ rest) f
unfolding decode_end encode_end
end-ok receiver rest f b h = cc h
end-ok sender rest f b h = elim (Bool-cases (suc (length rest) == 41)) [
  | inr p ↦ absurd (cc (p, h))
  | inl p ↦
      let (n, e, k) =
        bind-ok (read_u64 (3 ∷ rest) 33) (λ n. ok (end_frame (take 32 rest) n)) (rw p at h) in
      let (le, whole) =
        read_u64-ok (drop 32 rest) n (All-drop (λ b. b < 256) 32 rest b)
          (rw (drop-drop 32 4 rest) e) in
      subst (IsCanonical sender (3 ∷ rest)) (ok-injective k) (
        (refl, ground (arith, length-take 32 rest), le),
        inl (
            ground (
              arith,
              length-take 32 rest,
              length-drop 32 rest,
              drop-length_le 8 (drop 32 rest),
              write_u64_ok n le,
              whole,
              take-append-drop 32 rest,
            )),
      )
]

kept-ok :
    (from : Role) (rest : List ℕ) (f : Frame)
    → decode_kept from (4 ∷ rest) ≡ ok f
    → IsCanonical from (4 ∷ rest) f
unfolding decode_kept encode_kept
kept-ok sender rest f h = cc h
kept-ok receiver [] f h = subst (IsCanonical receiver (4 ∷ [])) (ok-injective h) (refl, inl refl)
kept-ok receiver (x ∷ rest) f h = absurd (ground arith)

-- The reason of a STOP is written back as it was read, if the protocol has it.
reason_read :
    (b : ℕ)
    → (encode (stop (stop_code b)) ≡ ok (5 ∷ b ∷ []))
      ⊎ IsUnknownStop (5 ∷ b ∷ []) (stop (stop_code b))
unfolding encode_stop
reason_read b = elim (same_or_not b 1) [
  | inl p ↦ inl (ground arith)
  | inr n1 ↦ elim (same_or_not b 3) [
    | inl p ↦ inl (ground arith)
    | inr n3 ↦ elim (same_or_not b 2) [
      | inl p ↦ inl (ground arith)
      | inr n2 ↦ inr (b, refl, n1, n2, n3, ground arith)
    ]
  ]
]

stop-ok :
    (from : Role) (rest : List ℕ) (f : Frame)
    → decode_stop (5 ∷ rest) ≡ ok f
    → IsCanonical from (5 ∷ rest) f
unfolding decode_stop encode_stop
stop-ok from [] f h = cc h
stop-ok from (x ∷ []) f h =
    subst (IsCanonical from (5 ∷ x ∷ [])) (ok-injective h) (tt, reason_read x)
stop-ok from (x ∷ y ∷ rest) f h = cc h

-- What is decoded is a frame that its sender may send, and the message is the one encoding of
-- that frame, except that a STOP with an unknown reason reads as reason 2.
pub decode_frame-IsCanonical :
    (from : Role) (bytes : List ℕ) (f : Frame)
    → AllBytes bytes
    → decode_frame from bytes ≡ ok f
    → IsCanonical from bytes f
unfolding decode_frame
decode_frame-IsCanonical from [] f b h = cc h
decode_frame-IsCanonical from (t ∷ rest) f b h = elim (Bool-cases (t == 1)) [
  | inl p ↦ let e = (==_iff t 1).0 p in rw e (data-ok from rest f b.1 (rw e at h))
  | inr p1 ↦ elim (Bool-cases (t == 2)) [
    | inl p ↦ let e = (==_iff t 2).0 p in rw e (ack-ok from rest f b.1 (rw e at h))
    | inr p2 ↦ elim (Bool-cases (t == 3)) [
      | inl p ↦ let e = (==_iff t 3).0 p in rw e (end-ok from rest f b.1 (rw e at h))
      | inr p3 ↦ elim (Bool-cases (t == 4)) [
        | inl p ↦ let e = (==_iff t 4).0 p in rw e (kept-ok from rest f (rw e at h))
        | inr p4 ↦ elim (Bool-cases (t == 5)) [
          | inl p ↦ let e = (==_iff t 5).0 p in rw e (stop-ok from rest f (rw e at h))
          | inr p5 ↦ absurd (cc (p1, p2, p3, p4, p5, h))
        ]
      ]
    ]
  ]
]
