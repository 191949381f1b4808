-- ===== src/Core/Erasure/Refusals.antt =====
-- When the coding refuses (src/core/erasure.ts): the tests of both directions, the stopped signal, and that
-- parts which pass the tests are never refused for their bytes.
use wildbloom.Prelude.{
  ℕ, suc, ◌+◌, ◌*◌, ◌≤◌, ◌≡◌, refl, sym, ◌∙◌, ap, ap₂, Bool, true, false, Option, none, some, ◌⊎◌,
  inl, inr, if◌then◌else◌, arith, List, [], ◌∷◌, length, map, tabulate, take, concat, replicate,
  ltb, ltb→lt, ==_iff, length-tabulate, length-map, length-append, length-take,
}
use wildbloom.Prelude.Text.{every, both_hold}
use wildbloom.Core.Field.{Field}
use wildbloom.Core.Erasure.{
  Failure, Result, ok, err, ◌>>=◌, ◌>>◌, guard, bad_bounds, too_small, wrong_parts, aborted,
  in_bounds, coding_bounds, row_of, invert, vandermonde, product_row, generator,
}
use wildbloom.Core.Erasure.Parts.{
  fits_split, stripes, encode_stripe, decode_stripe, part_size, Part, good_part, parts_fit,
  encode_parts, decode_parts,
}
use wildbloom.Core.Erasure.Vectors.{dot}
use wildbloom.Core.Erasure.Indices.{AllBelow, Unique, set_size-Unique}
use wildbloom.Core.Erasure.Generators.{Code, generator_total, in_bounds_parts, selected-Inverse}
use wildbloom.Core.Erasure.Decoding.{
  received_at, indexed_rows, decode_loop, decode_written, part_size_covers,
}
use wildbloom.Core.Erasure.Stripes.{NeverStopped, stripe_count, stripes_stopped}

module _ {ℓ} {A : Type ℓ} ⦃f : Field A⦄ where
  abbrev pub indices : List (Part A) → List ℕ
  indices parts = map (λ part. part.index) parts

  indexed_by :
      (matrix : List (List A)) (parts : List (Part A))
      → map (λ i. row_of i matrix) (indices parts) ≡ indexed_rows matrix parts
  indexed_by matrix [] = refl
  indexed_by matrix (part ∷ parts) =
      ap (λ t. row_of part.index matrix ∷ t) (indexed_by matrix parts)

  indices_below :
      (total size : ℕ) (parts : List (Part A))
      → every (good_part total size) parts ≡ true
      → AllBelow total (indices parts)
  indices_below total size [] h = tt
  indices_below total size (part ∷ parts) h =
      let (good, rest) = both_hold (good_part total size part) _ h in
      (
        ltb→lt part.index total (both_hold (ltb part.index total) _ good).0,
        indices_below total size parts rest,
      )

  length-concat :
      (n : ℕ) (g : List A → ℕ → A) (rows : List (List A))
      → length (concat (map (λ row. tabulate n (g row)) rows)) ≡ length rows * n
  length-concat n g [] = omega arith
  length-concat n g (row ∷ rows) =
      length-append (tabulate n (g row)) (concat (map (λ row. tabulate n (g row)) rows))
      ∙ ap₂ (λ j k. j + k) (length-tabulate 0 n (g row)) (length-concat n g rows)
      ∙ omega arith

  module _ (parts : List (Part A)) (required total size : ℕ)
      (bounds : in_bounds required total ≡ true)
      (fits : parts_fit parts required total size ≡ true) where
    pub count_is : length parts ≡ required
    unfolding parts_fit
    count_is = (==_iff _ _).0 (both_hold _ _ (both_hold _ _ (both_hold _ _ fits).0).0).1

    pub indices-Unique : Unique (indices parts)
    unfolding parts_fit
    indices-Unique = set_size-Unique (indices parts) (
        (==_iff _ _).0 (both_hold _ _ (both_hold _ _ fits).0).1
        ∙ sym count_is
        ∙ sym (length-map _ parts))

    pub below_total : AllBelow total (indices parts)
    unfolding parts_fit
    below_total = indices_below total (part_size size required) parts (both_hold _ _ fits).1

    decoding_of :
        {inverse matrix : List (List A)}
        → Code A required total bounds inverse matrix
        → (decoding : List (List A)) × (invert (indexed_rows matrix parts) ≡ ok decoding)
          × (length decoding ≡ required)
    decoding_of {inverse} {matrix} code =
        let (decoding, done, inv) =
          selected-Inverse code (indices parts) (length-map _ parts ∙ count_is) below_total
            indices-Unique in
        (decoding, ap invert (sym (indexed_by matrix parts)) ∙ done, inv.inverse_square.row_count)

  -- Within the bounds, parts that pass the tests are always put together, to as many bytes as the payload is said
  -- to have, whatever they hold, as long as no look finds the signal stopped: their matrix is never singular.
  pub decode_accepts :
      (parts : List (Part A)) (required total size : ℕ) (signal : ℕ → Bool)
      → in_bounds required total ≡ true
      → parts_fit parts required total size ≡ true
      → NeverStopped signal (part_size size required)
      → (bytes : List A) × (decode_parts parts required total size signal ≡ ok bytes)
        × (length bytes ≡ size)
  decode_accepts parts required total size signal bounds fits never =
      let (inverse, matrix, made, code) = generator_total A required total bounds in
      let (decoding, done, len) = decoding_of parts required total size bounds fits code in
      let (a, b, c) = in_bounds_parts required total bounds in
      let n : ℕ = part_size size required in
      (
        _,
        decode_written parts required total size signal matrix decoding made fits done len never,
        length-take size _
            ∙ omega (
              arith,
              length-concat n (λ row p. dot row (received_at parts p)) decoding,
              ap (λ k. k * n) len,
              part_size_covers size required (omega arith),
            ),
      )

  -- A signal that some look finds stopped ends the call.
  pub decode_stopped :
      (parts : List (Part A)) (required total size : ℕ) (signal : ℕ → Bool) (n : ℕ)
      → in_bounds required total ≡ true
      → parts_fit parts required total size ≡ true
      → n ≤ 2 * stripe_count (part_size size required)
      → signal n ≡ true
      → decode_parts parts required total size signal ≡ err aborted
  decode_stopped parts required total size signal n bounds fits seen stop =
      let (inverse, matrix, made, code) = generator_total A required total bounds in
      let (decoding, done, len) = decoding_of parts required total size bounds fits code in
      decode_loop parts required total size signal matrix decoding made fits done
      ∙ ap (λ r. r >>= λ output. ok (take size (concat output)))
          (stripes_stopped (part_size size required) signal _ n _ seen stop)

-- The first test that a call to split a payload of this length fails.
abbrev pub split_refusal : ℕ → ℕ → ℕ → Option Failure
split_refusal required total size =
    if in_bounds required total
    then (if fits_split size required then none else some too_small)
    else some bad_bounds

-- The first test that a call to put parts together fails.
abbrev pub join_refusal {ℓ} :
    {A : Type ℓ} ⦃f : Field A⦄ → List (Part A) → ℕ → ℕ → ℕ → Option Failure
join_refusal parts required total size =
    if in_bounds required total
    then (if parts_fit parts required total size then none else some wrong_parts)
    else some bad_bounds

refused_twice :
    (a b : Bool) (e g : Failure)
    → (if a then (if b then none else some e) else some bad_bounds) ≡ some g
    → ((a ≡ false) × (g ≡ bad_bounds)) ⊎ ((a ≡ true) × (b ≡ false) × (g ≡ e))
refused_twice true true e g h = cc h
refused_twice true false e g h = inr (refl, refl, cc h)
refused_twice false b e g h = inl (refl, cc h)

module _ {ℓ} {A : Type ℓ} ⦃f : Field A⦄ where
  generator_refused :
      (required total : ℕ)
      → in_bounds required total ≡ false
      → generator {A = A} required total ≡ err bad_bounds
  unfolding generator coding_bounds
  generator_refused required total h =
      ap
        (λ b.
          guard b bad_bounds
          >> (invert (take required (vandermonde required total)) >>= λ t.
              ok (map (product_row required t) (vandermonde required total))))
        h

  -- If the bounds or the payload fail a test, the call throws the failure of the first test that fails.
  pub encode_refused :
      (blob : List A) (required total : ℕ) (signal : ℕ → Bool) (failure : Failure)
      → split_refusal required total (length blob) ≡ some failure
      → encode_parts blob required total signal ≡ err failure
  unfolding encode_parts
  encode_refused blob required total signal failure h =
      let size : ℕ = part_size (length blob) required in
      elim (refused_twice (in_bounds required total) (fits_split (length blob) required) too_small
        failure h) [
          | inl (b, e) ↦
              ap
                (λ r. r >>= λ m.
                  guard (fits_split (length blob) required) too_small
                  >> stripes (suc size) 0 size signal (encode_stripe m required size blob)
                      (replicate total []))
                (generator_refused required total b)
              ∙ ap err (sym e)
          | inr (b, c, e) ↦
              let (inverse, matrix, made, code) = generator_total A required total b in
              ap
                (λ r. r >>= λ m.
                  guard (fits_split (length blob) required) too_small
                  >> stripes (suc size) 0 size signal (encode_stripe m required size blob)
                      (replicate total []))
                made
              ∙ ap
                  (λ t.
                    guard t too_small
                    >> stripes (suc size) 0 size signal (encode_stripe matrix required size blob)
                        (replicate total []))
                  c
              ∙ ap err (sym e)
        ]

  -- If the bounds or the parts fail a test, the call throws the failure of the first test that fails.
  pub decode_refused :
      (parts : List (Part A)) (required total size : ℕ) (signal : ℕ → Bool) (failure : Failure)
      → join_refusal parts required total size ≡ some failure
      → decode_parts parts required total size signal ≡ err failure
  unfolding decode_parts
  decode_refused parts required total size signal failure h =
      elim (refused_twice (in_bounds required total) (parts_fit parts required total size)
        wrong_parts failure h) [
          | inl (b, e) ↦
              ap
                (λ r. r >>= λ m. guard (parts_fit parts required total size) wrong_parts >> after m)
                (generator_refused required total b)
              ∙ ap err (sym e)
          | inr (b, c, e) ↦
              let (inverse, matrix, made, code) = generator_total A required total b in
              ap
                (λ r. r >>= λ m. guard (parts_fit parts required total size) wrong_parts >> after m)
                made
              ∙ ap (λ t. guard t wrong_parts >> after matrix) c
              ∙ ap err (sym e)
        ]
    where
      after : List (List A) → Result (List A)
      after m = invert (indexed_rows m parts) >>= λ decoding.
          stripes (suc (part_size size required)) 0 (part_size size required) signal
            (decode_stripe decoding parts) (replicate required [])
          >>= λ output. ok (take size (concat output))
