-- ===== src/Core/Erasure/Encoding.antt =====
-- What `encodeParts` gives (src/core/erasure.ts): each part is a row of the generator applied to the bytes
-- that stand at one place of the pieces of the payload.
use wildbloom.Prelude.{
  ℕ, suc, ◌+◌, ◌-◌, ◌*◌, ◌≤◌, ◌<◌, min, ◌≡◌, sym, ◌∙◌, ap, Bool, true, arith, List, [], length, map,
  replicate, tabulate, tabulate_from, get_or, drop,
}
use wildbloom.Prelude.{map-tabulate, tabulate_ext, tabulate_shift, get-take, get-drop}
use wildbloom.Core.Field.{Field}
use wildbloom.Core.Erasure.{
  ok, err, ◌>>=◌, ◌>>◌, guard, aborted, too_small, in_bounds, generator, combine,
}
use wildbloom.Core.Erasure.Parts.{
  part_size, fits_split, slice, stripes, stripe_data, encode_stripe, encode_parts,
}
use wildbloom.Core.Erasure.Vectors.{dot}
use wildbloom.Core.Erasure.Pieces.{combine_values}
use wildbloom.Core.Erasure.Generators.{generator_total}
use wildbloom.Core.Erasure.Stripes.{NeverStopped, stripe_count, stripes_written, stripes_stopped}

-- A slice's element, counted from the slice's start.
pub get-slice {ℓ} :
    {A : Type ℓ} (d : A) (start end p : ℕ) (blob : List A)
    → start + p < end
    → get_or d p (slice start end blob) ≡ get_or d (start + p) blob
get-slice d start end p blob h =
    get-take d (end - start) p (drop start blob) (omega arith) ∙ get-drop d start p blob

next_piece : (i size : ℕ) → (i + 1) * size ≡ i * size + size
next_piece i size = omega arith

module _ {ℓ} {A : Type ℓ} ⦃f : Field A⦄ where
  -- A stripe of a row's products, whatever the bytes under it are.
  pub combine_stripe :
      (row : List A) (inputs : List (List A)) (bytes : ℕ → List A) (offset count : ℕ)
      → ((p : ℕ) → p < count → map (get_or f.zero p) inputs ≡ bytes (offset + p))
      → combine row inputs count ≡ tabulate_from offset count (λ p. dot row (bytes p))
  combine_stripe row inputs bytes offset count h =
      combine_values row inputs count
      ∙ tabulate_ext 0 count _ (λ p. dot row (bytes (offset + p)))
          (λ p _ k. ap (dot row) (h p (omega arith)))
      ∙ tabulate_shift 0 offset count (λ p. dot row (bytes p))
      ∙ ap (λ k. tabulate_from k count (λ p. dot row (bytes p))) (omega arith)

  -- The bytes at one place of the pieces, which are `size` long; behind the payload stand zeros.
  unfoldable pub payload_at : ℕ → ℕ → List A → ℕ → List A
  payload_at required size blob p = tabulate required (λ i. get_or f.zero (i * size + p) blob)

  -- The parts without stripes.
  unfoldable pub encode_reference : List (List A) → ℕ → List A → List (List A)
  encode_reference matrix required blob =
      let size : ℕ = part_size (length blob) required in
      map (λ row. tabulate size (λ p. dot row (payload_at required size blob p))) matrix

  data_bytes :
      (required size : ℕ) (blob : List A) (offset count p : ℕ)
      → offset + count ≤ size
      → p < count
      → map (get_or f.zero p) (stripe_data required size blob offset count)
        ≡ payload_at required size blob (offset + p)
  unfolding stripe_data payload_at
  data_bytes required size blob offset count p fits h =
      map-tabulate (get_or f.zero p) _ 0 required
      ∙ tabulate_ext 0 required _ _ (λ i _ k.
        get-slice f.zero (i * size + offset) (min (i * size + offset + count) ((i + 1) * size)) p
          blob (omega (arith, next_piece i size))
        ∙ ap (λ j. get_or f.zero j blob) (omega arith))

  encode_steps :
      (matrix : List (List A)) (required size : ℕ) (blob : List A) (offset count : ℕ)
      → offset + count ≤ size
      → encode_stripe matrix required size blob offset count
        ≡ map
            (λ row. tabulate_from offset count (λ p. dot row (payload_at required size blob p)))
            matrix
  unfolding encode_stripe
  encode_steps matrix required size blob offset count fits =
      ap (λ g. map g matrix)
        (λ j row.
          combine_stripe row (stripe_data required size blob offset count)
            (payload_at required size blob) offset count
            (λ p h. data_bytes required size blob offset count p fits h) j)

  -- Behind the first checks, only the loop is left.
  encode_loop :
      (blob : List A) (required total : ℕ) (signal : ℕ → Bool) (matrix : List (List A))
      → generator required total ≡ ok matrix
      → fits_split (length blob) required ≡ true
      → encode_parts blob required total signal
        ≡ stripes
            (suc (part_size (length blob) required))
            0
            (part_size (length blob) required)
            signal
            (encode_stripe matrix required (part_size (length blob) required) blob)
            (replicate total [])
  unfolding encode_parts
  encode_loop blob required total signal matrix g fits =
      let size : ℕ = part_size (length blob) required in
      ap
        (λ r. r >>= λ m.
          guard (fits_split (length blob) required) too_small
          >> stripes (suc size) 0 size signal (encode_stripe m required size blob)
              (replicate total []))
        g
      ∙ ap
          (λ b.
            guard b too_small
            >> stripes (suc size) 0 size signal (encode_stripe matrix required size blob)
                (replicate total []))
          fits

  -- Within the bounds, for a payload that is long enough for its pieces and not too long, and as long as no look
  -- finds the signal stopped, there is a generator, and the parts are those of the reference without stripes:
  -- each byte of a part is the product of its row with the bytes at that place of the pieces.
  pub encode_reached :
      (blob : List A) (required total : ℕ) (signal : ℕ → Bool)
      → in_bounds required total ≡ true
      → fits_split (length blob) required ≡ true
      → NeverStopped signal (part_size (length blob) required)
      → (matrix : List (List A)) × (generator required total ≡ ok matrix)
        × (encode_parts blob required total signal ≡ ok (encode_reference matrix required blob))
  unfolding encode_reference
  encode_reached blob required total signal bounds fits never =
      let (inverse, matrix, done, code) = generator_total A required total bounds in
      let size : ℕ = part_size (length blob) required in
      (
        matrix,
        done,
        encode_loop blob required total signal matrix done fits
            ∙ ap
                (λ n.
                  stripes (suc size) 0 size signal (encode_stripe matrix required size blob)
                    (replicate n []))
                (sym code.row_count)
            ∙ stripes_written size signal (encode_stripe matrix required size blob) matrix
                (λ row p. dot row (payload_at required size blob p))
                (λ offset count k. encode_steps matrix required size blob offset count k) never,
      )

  -- A signal that some look finds stopped ends the call.
  pub encode_stopped :
      (blob : List A) (required total : ℕ) (signal : ℕ → Bool) (n : ℕ)
      → in_bounds required total ≡ true
      → fits_split (length blob) required ≡ true
      → n ≤ 2 * stripe_count (part_size (length blob) required)
      → signal n ≡ true
      → encode_parts blob required total signal ≡ err aborted
  encode_stopped blob required total signal n bounds fits seen stop =
      let (inverse, matrix, done, code) = generator_total A required total bounds in
      let size : ℕ = part_size (length blob) required in
      encode_loop blob required total signal matrix done fits
      ∙ stripes_stopped size signal (encode_stripe matrix required size blob) n (replicate total [])
          seen stop
