-- ===== src/Core/Erasure/Systematic.antt =====
-- The first parts of a payload (src/core/erasure.ts): its own pieces.
use native.Mathlib.Nat.{zero-add}
use wildbloom.Prelude.{
  ℕ, ◌+◌, ◌*◌, ◌<◌, ◌≡◌, sym, ◌∙◌, ap, Bool, true, arith, List, [], length, tabulate, get_or,
}
use wildbloom.Prelude.{length-tabulate, get-tabulate, tabulate_ext, get-map}
use wildbloom.Core.Field.{Field}
use wildbloom.Core.Erasure.{ok, in_bounds, row_of}
use wildbloom.Core.Erasure.Parts.{fits_split, part_size, encode_parts}
use wildbloom.Core.Erasure.Results.{ok_inj}
use wildbloom.Core.Erasure.Vectors.{dot}
use wildbloom.Core.Erasure.Generators.{generator_total, in_bounds_parts, first_rows}
use wildbloom.Core.Erasure.Encoding.{payload_at, encode_reference, encode_reached}
use wildbloom.Core.Erasure.Stripes.{NeverStopped}

module _ {ℓ} {A : Type ℓ} ⦃f : Field A⦄ where
  pub length-payload_at :
      (required size : ℕ) (blob : List A) (p : ℕ)
      → length (payload_at required size blob p) ≡ required
  unfolding payload_at
  length-payload_at required size blob p = length-tabulate 0 required _

  pub get-payload_at :
      (required size i : ℕ) (blob : List A) (p : ℕ)
      → i < required
      → get_or f.zero i (payload_at required size blob p) ≡ get_or f.zero (i * size + p) blob
  unfolding payload_at
  get-payload_at required size i blob p h =
      get-tabulate f.zero 0 required i _ h
      ∙ ap (λ j. get_or f.zero (j * size + p) blob) (zero-add i)

  -- A part of the reference.
  pub row-encode_reference :
      (matrix : List (List A)) (required i : ℕ) (blob : List A)
      → i < length matrix
      → row_of i (encode_reference matrix required blob)
        ≡ tabulate (part_size (length blob) required) (λ p.
          dot (row_of i matrix) (payload_at required (part_size (length blob) required) blob p))
  unfolding encode_reference
  row-encode_reference matrix required i blob h = get-map [] [] _ i matrix h

  -- A payload that is long enough for its pieces and not too long is split within the bounds, as long as no look
  -- of the call finds its signal stopped, and the first `required` parts are its
  -- own pieces, with zeros behind its end.
  pub encode_systematic :
      (blob : List A) (required total : ℕ) (signal : ℕ → Bool)
      → in_bounds required total ≡ true
      → fits_split (length blob) required ≡ true
      → NeverStopped signal (part_size (length blob) required)
      → (encoded : List (List A)) × (encode_parts blob required total signal ≡ ok encoded)
        × ((i : ℕ)
            → i < required
            → row_of i encoded
              ≡ tabulate
                  (part_size (length blob) required)
                  (λ p. get_or f.zero (i * part_size (length blob) required + p) blob))
  encode_systematic blob required total signal bounds fits never =
      let (inverse, matrix, made, code) = generator_total A required total bounds in
      let (m, same, done) = encode_reached blob required total signal bounds fits never in
      let (a, b, c) = in_bounds_parts required total bounds in
      let size : ℕ = part_size (length blob) required in
      (
        encode_reference matrix required blob,
        done ∙ ap (λ t. ok (encode_reference t required blob)) (ok_inj m matrix (sym same ∙ made)),
        λ i h.
            row-encode_reference matrix required i blob (omega (arith, code.row_count))
            ∙ tabulate_ext 0 size _ _ (λ p _ k.
              first_rows code (payload_at required size blob p) i
                (length-payload_at required size blob p) h
              ∙ get-payload_at required size i blob p h),
      )
