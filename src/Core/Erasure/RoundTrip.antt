-- ===== src/Core/Erasure/RoundTrip.antt =====
-- The parts of a payload (src/core/erasure.ts): any `required` different ones give it back.
use native.Mathlib.Nat.{zero-add}
use wildbloom.Prelude.{
  ℕ, ◌+◌, ◌*◌, ◌<◌, ◌≡◌, refl, sym, ◌∙◌, ap, ap₂, Bool, true, ◌&&◌, arith, List, [], ◌∷◌, length,
  map, tabulate, tabulate_from, get_or, take, concat,
}
use wildbloom.Prelude.{
  length-tabulate, get-tabulate, tabulate_ext, eq_by_get, length-map, get-map, ==_true, lt→ltb,
}
use wildbloom.Prelude.Text.{every}
use wildbloom.Core.Field.{Field}
use wildbloom.Core.Erasure.{ok, ◌>>=◌, in_bounds, row_of, invert, generator}
use wildbloom.Core.Erasure.Parts.{
  fits_split, part_size, Part, set_size, good_part, parts_fit, encode_parts, decode_parts,
}
use wildbloom.Core.Erasure.Results.{ok_inj}
use wildbloom.Core.Erasure.Vectors.{dot}
use wildbloom.Core.Erasure.Inverse.{Inverse}
use wildbloom.Core.Erasure.Systems.{times_vector, length-times_vector, get-times_vector}
use wildbloom.Core.Erasure.Indices.{AllBelow, Unique, Unique-set_size}
use wildbloom.Core.Erasure.Generators.{
  Code, generator_total, in_bounds_parts, selected, selected-Inverse, selected-Square,
}
use wildbloom.Core.Erasure.Encoding.{payload_at, encode_reference, encode_reached}
use wildbloom.Core.Erasure.Decoding.{
  received_at, indexed_rows, decode_written, concat-pieces, take-tabulate, part_size_covers,
}
use wildbloom.Core.Erasure.Stripes.{NeverStopped}
use wildbloom.Core.Erasure.Systematic.{length-payload_at, get-payload_at, row-encode_reference}

both_true : {a b : Bool} → a ≡ true → b ≡ true → (a && b) ≡ true
both_true h g = ap₂ ◌&&◌ h g

module _ {ℓ} {A : Type ℓ} ⦃f : Field A⦄ where
  -- The parts at these indices, as the pool hands them over.
  abbrev pub pick_parts : List (List A) → List ℕ → List (Part A)
  pick_parts encoded is = map (λ i. record { index = i; blob = row_of i encoded }) is

  module _ (blob : List A) (required total : ℕ) (is : List ℕ)
      (bounds : in_bounds required total ≡ true) (fits : fits_split (length blob) required ≡ true)
      (len_is : length is ≡ required) (below : AllBelow total is) (unique : Unique is)
      (inverse matrix : List (List A)) (code : Code A required total bounds inverse matrix) where
    abbrev size : ℕ
    size = part_size (length blob) required

    abbrev encoded : List (List A)
    encoded = encode_reference matrix required blob

    row-encoded :
        (j : ℕ)
        → j < total
        → row_of j encoded
          ≡ tabulate size (λ p. dot (row_of j matrix) (payload_at required size blob p))
    row-encoded j h = row-encode_reference matrix required j blob (omega (arith, code.row_count))

    parts_good :
        (js : List ℕ)
        → AllBelow total js
        → every (good_part total size) (pick_parts encoded js) ≡ true
    parts_good [] b = refl
    parts_good (j ∷ js) b =
        both_true
          (both_true (lt→ltb j total b.0)
            (==_true _ _ (ap length (row-encoded j b.0) ∙ length-tabulate 0 size _)))
          (parts_good js b.1)

    picked_indices : (js : List ℕ) → map (λ part. part.index) (pick_parts encoded js) ≡ js
    picked_indices [] = refl
    picked_indices (j ∷ js) = ap (λ t. j ∷ t) (picked_indices js)

    picked_rows :
        (js : List ℕ) → indexed_rows matrix (pick_parts encoded js) ≡ map (λ i. row_of i matrix) js
    picked_rows [] = refl
    picked_rows (j ∷ js) = ap (λ t. row_of j matrix ∷ t) (picked_rows js)

    picked_fit : parts_fit (pick_parts encoded is) required total (length blob) ≡ true
    unfolding parts_fit
    picked_fit =
        both_true
          (both_true (both_true fits (==_true _ _ (length-map _ is ∙ len_is)))
            (==_true _ _ (ap set_size (picked_indices is) ∙ Unique-set_size is unique ∙ len_is)))
          (parts_good is below)

    -- What the chosen parts hold at one place.
    received :
        (p : ℕ) (js : List ℕ)
        → p < size
        → AllBelow total js
        → received_at (pick_parts encoded js) p
          ≡ times_vector (map (λ i. row_of i matrix) js) (payload_at required size blob p)
    unfolding received_at times_vector
    received p [] h b = refl
    received p (j ∷ js) h b =
        ap₂ ◌∷◌
          (ap (get_or f.zero p) (row-encoded j b.0)
            ∙ get-tabulate f.zero 0 size p _ h
            ∙ ap (λ q. dot (row_of j matrix) (payload_at required size blob q)) (zero-add p))
          (received p js h b.1)

    decoded_byte :
        (i p : ℕ) (decoding : List (List A))
        → Inverse required (selected code is len_is below unique) decoding
        → i < required
        → p < size
        → dot (row_of i decoding) (received_at (pick_parts encoded is) p)
          ≡ get_or f.zero (i * size + p) blob
    decoded_byte i p decoding inv h k =
        let x : List A = payload_at required size blob p in
        let chosen : List (List A) = selected code is len_is below unique in
        let y : List A = times_vector chosen x in
        let len_x : length x ≡ required = length-payload_at required size blob p in
        let len_y : length y ≡ required =
          length-times_vector chosen x ∙ (selected-Square code is len_is below unique).row_count in
        ap (dot (row_of i decoding)) (received p is k below)
        ∙ sym (get-times_vector decoding y i (omega (arith, inv.inverse_square.row_count)))
        ∙ ap (get_or f.zero i) ((inv.solves x y len_x len_y).0 refl)
        ∙ get-payload_at required size i blob p h

    decoded_rows :
        (decoding : List (List A))
        → Inverse required (selected code is len_is below unique) decoding
        → map (λ row. tabulate size (λ p. dot row (received_at (pick_parts encoded is) p))) decoding
          ≡ tabulate required (λ i. tabulate size (λ p. get_or f.zero (i * size + p) blob))
    decoded_rows decoding inv =
        eq_by_get [] _ _
          (length-map _ decoding
            ∙ inv.inverse_square.row_count
            ∙ sym (length-tabulate 0 required _))
          (λ i h.
            let fits_i : i < required = omega (
              arith,
              length-map
                  (λ row. tabulate size (λ p. dot row (received_at (pick_parts encoded is) p)))
                  decoding,
              inv.inverse_square.row_count,
            ) in
            get-map [] []
              (λ row. tabulate size (λ p. dot row (received_at (pick_parts encoded is) p))) i
              decoding (omega (arith, inv.inverse_square.row_count))
            ∙ tabulate_ext 0 size _ _ (λ p _ k. decoded_byte i p decoding inv fits_i (omega arith))
            ∙ ap (λ j. tabulate size (λ p. get_or f.zero (j * size + p) blob)) (sym (zero-add i))
            ∙ sym (
                get-tabulate [] 0 required i
                  (λ i. tabulate size (λ p. get_or f.zero (i * size + p) blob)) fits_i))

    pub decode_picked :
        (signal : ℕ → Bool)
        → generator required total ≡ ok matrix
        → NeverStopped signal size
        → decode_parts (pick_parts encoded is) required total (length blob) signal ≡ ok blob
    decode_picked signal made never =
        let (a, b, c) = in_bounds_parts required total bounds in
        let (decoding, done, inv) = selected-Inverse code is len_is below unique in
        decode_written (pick_parts encoded is) required total (length blob) signal matrix decoding
          made picked_fit (ap invert (picked_rows is) ∙ done) inv.inverse_square.row_count never
        ∙ ap (λ rows. ok (take (length blob) (concat rows))) (decoded_rows decoding inv)
        ∙ ap (λ bytes. ok (take (length blob) bytes))
            (concat-pieces (λ q. get_or f.zero q blob) size 0 required)
        ∙ ap
            (λ k.
              ok (
                take (length blob) (tabulate_from k (required * size) (λ q. get_or f.zero q blob))))
            start
        ∙ ap ok (
            take-tabulate f.zero (required * size) blob
              (part_size_covers (length blob) required (omega arith)))
      where
        start : 0 * size ≡ 0
        start = omega arith

  -- If a payload is long enough for its pieces and not too long, and is split within the bounds, then any
  -- `required` of its parts, at different indices and in any order, are put together to the payload, as long as
  -- no look of either call finds its signal stopped.
  pub decode_parts-encode_parts :
      (blob : List A) (required total : ℕ) (encoding decoding : ℕ → Bool) (is : List ℕ)
      → in_bounds required total ≡ true
      → fits_split (length blob) required ≡ true
      → NeverStopped encoding (part_size (length blob) required)
      → NeverStopped decoding (part_size (length blob) required)
      → length is ≡ required
      → AllBelow total is
      → Unique is
      → (encode_parts blob required total encoding >>= λ encoded.
          decode_parts (pick_parts encoded is) required total (length blob) decoding)
        ≡ ok blob
  decode_parts-encode_parts blob required total encoding decoding is bounds fits never_e never_d
        len_is below unique =
      let (inverse, matrix, made, code) = generator_total A required total bounds in
      let (m, same, done) = encode_reached blob required total encoding bounds fits never_e in
      ap
        (λ r. r >>= λ encoded.
          decode_parts (pick_parts encoded is) required total (length blob) decoding)
        done
      ∙ ap
          (λ t.
            decode_parts (pick_parts (encode_reference t required blob) is) required total
              (length blob) decoding)
          (ok_inj m matrix (sym same ∙ made))
      ∙ decode_picked blob required total is bounds fits len_is below unique inverse matrix code
          decoding made never_d
