-- ===== src/Core/Erasure/Tests.antt =====
-- The coding on concrete bytes (src/core/erasure.ts): five of them, in two pieces and two spare parts.
use wildbloom.Prelude.{◌≤◌, All}
use wildbloom.Prelude.{
  ℕ, ◌+◌, ◌*◌, ◌<◌, ◌≡◌, refl, Bool, false, List, [], ◌∷◌, map, length, tabulate, get_or, arith,
}
use wildbloom.Core.Galois.Bytes.{Byte, bytes, to_byte, zero_byte}
use wildbloom.Core.Erasure.{ok, ◌>>=◌, row_of, invert, generator}
use wildbloom.Core.Erasure.Parts.{
  max_safe_integer, part_size, Part, set_size, parts_fit, encode_parts, decode_parts,
}
use wildbloom.Core.Erasure.Inverse.{Inverse, invert_reached}
use wildbloom.Core.Erasure.Generators.{top, top-Square, top-Injective}
use wildbloom.Core.Erasure.Encoding.{encode_reference, encode_reached}
use wildbloom.Core.Erasure.RoundTrip.{pick_parts, decode_parts-encode_parts}
use wildbloom.Core.Erasure.Systematic.{encode_systematic}
use wildbloom.Core.Erasure.Refusals.{decode_accepts, indices}
use wildbloom.Core.Erasure.Fitting.{IsPieceLong, decode_only_fit}
use wildbloom.Core.Erasure.Indices.{AllBelow, Unique}
use wildbloom.Core.Erasure.Stripes.{NeverStopped}

abbrev payload : List Byte
payload = map to_byte (80 ∷ 111 ∷ 111 ∷ 108 ∷ 33 ∷ [])

abbrev quiet : ℕ → Bool
quiet n = false

abbrev halves : List (Part Byte)
halves =
    record { index = 3; blob = map to_byte (1 ∷ 2 ∷ 3 ∷ []) }
    ∷ record { index = 1; blob = map to_byte (4 ∷ 5 ∷ 6 ∷ []) }
    ∷ []

decode_parts-encode_parts_example :
    (encode_parts payload 2 4 quiet >>= λ encoded.
    decode_parts (pick_parts encoded (3 ∷ 1 ∷ [])) 2 4 5 quiet)
    ≡ ok payload
decode_parts-encode_parts_example =
    decode_parts-encode_parts payload 2 4 quiet quiet (3 ∷ 1 ∷ []) refl refl (λ n h. refl)
      (λ n h. refl) refl (omega arith, (omega arith, tt)) ((omega arith, tt), (tt, tt))

encode_reached_example :
    (matrix : List (List Byte)) × (generator 2 4 ≡ ok matrix)
    × (encode_parts payload 2 4 quiet ≡ ok (encode_reference matrix 2 payload))
encode_reached_example = encode_reached payload 2 4 quiet refl refl (λ n h. refl)

encode_systematic_example :
    (encoded : List (List Byte)) × (encode_parts payload 2 4 quiet ≡ ok encoded)
    × ((i : ℕ)
        → i < 2
        → row_of i encoded
          ≡ tabulate (part_size 5 2) (λ p. get_or zero_byte (i * part_size 5 2 + p) payload))
encode_systematic_example = encode_systematic payload 2 4 quiet refl refl (λ n h. refl)

invert_reached_example :
    (inverse : List (List Byte)) × (invert (top Byte 2 4 refl) ≡ ok inverse)
    × Inverse 2 (top Byte 2 4 refl) inverse
invert_reached_example =
    invert_reached 2 (top Byte 2 4 refl) (top-Square Byte 2 4 refl) (top-Injective Byte 2 4 refl)

decode_accepts_example :
    (decoded : List Byte) × (decode_parts halves 2 4 5 quiet ≡ ok decoded) × (length decoded ≡ 5)
unfolding parts_fit set_size part_size
decode_accepts_example = decode_accepts halves 2 4 5 quiet refl refl (λ n h. refl)

halves_accepted :
    (decoded : List Byte) × (decode_parts halves 2 4 5 quiet ≡ ok decoded) × (length decoded ≡ 5)
unfolding parts_fit set_size part_size
halves_accepted = decode_accepts halves 2 4 5 quiet refl refl (λ n h. refl)

decode_only_fit_example :
    ((2 ≤ 2) × (2 < 4) × (4 ≤ 16))
    × ((2 ≤ 5) × (5 ≤ max_safe_integer))
    × ((length halves ≡ 2) × Unique (indices halves) × AllBelow 4 (indices halves))
    × All (IsPieceLong 2 5) halves
    × NeverStopped quiet (part_size 5 2)
decode_only_fit_example = decode_only_fit halves 2 4 5 quiet halves_accepted.0 halves_accepted.1
