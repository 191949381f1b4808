-- ===== src/Core/Erasure/Parts.antt =====
-- Payloads and their parts (src/core/erasure.ts): encodeParts and decodeParts, with the stripes in which they work.
-- A blob is the list of its bytes.
use wildbloom.Prelude.{ℕ, zero, suc, ◌+◌, ◌-◌, ◌*◌, ◌/◌, min, Bool, true, false, not, ◌&&◌}
use wildbloom.Prelude.{List, [], ◌∷◌, ◌++◌, map, length, take, drop, concat, replicate, tabulate}
use wildbloom.Prelude.{ltb, leb, ◌==◌, if◌then◌else◌}
use wildbloom.Prelude.Text.{every, some_of}
use wildbloom.Core.Field.{Field}
use wildbloom.Core.Erasure.{
  Result, ok, ◌>>=◌, ◌>>◌, guard, too_small, wrong_parts, aborted, row_of, invert, generator,
  combine,
}

abbrev pub stripe_bytes : ℕ
stripe_bytes = 64 * 1024

abbrev pub max_safe_integer : ℕ
max_safe_integer = 9007199254740991

-- The test of a payload's length that both directions make.
abbrev pub fits_split : ℕ → ℕ → Bool
fits_split size required = leb size max_safe_integer && leb required size

-- `Math.ceil(length / required)`.
unfoldable pub part_size : ℕ → ℕ → ℕ
part_size length required = (length + required - 1) / required

-- `blob.slice`, whose bounds are cut to the blob.
abbrev pub slice {ℓ} : {A : Type ℓ} → ℕ → ℕ → List A → List A
slice start end blob = take (end - start) (drop start blob)

-- `signal?.throwIfAborted()`, the `n`th time that the call looks.
unfoldable pub throw_if_aborted : (ℕ → Bool) → ℕ → Result (Unit {0})
throw_if_aborted signal n = guard (not (signal n)) aborted

-- Before the stripe with this number, on both sides of the wait.
unfoldable pub checkpoint : (ℕ → Bool) → ℕ → Result (Unit {0})
checkpoint signal stripe =
    throw_if_aborted signal (2 * stripe) >> throw_if_aborted signal (2 * stripe + 1)

module _ {ℓ} {A : Type ℓ} where
  -- What every `push` adds; a blob made of its parts is their bytes in order.
  unfoldable pub push_all : List (List A) → List (List A) → List (List A)
  push_all [] pieces = []
  push_all (o ∷ outputs) [] = o ∷ outputs
  push_all (o ∷ outputs) (p ∷ pieces) = (o ++ p) ∷ push_all outputs pieces

  -- The loop over `offset`, which both directions have, by the number of the stripe; `step` is a stripe's
  -- pieces at its offset and of its length. `fuel` rounds are allowed.
  unfoldable pub stripes :
      ℕ → ℕ → ℕ → (ℕ → Bool) → (ℕ → ℕ → List (List A)) → List (List A) → Result (List (List A))
  stripes zero stripe size signal step outputs = ok outputs
  stripes (suc fuel) stripe size signal step outputs = elim (ltb (stripe * stripe_bytes) size) [
    | true ↦ do
      checkpoint signal stripe
      let count : ℕ = min stripe_bytes (size - stripe * stripe_bytes)
      stripes fuel (suc stripe) size signal step
          (push_all outputs (step (stripe * stripe_bytes) count))
    | false ↦ throw_if_aborted signal (2 * stripe) >> ok outputs
  ]

pub record Part {ℓ} (A : Type ℓ) : Type ℓ where
  pub index : ℕ
  pub blob : List A

-- `new Set(...).size`.
unfoldable pub set_size : List ℕ → ℕ
set_size [] = 0
set_size (x ∷ xs) =
    let rest : ℕ = set_size xs in if some_of (λ y. x == y) xs then rest else suc rest

module _ {ℓ} {A : Type ℓ} ⦃f : Field A⦄ where
  -- The slice of every piece of the payload that a stripe takes.
  unfoldable pub stripe_data : ℕ → ℕ → List A → ℕ → ℕ → List (List A)
  stripe_data required size blob offset count =
      tabulate required
        (λ i. slice (i * size + offset) (min (i * size + offset + count) ((i + 1) * size)) blob)

  unfoldable pub encode_stripe : List (List A) → ℕ → ℕ → List A → ℕ → ℕ → List (List A)
  encode_stripe matrix required size blob offset count =
      map (λ row. combine row (stripe_data required size blob offset count) count) matrix

  unfoldable pub encode_parts : List A → ℕ → ℕ → (ℕ → Bool) → Result (List (List A))
  encode_parts blob required total signal = do
    matrix ← generator required total
    guard (fits_split (length blob) required) too_small
    let size : ℕ = part_size (length blob) required
    stripes (suc size) 0 size signal (encode_stripe matrix required size blob) (replicate total [])

  abbrev pub good_part : ℕ → ℕ → Part A → Bool
  good_part total size part = ltb part.index total && (length part.blob == size)

  unfoldable pub parts_fit : List (Part A) → ℕ → ℕ → ℕ → Bool
  parts_fit parts required total size =
      fits_split size required
      && (length parts == required)
      && (set_size (map (λ part. part.index) parts) == required)
      && every (good_part total (part_size size required)) parts

  unfoldable pub decode_stripe : List (List A) → List (Part A) → ℕ → ℕ → List (List A)
  decode_stripe decoding parts offset count =
      let data_parts : List (List A) =
        map (λ part. slice offset (offset + count) part.blob) parts in
      map (λ row. combine row data_parts count) decoding

  unfoldable pub decode_parts : List (Part A) → ℕ → ℕ → ℕ → (ℕ → Bool) → Result (List A)
  decode_parts parts required total size signal = do
    matrix ← generator required total
    guard (parts_fit parts required total size) wrong_parts
    decoding ← invert (map (λ part. row_of part.index matrix) parts)
    output ←
        stripes (suc (part_size size required)) 0 (part_size size required) signal
          (decode_stripe decoding parts) (replicate required [])
    ok (take size (concat output))
