-- ===== src/Core/Erasure/Fitting.antt =====
-- What a call of decodeParts that gives bytes says of its arguments (src/core/erasure.ts).
use native.Mathlib.Nat.{div-add-mod}
use wildbloom.Prelude.{
  ℕ, ◌+◌, ◌-◌, ◌*◌, ◌/◌, ◌≤◌, ◌<◌, ◌≡◌, sym, ◌∙◌, ap, ap₂, Bool, true, none, some, inl, inr,
  Bool-cases, leb→le, if◌then◌else◌, arith, List, [], ◌∷◌, length, ltb, leb, ==_iff, All,
}
use wildbloom.Prelude.Text.{every, both_hold}
use wildbloom.Core.Field.{Field}
use wildbloom.Core.Erasure.{ok, bad_bounds, wrong_parts, aborted, in_bounds}
use wildbloom.Core.Erasure.Parts.{
  max_safe_integer, part_size, Part, good_part, parts_fit, decode_parts,
}
use wildbloom.Core.Erasure.Results.{err_not_ok}
use wildbloom.Core.Erasure.Indices.{AllBelow, Unique}
use wildbloom.Core.Erasure.Generators.{in_bounds_parts}
use wildbloom.Core.Erasure.Decoding.{part_size_covers}
use wildbloom.Core.Erasure.Stripes.{NeverStopped}
use wildbloom.Core.Erasure.Refusals.{
  indices, count_is, indices-Unique, below_total, decode_refused, decode_stopped,
}

module _ {ℓ} {A : Type ℓ} ⦃f : Field A⦄ where
  -- A part of this length is what a piece of the payload takes, and not a byte more.
  abbrev pub IsPieceLong : ℕ → ℕ → Part A → Type 0
  IsPieceLong required size part =
      (size ≤ required * length part.blob) × (required * length part.blob < size + required)

  pieces_long :
      (required total size : ℕ) (parts : List (Part A))
      → 1 ≤ required
      → every (good_part total (part_size size required)) parts ≡ true
      → All (IsPieceLong required size) parts
  unfolding part_size
  pieces_long required total size [] positive h = tt
  pieces_long required total size (part ∷ parts) positive h =
      let (good, rest) = both_hold (good_part total (part_size size required) part) _ h in
      let (below, long) = both_hold (ltb part.index total) _ good in
      let same : length part.blob ≡ (size + required - 1) / required = (==_iff _ _).0 long in
      let covers = part_size_covers size required positive in
      let parted = div-add-mod (size + required - 1) required in
      (
        (
          omega (arith, covers, ap (λ k. required * k) same),
          omega (arith, parted, positive, ap (λ k. required * k) same),
        ),
        pieces_long required total size parts positive rest,
      )

  size_fits :
      (parts : List (Part A)) (required total size : ℕ)
      → parts_fit parts required total size ≡ true
      → (required ≤ size) × (size ≤ max_safe_integer)
  unfolding parts_fit
  size_fits parts required total size h =
      let (least, most) =
        both_hold (leb size max_safe_integer) _
          (both_hold _ _ (both_hold _ _ (both_hold _ _ h).0).0).0 in
      (leb→le required size most, leb→le size max_safe_integer least)

  all_long :
      (parts : List (Part A)) (required total size : ℕ)
      → 1 ≤ required
      → parts_fit parts required total size ≡ true
      → All (IsPieceLong required size) parts
  unfolding parts_fit
  all_long parts required total size positive h =
      pieces_long required total size parts positive (both_hold _ _ h).1

  -- Wrong parts are never put together: if a call gives bytes, then the bounds are those of the coding, the payload
  -- is long enough for its pieces and not too long, the parts are as many as required, at different indices
  -- below the total, each as long as a piece of the payload, and no look found the signal stopped.
  pub decode_only_fit :
      (parts : List (Part A)) (required total size : ℕ) (signal : ℕ → Bool) (bytes : List A)
      → decode_parts parts required total size signal ≡ ok bytes
      → ((2 ≤ required) × (required < total) × (total ≤ 16))
        × ((required ≤ size) × (size ≤ max_safe_integer))
        × ((length parts ≡ required) × Unique (indices parts) × AllBelow total (indices parts))
        × All (IsPieceLong required size) parts
        × NeverStopped signal (part_size size required)
  decode_only_fit parts required total size signal bytes h =
      let bounds : in_bounds required total ≡ true = elim (Bool-cases (in_bounds required total)) [
        | inl e ↦ e
        | inr e ↦ absurd (
            err_not_ok bad_bounds bytes (
              sym (
                decode_refused parts required total size signal bad_bounds (
                  ap
                    (λ b.
                      if b
                      then (if parts_fit parts required total size then none else some wrong_parts)
                      else some bad_bounds)
                    e))
              ∙ h))
      ] in
      let fits : parts_fit parts required total size ≡ true =
        elim (Bool-cases (parts_fit parts required total size)) [
          | inl e ↦ e
          | inr e ↦ absurd (
              err_not_ok wrong_parts bytes (
                sym (
                  decode_refused parts required total size signal wrong_parts (
                    ap₂
                      (λ b c. if b then (if c then none else some wrong_parts) else some bad_bounds)
                      bounds e))
                ∙ h))
        ] in
      let (a, b, c) = in_bounds_parts required total bounds in
      (
        (a, b, c),
        size_fits parts required total size fits,
        (
          count_is parts required total size bounds fits,
          indices-Unique parts required total size bounds fits,
          below_total parts required total size bounds fits,
        ),
        all_long parts required total size (omega arith) fits,
        λ n seen. elim (Bool-cases (signal n)) [
          | inr e ↦ e
          | inl e ↦ absurd (
              err_not_ok aborted bytes
                (sym (decode_stopped parts required total size signal n bounds fits seen e) ∙ h))
        ],
      )
