-- ===== src/Core/Erasure/Decoding.antt =====
-- What `decodeParts` gives (src/core/erasure.ts), before it is known what the parts hold.
use native.Mathlib.Nat.{zero-add, div-add-mod, mod-lt}
use wildbloom.Prelude.{
  ℕ, zero, suc, ◌+◌, ◌-◌, ◌*◌, ◌≤◌, ◌<◌, ◌≡◌, refl, sym, ◌∙◌, ap, ap₂, Bool, true, arith, List, [],
  ◌∷◌, ◌++◌, length, map, replicate, tabulate, tabulate_from, get_or, take, concat,
}
use wildbloom.Prelude.{
  length-tabulate, get-tabulate, tabulate_append, tabulate_shift, eq_by_get, get-take, length-take,
}
use wildbloom.Core.Field.{Field}
use wildbloom.Core.Erasure.{Result, ok, ◌>>=◌, ◌>>◌, guard, wrong_parts, row_of, invert, generator}
use wildbloom.Core.Erasure.Parts.{
  part_size, slice, Part, stripes, parts_fit, decode_stripe, decode_parts,
}
use wildbloom.Core.Erasure.Vectors.{dot}
use wildbloom.Core.Erasure.Encoding.{combine_stripe, get-slice}
use wildbloom.Core.Erasure.Stripes.{NeverStopped, stripes_written}

module _ {ℓ} {A : Type ℓ} ⦃f : Field A⦄ where
  -- The bytes of the parts at one place.
  unfoldable pub received_at : List (Part A) → ℕ → List A
  received_at parts p = map (λ part. get_or f.zero p part.blob) parts

  received_bytes :
      (parts : List (Part A)) (offset count p : ℕ)
      → p < count
      → map (get_or f.zero p) (map (λ part. slice offset (offset + count) part.blob) parts)
        ≡ received_at parts (offset + p)
  unfolding received_at
  received_bytes [] offset count p h = refl
  received_bytes (part ∷ parts) offset count p h =
      ap₂ ◌∷◌ (get-slice f.zero offset (offset + count) p part.blob (omega arith))
        (received_bytes parts offset count p h)

  decode_steps :
      (decoding : List (List A)) (parts : List (Part A)) (offset count : ℕ)
      → decode_stripe decoding parts offset count
        ≡ map (λ row. tabulate_from offset count (λ p. dot row (received_at parts p))) decoding
  unfolding decode_stripe
  decode_steps decoding parts offset count =
      ap (λ g. map g decoding)
        (λ j row.
          combine_stripe row (map (λ part. slice offset (offset + count) part.blob) parts)
            (received_at parts) offset count (λ p h. received_bytes parts offset count p h) j)

  abbrev pub indexed_rows : List (List A) → List (Part A) → List (List A)
  indexed_rows matrix parts = map (λ part. row_of part.index matrix) parts

  -- Behind the checks and the inversion, only the loop is left.
  pub decode_loop :
      (parts : List (Part A)) (required total size : ℕ) (signal : ℕ → Bool)
      (matrix decoding : List (List A))
      → generator required total ≡ ok matrix
      → parts_fit parts required total size ≡ true
      → invert (indexed_rows matrix parts) ≡ ok decoding
      → decode_parts parts required total size signal ≡ (
          stripes
            (suc (part_size size required))
            0
            (part_size size required)
            signal
            (decode_stripe decoding parts)
            (replicate required [])
          >>= λ output. ok (take size (concat output)))
  unfolding decode_parts
  decode_loop parts required total size signal matrix decoding g fits inv =
      ap
        (λ r. r >>= λ m.
          guard (parts_fit parts required total size) wrong_parts
          >> (invert (indexed_rows m parts) >>= after))
        g
      ∙ ap (λ b. guard b wrong_parts >> (invert (indexed_rows matrix parts) >>= after)) fits
      ∙ ap (λ r. r >>= after) inv
    where
      after : List (List A) → Result (List A)
      after rows =
          stripes (suc (part_size size required)) 0 (part_size size required) signal
            (decode_stripe rows parts) (replicate required [])
          >>= λ output. ok (take size (concat output))

  pub decode_written :
      (parts : List (Part A)) (required total size : ℕ) (signal : ℕ → Bool)
      (matrix decoding : List (List A))
      → generator required total ≡ ok matrix
      → parts_fit parts required total size ≡ true
      → invert (indexed_rows matrix parts) ≡ ok decoding
      → length decoding ≡ required
      → NeverStopped signal (part_size size required)
      → decode_parts parts required total size signal
        ≡ ok (
            take size (
              concat (
                map
                  (λ row. tabulate (part_size size required) (λ p. dot row (received_at parts p)))
                  decoding)))
  decode_written parts required total size signal matrix decoding g fits inv len never =
      let n : ℕ = part_size size required in
      decode_loop parts required total size signal matrix decoding g fits inv
      ∙ ap
          (λ k.
            stripes (suc n) 0 n signal (decode_stripe decoding parts) (replicate k []) >>= λ output.
            ok (take size (concat output)))
          (sym len)
      ∙ ap (λ r. r >>= λ output. ok (take size (concat output)))
          (stripes_written n signal (decode_stripe decoding parts) decoding
            (λ row p. dot row (received_at parts p))
            (λ offset count k. decode_steps decoding parts offset count) never)

-- The pieces of a payload in a row are its bytes.
pub concat-pieces {ℓ} :
    {A : Type ℓ} (g : ℕ → A) (size i n : ℕ)
    → concat (tabulate_from i n (λ j. tabulate size (λ p. g (j * size + p))))
      ≡ tabulate_from (i * size) (n * size) g
concat-pieces g size i zero =
    let e : 0 ≡ 0 * size = omega arith in ap (λ k. tabulate_from (i * size) k g) e
concat-pieces g size i (suc n) =
    ap₂ ◌++◌ (tabulate_shift 0 (i * size) size g ∙ ap (λ k. tabulate_from k size g) (omega arith))
      (concat-pieces g size (suc i) n ∙ ap (λ k. tabulate_from k (n * size) g) (omega arith))
    ∙ tabulate_append (i * size) size (n * size) g
    ∙ ap (λ k. tabulate_from (i * size) k g) (omega arith)

pub take-tabulate {ℓ} :
    {A : Type ℓ} (d : A) (n : ℕ) (blob : List A)
    → length blob ≤ n
    → take (length blob) (tabulate n (λ q. get_or d q blob)) ≡ blob
take-tabulate d n blob h =
    eq_by_get d _ blob
      (omega (
        arith,
        length-take (length blob) (tabulate n (λ q. get_or d q blob)),
        length-tabulate 0 n (λ q. get_or d q blob),
      ))
      (λ k p.
        let fits : k < length blob = omega (
          arith,
          length-take (length blob) (tabulate n (λ q. get_or d q blob)),
          length-tabulate 0 n (λ q. get_or d q blob),
        ) in
        get-take d (length blob) k (tabulate n (λ q. get_or d q blob)) fits
        ∙ get-tabulate d 0 n k (λ q. get_or d q blob) (omega arith)
        ∙ ap (λ j. get_or d j blob) (zero-add k))

-- The pieces hold the payload.
pub part_size_covers : (n required : ℕ) → 1 ≤ required → n ≤ required * part_size n required
unfolding part_size
part_size_covers n required h = omega (
  arith,
  div-add-mod (n + required - 1) required,
  mod-lt (n + required - 1) {m = required} (omega arith),
)
