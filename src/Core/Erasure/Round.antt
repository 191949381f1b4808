-- ===== src/Core/Erasure/Round.antt =====
-- A round of the elimination (src/core/erasure.ts): it keeps the shape of the working rows and the vectors
-- that they send to zero, and it clears its column.
use wildbloom.Prelude.{
  ℕ, suc, ◌+◌, ◌≤◌, ◌<◌, ◌≡◌, ◌≢◌, ◌↔◌, inl, inr, sym, ◌∙◌, ap, ap₂, List, [], length, get_or,
  set_at, arith,
}
use wildbloom.Prelude.{
  below_or_above, same_or_not, length-set, length-map_from, get-set_same, get-set_other,
}
use wildbloom.Core.Field.{Field, ◌⊕◌, ◌⊗◌, add-zero, mul-zero, mul-one, mul-ne-zero}
use wildbloom.Core.Erasure.{row_of, entry, unit_entry, swap, scale, add_multiple, eliminate, reduce}
use wildbloom.Core.Erasure.Vectors.{dot, dot-scale, dot-add_multiple, unit_same, unit_other}
use wildbloom.Core.Erasure.Elimination.{
  Shape, Kernel, Cleared, get-scale, get-add_multiple, length-add_multiple, length-scale,
  row-swap_col, row-swap_pivot, row-swap_other, length-swap, rows_swapped, rows_unswapped,
  row-eliminate_col, row-eliminate_other, missing_row,
}

module _ {ℓ} {A : Type ℓ} ⦃f : Field A⦄ (n col p : ℕ) (work : List (List A)) (shape : Shape n work)
    (col_fits : col < n) (below : col ≤ p) (p_fits : p < n)
    (pivot : entry p col work ≢ f.zero) where
  abbrev swapped : List (List A)
  swapped = swap col p work

  abbrev factor : A
  factor = f.inverse (entry col col swapped)

  abbrev pivot_row : List A
  pivot_row = scale factor (row_of col swapped)

  col_in : col < length work
  col_in = omega (arith, shape.row_count)

  p_in : p < length work
  p_in = omega (arith, shape.row_count)

  swapped_count : length swapped ≡ n
  swapped_count = length-swap col p work ∙ shape.row_count

  pivot_entry : entry col col swapped ≢ f.zero
  pivot_entry z = pivot (ap (get_or f.zero col) (sym (row-swap_col col p work col_in p_in)) ∙ z)

  factor-pivot : factor ⊗ entry col col swapped ≡ f.one
  factor-pivot = f.inverse-mul (entry col col swapped) pivot_entry

  factor-ne-zero : factor ≢ f.zero
  factor-ne-zero z =
      f.one-ne-zero (sym factor-pivot ∙ ap (λ t. t ⊗ entry col col swapped) z ∙ f.zero-mul _)

  row-reduce_col : row_of col (reduce col p work) ≡ pivot_row
  unfolding reduce
  row-reduce_col =
      row-eliminate_col col pivot_row (set_at col pivot_row swapped)
        (omega (arith, length-set col pivot_row swapped, swapped_count))
      ∙ get-set_same [] col pivot_row swapped (omega (arith, swapped_count))

  row-reduce_other :
      (i : ℕ)
      → i < n
      → i ≢ col
      → row_of i (reduce col p work)
        ≡ add_multiple (entry i col swapped) (row_of i swapped) pivot_row
  unfolding reduce
  row-reduce_other i h m =
      row-eliminate_other col i pivot_row (set_at col pivot_row swapped)
        (omega (arith, length-set col pivot_row swapped, swapped_count)) m
      ∙ ap (λ r. add_multiple (get_or f.zero col r) r pivot_row)
          (get-set_other [] col i pivot_row swapped (λ e. m (sym e)))

  length-reduce : length (reduce col p work) ≡ n
  unfolding reduce eliminate
  length-reduce =
      length-map_from 0 _ (set_at col pivot_row swapped)
      ∙ length-set col pivot_row swapped
      ∙ swapped_count

  length-swapped : (i : ℕ) → i < n → length (row_of i swapped) ≡ n + n
  length-swapped i h = elim (same_or_not p i) [
    | inl e ↦
        ap length (ap (λ j. row_of j swapped) (sym e) ∙ row-swap_pivot col p work p_in)
        ∙ shape.row_length col col_fits
    | inr m ↦ elim (same_or_not col i) [
      | inl e ↦
          ap length (ap (λ j. row_of j swapped) (sym e) ∙ row-swap_col col p work col_in p_in)
          ∙ shape.row_length p p_fits
      | inr k ↦ ap length (row-swap_other col p i work k m) ∙ shape.row_length i h
    ]
  ]

  length-pivot_row : length pivot_row ≡ n + n
  length-pivot_row = length-scale factor (row_of col swapped) ∙ length-swapped col col_fits

  same_length : (i : ℕ) → i < n → length (row_of i swapped) ≡ length pivot_row
  same_length i h = length-swapped i h ∙ sym length-pivot_row

  pub reduce-Shape : Shape n (reduce col p work)
  reduce-Shape = record { row_count = length-reduce; row_length = lengths }
    where
      lengths : (i : ℕ) → i < n → length (row_of i (reduce col p work)) ≡ n + n
      lengths i h = elim (same_or_not i col) [
        | inl e ↦
            ap length (ap (λ j. row_of j (reduce col p work)) e ∙ row-reduce_col) ∙ length-pivot_row
        | inr m ↦
            ap length (row-reduce_other i h m)
            ∙ length-add_multiple (entry i col swapped) (row_of i swapped) pivot_row
            ∙ length-swapped i h
      ]

  -- The product with the row of the pivot, and with the others.
  dot-reduce_col :
      (z : List A) → dot (row_of col (reduce col p work)) z ≡ factor ⊗ dot (row_of col swapped) z
  dot-reduce_col z = ap (λ r. dot r z) row-reduce_col ∙ dot-scale factor (row_of col swapped) z

  dot-reduce_other :
      (i : ℕ) (z : List A)
      → i < n
      → i ≢ col
      → dot (row_of i (reduce col p work)) z
        ≡ dot (row_of i swapped) z ⊕ entry i col swapped ⊗ (factor ⊗ dot (row_of col swapped) z)
  dot-reduce_other i z h m =
      ap (λ r. dot r z) (row-reduce_other i h m)
      ∙ dot-add_multiple (entry i col swapped) (row_of i swapped) pivot_row z (same_length i h)
      ∙ ap (λ t. dot (row_of i swapped) z ⊕ entry i col swapped ⊗ t)
          (dot-scale factor (row_of col swapped) z)

  -- A multiple of zero adds nothing.
  add_nothing : (a k d : A) → d ≡ f.zero → a ⊕ k ⊗ (factor ⊗ d) ≡ a
  add_nothing a k d e =
      ap (λ t. a ⊕ k ⊗ (factor ⊗ t)) e
      ∙ ap (λ t. a ⊕ k ⊗ t) (mul-zero factor)
      ∙ ap (λ t. a ⊕ t) (mul-zero k)
      ∙ add-zero a

  Kernel-forth : (z : List A) → Kernel swapped z → Kernel (reduce col p work) z
  Kernel-forth z k i = elim (same_or_not i col) [
    | inl e ↦
        ap (λ j. dot (row_of j (reduce col p work)) z) e
        ∙ dot-reduce_col z
        ∙ ap (λ t. factor ⊗ t) (k col)
        ∙ mul-zero factor
    | inr m ↦ elim (below_or_above i n) [
      | inl h ↦ dot-reduce_other i z h m ∙ add_nothing _ _ _ (k col) ∙ k i
      | inr h ↦ missing_row i (reduce col p work) z (omega (arith, length-reduce))
    ]
  ]

  Kernel-back : (z : List A) → Kernel (reduce col p work) z → Kernel swapped z
  Kernel-back z k i =
      let pivot_zero : dot (row_of col swapped) z ≡ f.zero =
        mul-ne-zero factor (dot (row_of col swapped) z) factor-ne-zero
          (sym (dot-reduce_col z) ∙ k col) in
      elim (same_or_not i col) [
        | inl e ↦ ap (λ j. dot (row_of j swapped) z) e ∙ pivot_zero
        | inr m ↦ elim (below_or_above i n) [
          | inl h ↦ sym (add_nothing _ _ _ pivot_zero) ∙ sym (dot-reduce_other i z h m) ∙ k i
          | inr h ↦ missing_row i swapped z (omega (arith, swapped_count))
        ]
      ]

  pub reduce-Kernel : (z : List A) → Kernel work z ↔ Kernel (reduce col p work) z
  reduce-Kernel z = (
    λ k. Kernel-forth z (rows_swapped (λ r. dot r z ≡ f.zero) col p work col_in p_in k),
    λ k. rows_unswapped (λ r. dot r z ≡ f.zero) col p work col_in p_in (Kernel-back z k),
  )

  module _ (cleared : Cleared n col work) where
    swapped-Cleared : Cleared n col swapped
    swapped-Cleared i c h k = elim (same_or_not p i) [
      | inl e ↦
          ap (get_or f.zero c) (ap (λ j. row_of j swapped) (sym e) ∙ row-swap_pivot col p work p_in)
          ∙ cleared col c col_fits k
          ∙ unit_other col c (omega arith)
          ∙ sym (unit_other i c (omega arith))
      | inr m ↦ elim (same_or_not col i) [
        | inl e ↦
            ap (get_or f.zero c)
              (ap (λ j. row_of j swapped) (sym e) ∙ row-swap_col col p work col_in p_in)
            ∙ cleared p c p_fits k
            ∙ unit_other p c (omega arith)
            ∙ sym (unit_other i c (omega arith))
        | inr d ↦ ap (get_or f.zero c) (row-swap_other col p i work d m) ∙ cleared i c h k
      ]
    ]

    pivot_row_cleared : (c : ℕ) → c ≤ col → get_or f.zero c pivot_row ≡ unit_entry col c
    pivot_row_cleared c h = elim (same_or_not c col) [
      | inl e ↦
          ap (λ j. get_or f.zero j pivot_row) e
          ∙ get-scale factor col (row_of col swapped)
          ∙ factor-pivot
          ∙ sym (unit_same col c (sym e))
      | inr m ↦
          get-scale factor c (row_of col swapped)
          ∙ ap (λ t. factor ⊗ t)
              (swapped-Cleared col c col_fits (omega arith) ∙ unit_other col c (omega arith))
          ∙ mul-zero factor
          ∙ sym (unit_other col c (omega arith))
    ]

    pub reduce-Cleared : Cleared n (suc col) (reduce col p work)
    reduce-Cleared i c h k = elim (same_or_not i col) [
      | inl e ↦
          ap (get_or f.zero c) (ap (λ j. row_of j (reduce col p work)) e ∙ row-reduce_col)
          ∙ pivot_row_cleared c (omega arith)
          ∙ ap (λ j. unit_entry j c) (sym e)
      | inr m ↦
          ap (get_or f.zero c) (row-reduce_other i h m)
          ∙ get-add_multiple (entry i col swapped) c (row_of i swapped) pivot_row (same_length i h)
          ∙ ap (λ t. entry i c swapped ⊕ entry i col swapped ⊗ t)
              (pivot_row_cleared c (omega arith))
          ∙ cleared_entry i c h k m
    ]
      where
        cleared_entry :
            (i c : ℕ)
            → i < n
            → c < suc col
            → i ≢ col
            → entry i c swapped ⊕ entry i col swapped ⊗ unit_entry col c ≡ unit_entry i c
        cleared_entry i c h k m = elim (same_or_not c col) [
          | inl e ↦
              ap₂ (λ s t. s ⊕ entry i col swapped ⊗ t) (ap (λ j. entry i j swapped) e)
                (unit_same col c (sym e))
              ∙ ap (λ t. entry i col swapped ⊕ t) (mul-one (entry i col swapped))
              ∙ f.add_self (entry i col swapped)
              ∙ sym (unit_other i c (omega arith))
          | inr d ↦
              ap₂ (λ s t. s ⊕ entry i col swapped ⊗ t) (swapped-Cleared i c h (omega arith))
                (unit_other col c (omega arith))
              ∙ ap (λ t. unit_entry i c ⊕ t) (mul-zero (entry i col swapped))
              ∙ add-zero (unit_entry i c)
        ]
