-- ===== src/Core/Erasure/Missing.antt =====
-- The vector that every row sends to zero where the elimination finds no row (src/core/erasure.ts).
use wildbloom.Prelude.{ℕ, ◌≤◌, ◌<◌, ◌≡◌, ◌≢◌, inl, inr, refl, sym, ◌∙◌, ap, ap₂, false, none, arith}
use wildbloom.Prelude.{
  List, get_or, tabulate, ltb, if◌then◌else◌, below_or_above, same_or_not, lt→ltb, length-tabulate,
  get-tabulate,
}
use wildbloom.Core.Field.{Field, ◌⊕◌, ◌⊗◌, add-zero, mul-zero}
use wildbloom.Core.Erasure.{row_of, entry, unit_entry, find_pivot}
use wildbloom.Core.Erasure.Vectors.{
  dot, sum, dot-sum, sum_ext, sum-add, sum-zero, sum-unit, unit_same, unit_other,
}
use wildbloom.Core.Erasure.Elimination.{Shape, Kernel, Cleared, missing_row}
use wildbloom.Core.Erasure.Pivots.{find_pivot-none}

module _ {ℓ} {A : Type ℓ} ⦃f : Field A⦄ where
  -- Where no row is found, the entries of the column give a vector that every row sends to zero.
  module _ (n col : ℕ) (work : List (List A)) (shape : Shape n work) (cleared : Cleared n col work)
      (col_fits : col < n) (missing : find_pivot col 0 work ≡ none) where
    abbrev pub witness_at : ℕ → A
    witness_at c = if ltb c col then entry c col work else unit_entry col c

    abbrev pub witness : List A
    witness = tabulate n witness_at

    below_zero : (i : ℕ) → col ≤ i → entry i col work ≡ f.zero
    below_zero i h = find_pivot-none col 0 i work missing (omega arith)

    witness_above : (c : ℕ) → c < col → witness_at c ≡ entry c col work
    witness_above c h = ap (λ b. if b then entry c col work else unit_entry col c) (lt→ltb c col h)

    not_ltb : (c : ℕ) → col ≤ c → ltb c col ≡ false
    not_ltb c h = ground arith

    witness_below : (c : ℕ) → col ≤ c → witness_at c ≡ unit_entry col c
    witness_below c h = ap (λ b. if b then entry c col work else unit_entry col c) (not_ltb c h)

    pub witness-ne-zero : get_or f.zero col witness ≢ f.zero
    witness-ne-zero z = f.one-ne-zero (
        sym (unit_same col col refl)
        ∙ sym (witness_below col (omega arith))
        ∙ ap witness_at (omega arith)
        ∙ sym (get-tabulate f.zero 0 n col witness_at col_fits)
        ∙ z)

    -- A row above the column: its entry of the column comes once from the identity, once from the vector.
    term_above :
        (i c : ℕ)
        → i < col
        → entry i c work ⊗ witness_at c
          ≡ unit_entry i c ⊗ witness_at c ⊕ unit_entry col c ⊗ entry i col work
    term_above i c h = elim (below_or_above c col) [
      | inl k ↦ sym (
          ap₂ (λ s t. s ⊗ witness_at c ⊕ t) (sym (cleared i c (omega arith) k))
            (ap (λ t. t ⊗ entry i col work) (unit_other col c (omega arith))
              ∙ f.zero-mul (entry i col work))
          ∙ add-zero (entry i c work ⊗ witness_at c))
      | inr k ↦
          ap (λ t. entry i c work ⊗ t) (witness_below c k)
          ∙ crossed i c k
          ∙ sym (
              ap (λ s. s ⊕ unit_entry col c ⊗ entry i col work)
                (ap (λ s. s ⊗ witness_at c) (unit_other i c (omega arith))
                  ∙ f.zero-mul (witness_at c))
              ∙ f.zero-add (unit_entry col c ⊗ entry i col work))
    ]
      where
        crossed :
            (i c : ℕ)
            → col ≤ c
            → entry i c work ⊗ unit_entry col c ≡ unit_entry col c ⊗ entry i col work
        crossed i c k = elim (same_or_not col c) [
          | inl e ↦
              f.mul_comm (entry i c work) (unit_entry col c)
              ∙ ap (λ j. unit_entry col c ⊗ entry i j work) (sym e)
          | inr m ↦
              ap (λ t. entry i c work ⊗ t) (unit_other col c m)
              ∙ mul-zero (entry i c work)
              ∙ sym (f.zero-mul (entry i col work))
              ∙ ap (λ t. t ⊗ entry i col work) (sym (unit_other col c m))
        ]

    term_below : (i c : ℕ) → i < n → col ≤ i → entry i c work ⊗ witness_at c ≡ f.zero
    term_below i c h le = elim (below_or_above c col) [
      | inl k ↦
          ap (λ t. t ⊗ witness_at c) (cleared i c h k ∙ unit_other i c (omega arith))
          ∙ f.zero-mul (witness_at c)
      | inr k ↦ elim (same_or_not col c) [
        | inl e ↦
            ap (λ t. t ⊗ witness_at c) (ap (λ j. entry i j work) (sym e) ∙ below_zero i le)
            ∙ f.zero-mul (witness_at c)
        | inr m ↦
            ap (λ t. entry i c work ⊗ t) (witness_below c k ∙ unit_other col c m)
            ∙ mul-zero (entry i c work)
      ]
    ]

    row_sum : (i : ℕ) → dot (row_of i work) witness ≡ sum n (λ c. entry i c work ⊗ witness_at c)
    row_sum i =
        dot-sum n (row_of i work) witness (length-tabulate 0 n witness_at)
        ∙ sum_ext n _ _ (λ c k.
          ap (λ t. entry i c work ⊗ t)
            (get-tabulate f.zero 0 n c witness_at k ∙ ap witness_at (omega arith)))

    sum_above : (i : ℕ) → i < col → sum n (λ c. entry i c work ⊗ witness_at c) ≡ f.zero
    sum_above i h =
        sum_ext n _ _ (λ c k. term_above i c h)
        ∙ sum-add n (λ c. unit_entry i c ⊗ witness_at c) (λ c. unit_entry col c ⊗ entry i col work)
        ∙ ap₂ (λ s t. s ⊕ t) (sum-unit n i witness_at (omega arith) ∙ witness_above i h)
            (sum-unit n col (λ c. entry i col work) col_fits)
        ∙ f.add_self (entry i col work)

    pub witness-Kernel : Kernel work witness
    witness-Kernel i = elim (below_or_above i n) [
      | inl h ↦ row_sum i ∙ elim (below_or_above i col) [
        | inl k ↦ sum_above i k
        | inr k ↦ sum-zero n _ (λ c _. term_below i c h k)
      ]
      | inr h ↦ missing_row i work witness (omega (arith, shape.row_count))
    ]
