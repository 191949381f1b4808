-- ===== src/Core/Erasure/Systems.antt =====
-- Systems of equations (src/core/erasure.ts): a matrix as a map of vectors, and the rows that the elimination
-- starts from.
use native.Mathlib.Nat.{zero-add}
use wildbloom.Prelude.{ℕ, ◌+◌, ◌<◌, ◌≡◌, ◌↔◌, inl, inr, sym, ◌∙◌, ap, ap₂, arith}
use wildbloom.Prelude.{
  List, [], ◌++◌, append-nil, map, length, get_or, tabulate, below_or_above, length-append,
  length-tabulate, length-map, length-map_from, get-tabulate, get-map, get-map_from, eq_by_get,
}
use wildbloom.Core.Field.{Field, ◌⊕◌, ◌⊗◌, add-zero, eq_of_add, add_of_eq}
use wildbloom.Core.Erasure.{row_of, unit_entry, augment}
use wildbloom.Core.Erasure.Vectors.{dot, dot-nil, dot-append, dot-sum, sum_ext, sum-unit}
use wildbloom.Core.Erasure.Elimination.{Shape, Kernel, Cleared, missing_row}

module _ {ℓ} {A : Type ℓ} ⦃f : Field A⦄ where
  -- `n` rows of `n` entries.
  pub record Square (n : ℕ) (matrix : List (List A)) : Type ℓ where
    pub row_count : length matrix ≡ n
    pub row_length : (i : ℕ) → i < n → length (row_of i matrix) ≡ n

  -- A matrix and a vector.
  unfoldable pub times_vector : List (List A) → List A → List A
  times_vector matrix x = map (λ row. dot row x) matrix

  pub length-times_vector :
      (matrix : List (List A)) (x : List A) → length (times_vector matrix x) ≡ length matrix
  unfolding times_vector
  length-times_vector matrix x = length-map (λ row. dot row x) matrix

  pub get-times_vector :
      (matrix : List (List A)) (x : List A) (i : ℕ)
      → i < length matrix
      → get_or f.zero i (times_vector matrix x) ≡ dot (row_of i matrix) x
  unfolding times_vector
  get-times_vector matrix x i h = get-map [] f.zero (λ row. dot row x) i matrix h

  pub times_vector_by_row :
      (n : ℕ) (matrix : List (List A)) (x y : List A)
      → length matrix ≡ n
      → length y ≡ n
      → (times_vector matrix x ≡ y)
        ↔ ((i : ℕ) → i < n → dot (row_of i matrix) x ≡ get_or f.zero i y)
  times_vector_by_row n matrix x y h k = (
    λ e i p. sym (get-times_vector matrix x i (omega arith)) ∙ ap (get_or f.zero i) e,
    λ rows.
        eq_by_get f.zero (times_vector matrix x) y (length-times_vector matrix x ∙ h ∙ sym k)
          (λ i p.
            get-times_vector matrix x i (omega (arith, length-times_vector matrix x))
            ∙ rows i (omega (arith, length-times_vector matrix x))),
  )

  module _ (n : ℕ) (matrix : List (List A)) (square : Square n matrix) where
    pub row-augment :
        (i : ℕ) → i < n → row_of i (augment matrix) ≡ row_of i matrix ++ tabulate n (unit_entry i)
    unfolding augment
    row-augment i h =
        get-map_from [] [] 0 _ i matrix (omega (arith, square.row_count))
        ∙ ap₂ (λ k j. row_of i matrix ++ tabulate k (unit_entry j)) square.row_count (zero-add i)

    pub length-augment : length (augment matrix) ≡ n
    unfolding augment
    length-augment = length-map_from 0 _ matrix ∙ square.row_count

    pub augment-Shape : Shape n (augment matrix)
    augment-Shape = record { row_count = length-augment; row_length = lengths }
      where
        lengths : (i : ℕ) → i < n → length (row_of i (augment matrix)) ≡ n + n
        lengths i h =
            ap length (row-augment i h)
            ∙ length-append (row_of i matrix) (tabulate n (unit_entry i))
            ∙ ap₂ (λ j k. j + k) (square.row_length i h) (length-tabulate 0 n (unit_entry i))

    pub augment-Cleared : Cleared n 0 (augment matrix)
    augment-Cleared i c h k = absurd (omega arith)

    -- A row of the identity picks an entry.
    pub dot-unit :
        (i : ℕ) (y : List A)
        → i < n
        → length y ≡ n
        → dot (tabulate n (unit_entry i)) y ≡ get_or f.zero i y
    dot-unit i y h k =
        dot-sum n (tabulate n (unit_entry i)) y k
        ∙ sum_ext n _ _ (λ c p.
          ap (λ t. t ⊗ get_or f.zero c y)
            (get-tabulate f.zero 0 n c (unit_entry i) p ∙ ap (unit_entry i) (zero-add c)))
        ∙ sum-unit n i (λ c. get_or f.zero c y) h

    pub dot-augment :
        (i : ℕ) (x y : List A)
        → i < n
        → length x ≡ n
        → length y ≡ n
        → dot (row_of i (augment matrix)) (x ++ y) ≡ dot (row_of i matrix) x ⊕ get_or f.zero i y
    dot-augment i x y h len_x len_y =
        ap (λ r. dot r (x ++ y)) (row-augment i h)
        ∙ dot-append (row_of i matrix) (tabulate n (unit_entry i)) x y
            (square.row_length i h ∙ sym len_x)
        ∙ ap (λ t. dot (row_of i matrix) x ⊕ t) (dot-unit i y h len_y)

    pub dot-augment_left :
        (i : ℕ) (x : List A)
        → i < n
        → length x ≡ n
        → dot (row_of i (augment matrix)) x ≡ dot (row_of i matrix) x
    dot-augment_left i x h len_x =
        ap₂ dot (row-augment i h) (sym (append-nil x))
        ∙ dot-append (row_of i matrix) (tabulate n (unit_entry i)) x []
            (square.row_length i h ∙ sym len_x)
        ∙ ap (λ t. dot (row_of i matrix) x ⊕ t) (dot-nil (tabulate n (unit_entry i)))
        ∙ add-zero (dot (row_of i matrix) x)

    -- With the wanted values behind it, a vector is sent to zero where it solves the equations.
    pub augment-Kernel :
        (x y : List A)
        → length x ≡ n
        → length y ≡ n
        → Kernel (augment matrix) (x ++ y) ↔ (times_vector matrix x ≡ y)
    augment-Kernel x y len_x len_y = (
      λ k.
          (times_vector_by_row n matrix x y square.row_count len_y).1
            (λ i h. eq_of_add _ _ (sym (dot-augment i x y h len_x len_y) ∙ k i)),
      λ e i. elim (below_or_above i n) [
        | inl h ↦
            dot-augment i x y h len_x len_y
            ∙ add_of_eq _ _ ((times_vector_by_row n matrix x y square.row_count len_y).0 e i h)
        | inr h ↦ missing_row i (augment matrix) (x ++ y) (omega (arith, length-augment))
      ],
    )
