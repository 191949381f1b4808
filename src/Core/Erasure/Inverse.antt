-- ===== src/Core/Erasure/Inverse.antt =====
-- What `invert` gives (src/core/erasure.ts): the matrix that solves the equations of the one it is given.
use native.Mathlib.Nat.{zero-add}
use wildbloom.Prelude.{ℕ, ◌<◌, ◌≡◌, ◌↔◌, inl, inr, sym, ◌∙◌, ap, ap₂, subst, arith}
use wildbloom.Prelude.{
  List, [], ◌++◌, map, length, take, drop, get_or, below_or_above, length-take, length-drop,
  take-append-drop, length-map, get-map, get-take,
}
use wildbloom.Core.Field.{Field, ◌⊕◌, ◌⊗◌, eq_of_add, add_of_eq}
use wildbloom.Core.Erasure.{ok, row_of, augment, columns, invert, ◌>>=◌}
use wildbloom.Core.Erasure.Results.{>>=-eq-ok, ok_inj}
use wildbloom.Core.Erasure.Vectors.{dot, dot-append, dot-sum, sum_ext, sum-unit}
use wildbloom.Core.Erasure.Elimination.{Shape, Kernel, Cleared, missing_row}
use wildbloom.Core.Erasure.Columns.{Solved, columns_sound, columns_total}
use wildbloom.Core.Erasure.Systems.{
  Square, times_vector, times_vector_by_row, augment-Shape, augment-Cleared, dot-augment_left,
  augment-Kernel,
}

module _ {ℓ} {A : Type ℓ} ⦃f : Field A⦄ where
  -- The right half of rows whose left half is the identity.
  module _ (n : ℕ) (w : List (List A)) (shape : Shape n w) (cleared : Cleared n n w) where
    length-right : length (map (drop n) w) ≡ n
    length-right = length-map (drop n) w ∙ shape.row_count

    row-right : (i : ℕ) → i < n → row_of i (map (drop n) w) ≡ drop n (row_of i w)
    row-right i h = get-map [] [] (drop n) i w (omega (arith, shape.row_count))

    right-Square : Square n (map (drop n) w)
    right-Square = record { row_count = length-right; row_length = lengths }
      where
        lengths : (i : ℕ) → i < n → length (row_of i (map (drop n) w)) ≡ n
        lengths i h =
            ap length (row-right i h)
            ∙ omega (arith, length-drop n (row_of i w), shape.row_length i h)

    dot-left :
        (i : ℕ) (x : List A)
        → i < n
        → length x ≡ n
        → dot (take n (row_of i w)) x ≡ get_or f.zero i x
    dot-left i x h len_x =
        dot-sum n (take n (row_of i w)) x len_x
        ∙ sum_ext n _ _ (λ c p.
          ap (λ t. t ⊗ get_or f.zero c x) (get-take f.zero n c (row_of i w) p ∙ cleared i c h p))
        ∙ sum-unit n i (λ c. get_or f.zero c x) h

    dot-both :
        (i : ℕ) (x y : List A)
        → i < n
        → length x ≡ n
        → dot (row_of i w) (x ++ y) ≡ get_or f.zero i x ⊕ dot (row_of i (map (drop n) w)) y
    dot-both i x y h len_x =
        ap (λ r. dot r (x ++ y)) (sym (take-append-drop n (row_of i w)))
        ∙ dot-append (take n (row_of i w)) (drop n (row_of i w)) x y
            (omega (arith, length-take n (row_of i w), shape.row_length i h))
        ∙ ap₂ (λ s t. s ⊕ t) (dot-left i x h len_x) (ap (λ r. dot r y) (sym (row-right i h)))

    right-Kernel :
        (x y : List A)
        → length x ≡ n
        → length y ≡ n
        → Kernel w (x ++ y) ↔ (times_vector (map (drop n) w) y ≡ x)
    right-Kernel x y len_x len_y = (
      λ k.
          (times_vector_by_row n (map (drop n) w) y x length-right len_x).1
            (λ i h. sym (eq_of_add _ _ (sym (dot-both i x y h len_x) ∙ k i))),
      λ e i. elim (below_or_above i n) [
        | inl h ↦
            dot-both i x y h len_x
            ∙ add_of_eq _ _
                (sym ((times_vector_by_row n (map (drop n) w) y x length-right len_x).0 e i h))
        | inr h ↦ missing_row i w (x ++ y) (omega (arith, shape.row_count))
      ],
    )

  -- The equations of a matrix and of its inverse have the same solutions.
  pub record Inverse (n : ℕ) (matrix inverse : List (List A)) : Type ℓ where
    pub inverse_square : Square n inverse
    pub solves :
        (x y : List A)
        → length x ≡ n
        → length y ≡ n
        → (times_vector matrix x ≡ y) ↔ (times_vector inverse y ≡ x)

  -- No vector but zero is sent to zero.
  abbrev pub Injective : ℕ → List (List A) → Type ℓ
  Injective n matrix =
      (x : List A)
      → length x ≡ n
      → ((i : ℕ) → i < n → dot (row_of i matrix) x ≡ f.zero)
      → (c : ℕ) → get_or f.zero c x ≡ f.zero

  invert_by_size :
      (n : ℕ) (matrix : List (List A))
      → length matrix ≡ n
      → invert matrix ≡ (columns n 0 (augment matrix) >>= λ work. ok (map (drop n) work))
  unfolding invert
  invert_by_size n matrix h =
      ap (λ k. columns k 0 (augment matrix) >>= λ work. ok (map (drop k) work)) h

  invert_sound :
      (n : ℕ) (matrix inverse : List (List A))
      → Square n matrix
      → invert matrix ≡ ok inverse
      → Inverse n matrix inverse
  invert_sound n matrix inverse square h =
      let (w, solved, same) =
        >>=-eq-ok (columns n 0 (augment matrix)) _
          (sym (invert_by_size n matrix square.row_count) ∙ h) in
      let (shape, cleared, kernel) : Solved n (augment matrix) w =
        columns_sound n n 0 (augment matrix) w (augment-Shape n matrix square)
          (augment-Cleared n matrix square) (zero-add n) solved in
      subst (Inverse n matrix) (ok_inj _ inverse same) (record {
        inverse_square = right-Square n w shape cleared;
        solves = λ x y len_x len_y. (
          λ e.
              (right-Kernel n w shape cleared x y len_x len_y).0
                ((kernel (x ++ y)).0 ((augment-Kernel n matrix square x y len_x len_y).1 e)),
          λ e.
              (augment-Kernel n matrix square x y len_x len_y).0
                ((kernel (x ++ y)).1 ((right-Kernel n w shape cleared x y len_x len_y).1 e)),
        );
      })

  invert_total :
      (n : ℕ) (matrix : List (List A))
      → Square n matrix
      → Injective n matrix
      → (inverse : List (List A)) × (invert matrix ≡ ok inverse)
  invert_total n matrix square only =
      let (w, done) : (w : List (List A)) × (columns n 0 (augment matrix) ≡ ok w) =
        columns_total n n 0 (augment matrix) (augment-Shape n matrix square)
          (augment-Cleared n matrix square) (zero-add n)
          (λ x len_x k.
            only x len_x (λ i h. sym (dot-augment_left n matrix square i x h len_x) ∙ k i)) in
      (
        map (drop n) w,
        invert_by_size n matrix square.row_count
            ∙ ap (λ r. r >>= λ work. ok (map (drop n) work)) done,
      )

  -- A square matrix that sends only zero to zero is inverted, and the equations of the result have the same
  -- solutions as its own.
  pub invert_reached :
      (n : ℕ) (matrix : List (List A))
      → Square n matrix
      → Injective n matrix
      → (inverse : List (List A)) × (invert matrix ≡ ok inverse) × Inverse n matrix inverse
  invert_reached n matrix square only =
      let (inverse, done) : (inverse : List (List A)) × (invert matrix ≡ ok inverse) =
        invert_total n matrix square only in
      (inverse, done, invert_sound n matrix inverse square done)
