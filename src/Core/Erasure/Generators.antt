-- ===== src/Core/Erasure/Generators.antt =====
-- The generator of the code (src/core/erasure.ts): it exists within the bounds, its first rows give the
-- payload back, and so do any `required` different rows of it once they are inverted.
use native.Mathlib.Nat.{zero-add}
use wildbloom.Prelude.{
  ℕ, zero, suc, ◌≤◌, ◌<◌, ◌≡◌, refl, sym, ◌∙◌, ap, ap₂, true, arith, List, [], ◌∷◌, length, map,
  take, get_or,
}
use wildbloom.Prelude.{
  length-tabulate, get-tabulate, length-map, get-map, get-take, length-take, below_or_above, inl,
  inr, get_outside,
}
use wildbloom.Core.Field.{Field, ◌⊕◌, ◌⊗◌, mul-zero}
use wildbloom.Core.Erasure.{
  ok, ◌>>=◌, ◌>>◌, bad_bounds, in_bounds, coding_bounds, row_of, vandermonde_row, vandermonde,
  invert, product_row, generator,
}
use wildbloom.Core.Erasure.Results.{guard-true}
use wildbloom.Core.Erasure.Vectors.{dot}
use wildbloom.Core.Erasure.Inverse.{Inverse, Injective, invert_reached}
use wildbloom.Core.Erasure.Systems.{Square, times_vector, length-times_vector, times_vector_by_row}
use wildbloom.Core.Erasure.Roots.{horner, Vanishes, AllZero, roots_zero}
use wildbloom.Core.Erasure.Products.{
  dot-product_row, length-product_row, length-vandermonde_row, dot-vandermonde_row,
}
use wildbloom.Core.Erasure.Indices.{
  AllBelow, AllBelow-le, get_below, Unique, upward, upward_below, upward-Unique, elements_Distinct,
}

pub in_bounds_parts :
    (required total : ℕ)
    → in_bounds required total ≡ true
    → (2 ≤ required) × (required < total) × (total ≤ 16)
in_bounds_parts required total h = ground arith

module _ {ℓ} {A : Type ℓ} ⦃f : Field A⦄ where
  get-AllZero : (x : List A) → AllZero x → (c : ℕ) → get_or f.zero c x ≡ f.zero
  get-AllZero [] z c = refl
  get-AllZero (y ∷ x) z zero = z.0
  get-AllZero (y ∷ x) z (suc c) = get-AllZero x z.1 c

  dot-AllZero : (row x : List A) → AllZero x → dot row x ≡ f.zero
  unfolding dot
  dot-AllZero [] x z = refl
  dot-AllZero (r ∷ row) [] z = refl
  dot-AllZero (r ∷ row) (y ∷ x) z =
      ap₂ (λ s t. s ⊕ t) (ap (λ t. r ⊗ t) z.0 ∙ mul-zero r) (dot-AllZero row x z.1)
      ∙ f.zero-add f.zero

  -- Values at all the points of a list.
  Vanishes-by_index :
      (u : List A) (is : List ℕ)
      → ((i : ℕ) → i < length is → horner u (f.element (get_or 0 i is)) ≡ f.zero)
      → Vanishes u (map f.element is)
  Vanishes-by_index u [] h = tt
  Vanishes-by_index u (j ∷ is) h =
      (h 0 (omega arith), Vanishes-by_index u is (λ i k. h (suc i) (omega arith)))

  -- A polynomial that vanishes at the points of different rows is zero.
  vanishing_zero :
      (n : ℕ) (u : List A) (is : List ℕ)
      → length u ≡ n
      → length is ≡ n
      → AllBelow 256 is
      → Unique is
      → ((i : ℕ) → i < n → horner u (f.element (get_or 0 i is)) ≡ f.zero)
      → AllZero u
  vanishing_zero n u is len_u len_is b d h =
      roots_zero u (map f.element is) (len_u ∙ sym len_is ∙ sym (length-map f.element is))
        (elements_Distinct A is b d) (Vanishes-by_index u is (λ i k. h i (omega arith)))

module _ {ℓ} (A : Type ℓ) ⦃f : Field A⦄ (n total : ℕ) (bounds : in_bounds n total ≡ true) where
  positive : 1 ≤ n
  positive = let (a, b, c) = in_bounds_parts n total bounds in omega arith

  row-vandermonde :
      (r : ℕ) → r < total → ◌≡◌ {A = List A} (row_of r (vandermonde n total)) (vandermonde_row n r)
  unfolding vandermonde
  row-vandermonde r h =
      get-tabulate [] 0 total r (vandermonde_row n) h ∙ ap (vandermonde_row n) (zero-add r)

  length-vandermonde : length {A = List A} (vandermonde n total) ≡ total
  unfolding vandermonde
  length-vandermonde = length-tabulate 0 total (vandermonde_row n)

  abbrev pub top : List (List A)
  top = take n (vandermonde n total)

  length-top : length {A = List A} top ≡ n
  length-top =
      let (a, b, c) = in_bounds_parts n total bounds in
      omega (arith, length-take n (vandermonde {A = A} n total), length-vandermonde)

  row-top : (r : ℕ) → r < n → ◌≡◌ {A = List A} (row_of r top) (vandermonde_row n r)
  row-top r h =
      let (a, b, c) = in_bounds_parts n total bounds in
      get-take [] n r (vandermonde n total) h ∙ row-vandermonde r (omega arith)

  pub top-Square : Square n top
  top-Square = record {
    row_count = length-top;
    row_length = λ i h. ap length (row-top i h) ∙ length-vandermonde_row A n i positive;
  }

  -- The rows at different indices send only zero to zero.
  chosen-Injective :
      (is : List ℕ) (rows : List (List A))
      → length is ≡ n
      → AllBelow total is
      → Unique is
      → ((i : ℕ) → i < n → row_of i rows ≡ vandermonde_row n (get_or 0 i is))
      → Injective n rows
  chosen-Injective is rows len_is b d rows_are x len_x h =
      let (p, q, r) = in_bounds_parts n total bounds in
      get-AllZero x (
        vanishing_zero n x is len_x len_is (AllBelow-le total 256 is (omega arith) b) d (λ i k.
          sym (dot-vandermonde_row n (get_or 0 i is) x positive len_x)
          ∙ ap (λ row. dot row x) (sym (rows_are i k))
          ∙ h i k))

  pub top-Injective : Injective n top
  top-Injective =
      let (p, q, r) = in_bounds_parts n total bounds in
      chosen-Injective (upward 0 n) top (length-tabulate 0 n _)
        (upward_below total 0 n (omega arith)) (upward-Unique 0 n)
        (λ i k.
          row-top i k
          ∙ ap (vandermonde_row n) (sym (zero-add i) ∙ sym (get-tabulate 0 0 n i (λ j. j) k)))

  -- What the generator is: each row takes a payload first to where the top rows give it back.
  pub record Code (inverse matrix : List (List A)) : Type ℓ where
    pub top_inverse : Inverse n top inverse
    pub row_count : length matrix ≡ total
    pub row_length : (r : ℕ) → r < total → length (row_of r matrix) ≡ n
    pub row_value :
        (r : ℕ) (x : List A)
        → r < total
        → length x ≡ n
        → dot (row_of r matrix) x ≡ dot (vandermonde_row n r) (times_vector inverse x)

  pub generator_total :
      (inverse : List (List A)) × (matrix : List (List A)) × (generator n total ≡ ok matrix)
      × Code inverse matrix
  unfolding generator coding_bounds
  generator_total =
      let (inverse, done, solved) = invert_reached n top top-Square top-Injective in
      (
        inverse,
        map (product_row n inverse) (vandermonde n total),
        ap (λ r. r >> (invert top >>= λ t. ok (map (product_row n t) (vandermonde n total))))
              (guard-true (in_bounds n total) bad_bounds bounds)
            ∙ ap (λ r. r >>= λ t. ok (map (product_row n t) (vandermonde n total))) done,
        record {
          top_inverse = solved;
          row_count = length-map (product_row n inverse) (vandermonde n total) ∙ length-vandermonde;
          row_length = λ r h.
              ap length (row_is inverse r h) ∙ length-product_row n inverse (vandermonde_row n r);
          row_value = λ r x h len_x.
              ap (λ row. dot row x) (row_is inverse r h)
              ∙ dot-product_row n inverse (vandermonde_row n r) x len_x;
        },
      )
    where
      row_is :
          (inverse : List (List A)) (r : ℕ)
          → r < total
          → row_of r (map (product_row n inverse) (vandermonde n total))
            ≡ product_row n inverse (vandermonde_row n r)
      row_is inverse r h =
          get-map [] [] (product_row n inverse) r (vandermonde n total)
            (omega (arith, length-vandermonde))
          ∙ ap (product_row n inverse) (row-vandermonde r h)

module _ {ℓ} {A : Type ℓ} ⦃f : Field A⦄ {n total : ℕ} {bounds : in_bounds n total ≡ true}
    {inverse matrix : List (List A)} (code : Code A n total bounds inverse matrix) where
  -- The top rows undo the inverse.
  top_back :
      (x : List A) (r : ℕ)
      → length x ≡ n
      → r < n
      → dot (vandermonde_row n r) (times_vector inverse x) ≡ get_or f.zero r x
  top_back x r len_x h =
      let u : List A = times_vector inverse x in
      let len_u : length u ≡ n =
        length-times_vector inverse x ∙ code.top_inverse.inverse_square.row_count in
      ap (λ row. dot row u) (sym (row-top A n total bounds r h))
      ∙ (times_vector_by_row n (top A n total bounds) u x (length-top A n total bounds) len_x).0
          ((code.top_inverse.solves u x len_u len_x).1 refl) r h

  pub first_rows :
      (x : List A) (r : ℕ) → length x ≡ n → r < n → dot (row_of r matrix) x ≡ get_or f.zero r x
  first_rows x r len_x h =
      let (a, b, c) = in_bounds_parts n total bounds in
      code.row_value r x (omega arith) len_x ∙ top_back x r len_x h

  -- Any `n` rows at different indices can be inverted.
  module _ (is : List ℕ) (len_is : length is ≡ n) (below : AllBelow total is)
      (unique : Unique is) where
    abbrev pub selected : List (List A)
    selected = map (λ i. row_of i matrix) is

    row-selected : (i : ℕ) → i < n → row_of i selected ≡ row_of (get_or 0 i is) matrix
    row-selected i h = get-map 0 [] (λ i. row_of i matrix) i is (omega arith)

    pub selected-Square : Square n selected
    selected-Square = record {
      row_count = length-map (λ i. row_of i matrix) is ∙ len_is;
      row_length = λ i h.
          ap length (row-selected i h)
          ∙ code.row_length (get_or 0 i is) (get_below total i is below (omega arith));
    }

    selected-Injective : Injective n selected
    selected-Injective x len_x h c =
        let (p, q, r) = in_bounds_parts n total bounds in
        let u : List A = times_vector inverse x in
        let len_u : length u ≡ n =
          length-times_vector inverse x ∙ code.top_inverse.inverse_square.row_count in
        let zero_u : AllZero u =
          vanishing_zero n u is len_u len_is (AllBelow-le total 256 is (omega arith) below) unique
            (λ i k.
              sym (dot-vandermonde_row n (get_or 0 i is) u (positive A n total bounds) len_u)
              ∙ sym (
                  code.row_value (get_or 0 i is) x (get_below total i is below (omega arith)) len_x)
              ∙ ap (λ row. dot row x) (sym (row-selected i k))
              ∙ h i k) in
        elim (below_or_above c n) [
          | inl k ↦ sym (top_back x c len_x k) ∙ dot-AllZero (vandermonde_row n c) u zero_u
          | inr k ↦ get_outside f.zero c x (omega arith)
        ]

    pub selected-Inverse :
        (decoding : List (List A)) × (invert selected ≡ ok decoding) × Inverse n selected decoding
    selected-Inverse = invert_reached n selected selected-Square selected-Injective
