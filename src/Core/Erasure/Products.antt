-- ===== src/Core/Erasure/Products.antt =====
-- The product with which the generator's rows are made (src/core/erasure.ts), as a map of vectors.
use native.Mathlib.Nat.{zero-add}
use wildbloom.Prelude.{
  ℕ, suc, ◌-◌, ◌≤◌, ◌≡◌, refl, sym, ◌∙◌, ap, ap₂, arith, List, [], ◌∷◌, length, map, get_or,
}
use wildbloom.Prelude.{length-tabulate, get-tabulate}
use wildbloom.Core.Field.{Field, ◌⊕◌, ◌⊗◌, add-zero, mul-zero, add-mul}
use wildbloom.Core.Erasure.{entry, sum_products, product_row, vandermonde_row}
use wildbloom.Core.Erasure.Vectors.{dot, sum, dot-sum, sum_ext, sum-add, sum-mul, sum-zero}
use wildbloom.Core.Erasure.Systems.{times_vector}
use wildbloom.Core.Erasure.Roots.{horner, dot-powers, length-powers}

module _ {ℓ} {A : Type ℓ} ⦃f : Field A⦄ where
  abbrev column : ℕ → List (List A) → List A
  column c rows = map (get_or f.zero c) rows

  sum_products_behind :
      (s : A) (i : ℕ) (row : List A) (c : ℕ) (r : List A) (rows : List (List A))
      → sum_products s (suc i) row c (r ∷ rows) ≡ sum_products s i row c rows
  unfolding sum_products
  sum_products_behind s i [] c r rows = refl
  sum_products_behind s i (v ∷ row) c r rows =
      sum_products_behind (s ⊕ v ⊗ entry i c rows) (suc i) row c r rows

  sum_products_none : (s : A) (i : ℕ) (row : List A) (c : ℕ) → sum_products s i row c [] ≡ s
  unfolding sum_products
  sum_products_none s i [] c = refl
  sum_products_none s i (v ∷ row) c =
      sum_products_none (s ⊕ v ⊗ f.zero) (suc i) row c ∙ ap (λ t. s ⊕ t) (mul-zero v) ∙ add-zero s

  sum_products-dot :
      (s : A) (row : List A) (c : ℕ) (rows : List (List A))
      → sum_products s 0 row c rows ≡ s ⊕ dot row (column c rows)
  unfolding dot sum_products
  sum_products-dot s [] c rows = sym (add-zero s)
  sum_products-dot s (v ∷ row) c [] = sum_products_none s 0 (v ∷ row) c ∙ sym (add-zero s)
  sum_products-dot s (v ∷ row) c (r ∷ rows) =
      sum_products_behind (s ⊕ v ⊗ get_or f.zero c r) 0 row c r rows
      ∙ sum_products-dot (s ⊕ v ⊗ get_or f.zero c r) row c rows
      ∙ f.add_assoc s (v ⊗ get_or f.zero c r) (dot row (column c rows))

  -- The sums may be exchanged.
  sum-column :
      (n : ℕ) (row : List A) (rows : List (List A)) (x : List A)
      → length x ≡ n
      → sum n (λ c. dot row (column c rows) ⊗ get_or f.zero c x) ≡ dot row (times_vector rows x)
  unfolding dot times_vector
  sum-column n [] rows x h = sum-zero n _ (λ c k. f.zero-mul (get_or f.zero c x))
  sum-column n (v ∷ row) [] x h = sum-zero n _ (λ c k. f.zero-mul (get_or f.zero c x))
  sum-column n (v ∷ row) (r ∷ rows) x h =
      sum_ext n _
        (λ c.
          v ⊗ (get_or f.zero c r ⊗ get_or f.zero c x) ⊕ dot row (column c rows) ⊗ get_or f.zero c x)
        (λ c k.
          add-mul (v ⊗ get_or f.zero c r) (dot row (column c rows)) (get_or f.zero c x)
          ∙ ap (λ t. t ⊕ dot row (column c rows) ⊗ get_or f.zero c x)
              (f.mul_assoc v (get_or f.zero c r) (get_or f.zero c x)))
      ∙ sum-add n (λ c. v ⊗ (get_or f.zero c r ⊗ get_or f.zero c x))
          (λ c. dot row (column c rows) ⊗ get_or f.zero c x)
      ∙ ap₂ (λ s t. s ⊕ t)
          (sum-mul n v (λ c. get_or f.zero c r ⊗ get_or f.zero c x)
            ∙ ap (λ t. v ⊗ t) (sym (dot-sum n r x h)))
          (sum-column n row rows x h)

  pub dot-product_row :
      (n : ℕ) (rows : List (List A)) (row x : List A)
      → length x ≡ n
      → dot (product_row n rows row) x ≡ dot row (times_vector rows x)
  unfolding product_row
  dot-product_row n rows row x h =
      dot-sum n (product_row n rows row) x h
      ∙ sum_ext n _ (λ c. dot row (column c rows) ⊗ get_or f.zero c x)
          (λ c k.
            ap (λ t. t ⊗ get_or f.zero c x)
              (get-tabulate f.zero 0 n c (λ col. sum_products f.zero 0 row col rows) k
                ∙ ap (λ j. sum_products f.zero 0 row j rows) (zero-add c)
                ∙ sum_products-dot f.zero row c rows
                ∙ f.zero-add (dot row (column c rows))))
      ∙ sum-column n row rows x h

  pub length-product_row :
      (n : ℕ) (rows : List (List A)) (row : List A) → length (product_row n rows row) ≡ n
  unfolding product_row
  length-product_row n rows row = length-tabulate 0 n _

  -- A row of powers evaluates a polynomial at the row's own point.
  pub dot-vandermonde_row :
      (n r : ℕ) (x : List A)
      → 1 ≤ n
      → length x ≡ n
      → dot (vandermonde_row n r) x ≡ horner x (f.element r)
  unfolding vandermonde_row dot horner
  dot-vandermonde_row n r [] h k = absurd (omega arith)
  dot-vandermonde_row n r (c ∷ cs) h k =
      ap₂ (λ s t. s ⊕ t) (f.one-mul c)
        (dot-powers (n - 1) f.one (f.element r) cs (omega arith)
          ∙ ap (λ t. t ⊗ horner cs (f.element r)) (f.one-mul (f.element r)))

module _ {ℓ} (A : Type ℓ) ⦃f : Field A⦄ where
  pub length-vandermonde_row : (n r : ℕ) → 1 ≤ n → length {A = A} (vandermonde_row n r) ≡ n
  unfolding vandermonde_row
  length-vandermonde_row n r h = omega (arith, length-powers (n - 1) f.one (f.element r))
