-- ===== src/Core/Erasure/Vectors.antt =====
-- Rows as linear maps: the product of a row and a vector, and what the steps of the elimination do to it
-- (src/core/erasure.ts).
use wildbloom.Prelude.{
  ℕ, zero, suc, ◌<◌, ◌≡◌, ◌≢◌, refl, sym, ◌∙◌, ap, ap₂, true, false, ◌==◌, arith,
}
use wildbloom.Prelude.{List, [], ◌∷◌, ◌++◌, length, get_or, if◌then◌else◌}
use wildbloom.Core.Field.{Field, ◌⊕◌, ◌⊗◌, add-zero, mul-zero, add-mul, add_interchange}
use wildbloom.Core.Erasure.{unit_entry, scale, add_multiple}

module _ {ℓ} {A : Type ℓ} ⦃f : Field A⦄ where
  unfoldable pub dot : List A → List A → A
  dot [] z = f.zero
  dot (x ∷ xs) [] = f.zero
  dot (x ∷ xs) (z ∷ zs) = x ⊗ z ⊕ dot xs zs

  pub dot-nil : (xs : List A) → dot xs [] ≡ f.zero
  unfolding dot
  dot-nil [] = refl
  dot-nil (x ∷ xs) = refl

  pub dot-append :
      (a b x y : List A) → length a ≡ length x → dot (a ++ b) (x ++ y) ≡ dot a x ⊕ dot b y
  unfolding dot
  dot-append [] b [] y h = sym (f.zero-add (dot b y))
  dot-append [] b (z ∷ x) y h = absurd (omega arith)
  dot-append (c ∷ a) b [] y h = absurd (omega arith)
  dot-append (c ∷ a) b (z ∷ x) y h =
      ap (λ t. c ⊗ z ⊕ t) (dot-append a b x y (omega arith))
      ∙ sym (f.add_assoc (c ⊗ z) (dot a x) (dot b y))

  pub dot-scale : (k : A) (row z : List A) → dot (scale k row) z ≡ k ⊗ dot row z
  unfolding dot scale
  dot-scale k [] z = sym (mul-zero k)
  dot-scale k (x ∷ row) [] = sym (mul-zero k)
  dot-scale k (x ∷ row) (y ∷ z) =
      ap₂ (λ s t. s ⊕ t) (ap (λ s. s ⊗ y) (f.mul_comm x k) ∙ f.mul_assoc k x y) (dot-scale k row z)
      ∙ sym (f.mul-add k (x ⊗ y) (dot row z))

  pub dot-add_multiple :
      (k : A) (ws xs z : List A)
      → length ws ≡ length xs
      → dot (add_multiple k ws xs) z ≡ dot ws z ⊕ k ⊗ dot xs z
  unfolding dot add_multiple
  dot-add_multiple k [] [] z h = sym (f.zero-add (k ⊗ f.zero) ∙ mul-zero k)
  dot-add_multiple k [] (x ∷ xs) z h = absurd (omega arith)
  dot-add_multiple k (w ∷ ws) [] z h = absurd (omega arith)
  dot-add_multiple k (w ∷ ws) (x ∷ xs) [] h = sym (f.zero-add (k ⊗ f.zero) ∙ mul-zero k)
  dot-add_multiple k (w ∷ ws) (x ∷ xs) (y ∷ z) h =
      ap₂ (λ s t. s ⊕ t) (add-mul w (k ⊗ x) y ∙ ap (λ s. w ⊗ y ⊕ s) (f.mul_assoc k x y))
        (dot-add_multiple k ws xs z (omega arith))
      ∙ add_interchange (w ⊗ y) (k ⊗ (x ⊗ y)) (dot ws z) (k ⊗ dot xs z)
      ∙ ap (λ s. (w ⊗ y ⊕ dot ws z) ⊕ s) (sym (f.mul-add k (x ⊗ y) (dot xs z)))

  unfoldable pub sum : ℕ → (ℕ → A) → A
  sum zero g = f.zero
  sum (suc n) g = g 0 ⊕ sum n (λ i. g (suc i))

  pub sum_ext : (n : ℕ) (g h : ℕ → A) → ((i : ℕ) → i < n → g i ≡ h i) → sum n g ≡ sum n h
  unfolding sum
  sum_ext zero g h e = refl
  sum_ext (suc n) g h e =
      ap₂ (λ s t. s ⊕ t) (e 0 (omega arith))
        (sum_ext n (λ i. g (suc i)) (λ i. h (suc i)) (λ i p. e (suc i) (omega arith)))

  pub sum-add : (n : ℕ) (g h : ℕ → A) → sum n (λ i. g i ⊕ h i) ≡ sum n g ⊕ sum n h
  unfolding sum
  sum-add zero g h = sym (f.zero-add f.zero)
  sum-add (suc n) g h =
      ap (λ t. (g 0 ⊕ h 0) ⊕ t) (sum-add n (λ i. g (suc i)) (λ i. h (suc i)))
      ∙ add_interchange (g 0) (h 0) (sum n (λ i. g (suc i))) (sum n (λ i. h (suc i)))

  pub sum-zero : (n : ℕ) (g : ℕ → A) → ((i : ℕ) → i < n → g i ≡ f.zero) → sum n g ≡ f.zero
  unfolding sum
  sum-zero zero g e = refl
  sum-zero (suc n) g e =
      ap₂ (λ s t. s ⊕ t) (e 0 (omega arith))
        (sum-zero n (λ i. g (suc i)) (λ i p. e (suc i) (omega arith)))
      ∙ f.zero-add f.zero

  pub unit_same : (i c : ℕ) → i ≡ c → unit_entry i c ≡ f.one
  unit_same i c h = ap (λ b. if b then f.one else f.zero) (same_is_eq i c h)
    where
      same_is_eq : (i c : ℕ) → i ≡ c → (i == c) ≡ true
      same_is_eq i c h = ground arith

  pub unit_other : (i c : ℕ) → i ≢ c → unit_entry i c ≡ f.zero
  unit_other i c h = ap (λ b. if b then f.one else f.zero) (other_not_eq i c h)
    where
      other_not_eq : (i c : ℕ) → i ≢ c → (i == c) ≡ false
      other_not_eq i c h = ground arith

  unit_suc : (i c : ℕ) → ◌≡◌ {A = A} (unit_entry (suc i) (suc c)) (unit_entry i c)
  unit_suc i c = ap (λ b. if b then f.one else f.zero) (eq_suc i c)
    where
      eq_suc : (i c : ℕ) → (suc i == suc c) ≡ (i == c)
      eq_suc i c = ground arith

  -- A row of the identity picks a value.
  pub sum-unit : (n i : ℕ) (g : ℕ → A) → i < n → sum n (λ c. unit_entry i c ⊗ g c) ≡ g i
  unfolding sum
  sum-unit zero i g h = absurd (omega arith)
  sum-unit (suc n) zero g h =
      ap₂ (λ s t. s ⊕ t) (ap (λ s. s ⊗ g 0) (unit_same 0 0 refl) ∙ f.one-mul (g 0))
        (sum-zero n (λ c. unit_entry 0 (suc c) ⊗ g (suc c))
          (λ c p.
            ap (λ s. s ⊗ g (suc c)) (unit_other 0 (suc c) (omega arith)) ∙ f.zero-mul (g (suc c))))
      ∙ add-zero (g 0)
  sum-unit (suc n) (suc i) g h =
      ap₂ (λ s t. s ⊕ t) (ap (λ s. s ⊗ g 0) (unit_other (suc i) 0 (omega arith)) ∙ f.zero-mul (g 0))
        (sum_ext n (λ c. unit_entry (suc i) (suc c) ⊗ g (suc c)) (λ c. unit_entry i c ⊗ g (suc c))
            (λ c p. ap (λ s. s ⊗ g (suc c)) (unit_suc i c))
          ∙ sum-unit n i (λ c. g (suc c)) (omega arith))
      ∙ f.zero-add (g (suc i))

  pub dot-sum :
      (n : ℕ) (row x : List A)
      → length x ≡ n
      → dot row x ≡ sum n (λ c. get_or f.zero c row ⊗ get_or f.zero c x)
  unfolding dot sum
  dot-sum zero row [] h = dot-nil row
  dot-sum zero row (z ∷ x) h = absurd (omega arith)
  dot-sum (suc n) row [] h = absurd (omega arith)
  dot-sum (suc n) [] (z ∷ x) h =
      sym (sum-zero (suc n) (λ c. f.zero ⊗ get_or f.zero c (z ∷ x)) (λ c p. f.zero-mul _))
  dot-sum (suc n) (a ∷ row) (z ∷ x) h = ap (λ t. a ⊗ z ⊕ t) (dot-sum n row x (omega arith))

  pub sum-mul : (n : ℕ) (k : A) (g : ℕ → A) → sum n (λ c. k ⊗ g c) ≡ k ⊗ sum n g
  unfolding sum
  sum-mul zero k g = sym (mul-zero k)
  sum-mul (suc n) k g =
      ap (λ t. k ⊗ g 0 ⊕ t) (sum-mul n k (λ c. g (suc c)))
      ∙ sym (f.mul-add k (g 0) (sum n (λ c. g (suc c))))
