-- ===== src/Core/Erasure/Elimination.antt =====
-- The rows after each step of a round of the elimination (src/core/erasure.ts).
use wildbloom.Prelude.{
  ℕ, zero, suc, ◌+◌, ◌≤◌, ◌<◌, ◌≡◌, ◌≢◌, inl, inr, refl, sym, ◌∙◌, ap, subst, arith,
}
use wildbloom.Prelude.{
  List, [], ◌∷◌, length, get_or, set_at, if◌then◌else◌, same_or_not, ==_true, ==_false,
}
use wildbloom.Prelude.{
  length-set, length-map, get-set_same, get-set_other, get-map_from, get_outside,
}
use wildbloom.Core.Field.{Field, ◌⊕◌, ◌⊗◌, mul-zero}
use wildbloom.Core.Erasure.{row_of, entry, unit_entry, swap, scale, add_multiple, eliminate}
use wildbloom.Core.Erasure.Vectors.{dot}

module _ {ℓ} {A : Type ℓ} ⦃f : Field A⦄ where
  -- `n` rows of `2 n` entries.
  pub record Shape (n : ℕ) (work : List (List A)) : Type ℓ where
    pub row_count : length work ≡ n
    pub row_length : (i : ℕ) → i < n → length (row_of i work) ≡ n + n

  abbrev pub Kernel : List (List A) → List A → Type ℓ
  Kernel work z = (i : ℕ) → dot (row_of i work) z ≡ f.zero

  -- The columns before `col` are those of the identity.
  abbrev pub Cleared : ℕ → ℕ → List (List A) → Type ℓ
  Cleared n col work = (i c : ℕ) → i < n → c < col → entry i c work ≡ unit_entry i c

  pub missing_row :
      (i : ℕ) (w : List (List A)) (z : List A) → length w ≤ i → dot (row_of i w) z ≡ f.zero
  unfolding dot
  missing_row i w z h = ap (λ r. dot r z) (get_outside [] i w h)

  pub get-scale :
      (k : A) (c : ℕ) (row : List A) → get_or f.zero c (scale k row) ≡ k ⊗ get_or f.zero c row
  unfolding scale
  get-scale k c [] = sym (mul-zero k)
  get-scale k zero (x ∷ row) = f.mul_comm x k
  get-scale k (suc c) (x ∷ row) = get-scale k c row

  pub get-add_multiple :
      (k : A) (c : ℕ) (ws xs : List A)
      → length ws ≡ length xs
      → get_or f.zero c (add_multiple k ws xs) ≡ get_or f.zero c ws ⊕ k ⊗ get_or f.zero c xs
  unfolding add_multiple
  get-add_multiple k c [] [] h = sym (f.zero-add (k ⊗ f.zero) ∙ mul-zero k)
  get-add_multiple k c [] (x ∷ xs) h = absurd (omega arith)
  get-add_multiple k c (w ∷ ws) [] h = absurd (omega arith)
  get-add_multiple k zero (w ∷ ws) (x ∷ xs) h = refl
  get-add_multiple k (suc c) (w ∷ ws) (x ∷ xs) h = get-add_multiple k c ws xs (omega arith)

  pub length-add_multiple : (k : A) (ws xs : List A) → length (add_multiple k ws xs) ≡ length ws
  unfolding add_multiple
  length-add_multiple k [] xs = refl
  length-add_multiple k (w ∷ ws) [] = refl
  length-add_multiple k (w ∷ ws) (x ∷ xs) = ap suc (length-add_multiple k ws xs)

  pub length-scale : (k : A) (row : List A) → length (scale k row) ≡ length row
  unfolding scale
  length-scale k row = length-map (λ x. x ⊗ k) row

  -- The rows after the exchange.
  pub row-swap_pivot :
      (col p : ℕ) (work : List (List A))
      → p < length work
      → row_of p (swap col p work) ≡ row_of col work
  unfolding swap
  row-swap_pivot col p work k =
      get-set_same [] p (row_of col work) (set_at col (row_of p work) work)
        (omega (arith, length-set col (row_of p work) work))

  pub row-swap_col :
      (col p : ℕ) (work : List (List A))
      → col < length work
      → p < length work
      → row_of col (swap col p work) ≡ row_of p work
  unfolding swap
  row-swap_col col p work h k = elim (same_or_not p col) [
    | inl e ↦
        ap (λ j. row_of j (swap col p work)) (sym e)
        ∙ row-swap_pivot col p work k
        ∙ ap (λ j. row_of j work) (sym e)
    | inr n ↦
        get-set_other [] p col (row_of col work) (set_at col (row_of p work) work) n
        ∙ get-set_same [] col (row_of p work) work h
  ]

  pub row-swap_other :
      (col p i : ℕ) (work : List (List A))
      → col ≢ i
      → p ≢ i
      → row_of i (swap col p work) ≡ row_of i work
  unfolding swap
  row-swap_other col p i work m n =
      get-set_other [] p i (row_of col work) (set_at col (row_of p work) work) n
      ∙ get-set_other [] col i (row_of p work) work m

  pub length-swap : (col p : ℕ) (work : List (List A)) → length (swap col p work) ≡ length work
  unfolding swap
  length-swap col p work =
      length-set p (row_of col work) (set_at col (row_of p work) work)
      ∙ length-set col (row_of p work) work

  -- What holds of every row holds of every row after the exchange, and the other way round.
  module _ {κ} (P : List A → Type κ) (col p : ℕ) (work : List (List A)) (h : col < length work)
      (k : p < length work) where
    pub rows_swapped : ((i : ℕ) → P (row_of i work)) → (i : ℕ) → P (row_of i (swap col p work))
    rows_swapped all i = elim (same_or_not p i) [
      | inl e ↦
          subst P (sym (row-swap_pivot col p work k) ∙ ap (λ j. row_of j (swap col p work)) e)
            (all col)
      | inr n ↦ elim (same_or_not col i) [
        | inl e ↦
            subst P (sym (row-swap_col col p work h k) ∙ ap (λ j. row_of j (swap col p work)) e)
              (all p)
        | inr m ↦ subst P (sym (row-swap_other col p i work m n)) (all i)
      ]
    ]

    pub rows_unswapped : ((i : ℕ) → P (row_of i (swap col p work))) → (i : ℕ) → P (row_of i work)
    rows_unswapped all i = elim (same_or_not p i) [
      | inl e ↦ subst P (row-swap_col col p work h k ∙ ap (λ j. row_of j work) e) (all col)
      | inr n ↦ elim (same_or_not col i) [
        | inl e ↦ subst P (row-swap_pivot col p work k ∙ ap (λ j. row_of j work) e) (all p)
        | inr m ↦ subst P (row-swap_other col p i work m n) (all i)
      ]
    ]

  -- The other rows of a round, whose own row of the pivot is already scaled.
  pub row-eliminate_col :
      (col : ℕ) (row : List A) (work : List (List A))
      → col < length work
      → row_of col (eliminate col row work) ≡ row_of col work
  unfolding eliminate
  row-eliminate_col col row work h =
      get-map_from [] [] 0 _ col work h
      ∙ ap
          (λ b.
            if b then row_of col work else add_multiple (entry col col work) (row_of col work) row)
          (==_true (0 + col) col (omega arith))

  pub row-eliminate_other :
      (col i : ℕ) (row : List A) (work : List (List A))
      → i < length work
      → i ≢ col
      → row_of i (eliminate col row work) ≡ add_multiple (entry i col work) (row_of i work) row
  unfolding eliminate
  row-eliminate_other col i row work h n =
      get-map_from [] [] 0 _ i work h
      ∙ ap (λ b. if b then row_of i work else add_multiple (entry i col work) (row_of i work) row)
          (==_false (0 + i) col (omega arith))
