-- ===== src/Core/Erasure/Pieces.antt =====
-- What `combine` gives (src/core/erasure.ts): every byte of a result is the product of the row with the bytes
-- that stand at its place.
use native.Mathlib.Nat.{zero-add}
use wildbloom.Prelude.{
  ℕ, zero, suc, ◌<◌, ◌≡◌, inl, inr, refl, sym, ◌∙◌, ap, arith, List, [], ◌∷◌, length, map,
  replicate, tabulate, get_or, if◌then◌else◌, Bool-cases,
}
use wildbloom.Prelude.{length-tabulate, get-tabulate, eq_by_get}
use wildbloom.Core.Field.{Field, ◌⊕◌, ◌⊗◌, add-zero, mul-zero}
use wildbloom.Core.Erasure.{add_input, combine_onto, combine}
use wildbloom.Core.Erasure.Vectors.{dot, dot-nil}

module _ {ℓ} {A : Type ℓ} ⦃f : Field A⦄ where
  length-add_input :
      (k : A) (input output : List A) → length (add_input k input output) ≡ length output
  unfolding add_input
  length-add_input k input [] = refl
  length-add_input k [] (o ∷ output) = refl
  length-add_input k (b ∷ input) (o ∷ output) = ap suc (length-add_input k input output)

  get-add_input :
      (k : A) (p : ℕ) (input output : List A)
      → p < length output
      → get_or f.zero p (add_input k input output)
        ≡ get_or f.zero p output ⊕ k ⊗ get_or f.zero p input
  unfolding add_input
  get-add_input k p input [] h = absurd (omega arith)
  get-add_input k p [] (o ∷ output) h =
      sym (ap (λ t. get_or f.zero p (o ∷ output) ⊕ t) (mul-zero k) ∙ add-zero _)
  get-add_input k zero (b ∷ input) (o ∷ output) h = refl
  get-add_input k (suc p) (b ∷ input) (o ∷ output) h = get-add_input k p input output (omega arith)

  -- The step of an input, whose coefficient may be zero.
  abbrev after_input : A → List A → List A → List A
  after_input k input output = if f.is_zero k then output else add_input k input output

  length-after_input :
      (k : A) (input output : List A) → length (after_input k input output) ≡ length output
  length-after_input k input output = elim (Bool-cases (f.is_zero k)) [
    | inl e ↦ ap (λ b. length (if b then output else add_input k input output)) e
    | inr e ↦
        ap (λ b. length (if b then output else add_input k input output)) e
        ∙ length-add_input k input output
  ]

  get-after_input :
      (k : A) (p : ℕ) (input output : List A)
      → p < length output
      → get_or f.zero p (after_input k input output)
        ≡ get_or f.zero p output ⊕ k ⊗ get_or f.zero p input
  get-after_input k p input output h = elim (Bool-cases (f.is_zero k)) [
    | inl e ↦
        ap (λ b. get_or f.zero p (if b then output else add_input k input output)) e
        ∙ sym (
            ap (λ t. get_or f.zero p output ⊕ t)
              (ap (λ t. t ⊗ get_or f.zero p input) ((f.is_zero_iff k).0 e)
                ∙ f.zero-mul (get_or f.zero p input))
            ∙ add-zero (get_or f.zero p output))
    | inr e ↦
        ap (λ b. get_or f.zero p (if b then output else add_input k input output)) e
        ∙ get-add_input k p input output h
  ]

  length-combine_onto :
      (cs : List A) (inputs : List (List A)) (output : List A)
      → length (combine_onto cs inputs output) ≡ length output
  unfolding combine_onto
  length-combine_onto cs [] output = refl
  length-combine_onto [] (input ∷ inputs) output = refl
  length-combine_onto (k ∷ cs) (input ∷ inputs) output =
      length-combine_onto cs inputs (after_input k input output) ∙ length-after_input k input output

  get-combine_onto :
      (cs : List A) (inputs : List (List A)) (output : List A) (p : ℕ)
      → p < length output
      → get_or f.zero p (combine_onto cs inputs output)
        ≡ get_or f.zero p output ⊕ dot cs (map (get_or f.zero p) inputs)
  unfolding combine_onto dot
  get-combine_onto cs [] output p h =
      sym (ap (λ t. get_or f.zero p output ⊕ t) (dot-nil cs) ∙ add-zero _)
  get-combine_onto [] (input ∷ inputs) output p h = sym (add-zero _)
  get-combine_onto (k ∷ cs) (input ∷ inputs) output p h =
      get-combine_onto cs inputs (after_input k input output) p
        (omega (arith, length-after_input k input output))
      ∙ ap (λ t. t ⊕ dot cs (map (get_or f.zero p) inputs)) (get-after_input k p input output h)
      ∙ f.add_assoc (get_or f.zero p output) (k ⊗ get_or f.zero p input)
          (dot cs (map (get_or f.zero p) inputs))

  length-replicate : (n : ℕ) (a : A) → length (replicate n a) ≡ n
  length-replicate zero a = refl
  length-replicate (suc n) a = ap suc (length-replicate n a)

  get-replicate : (n p : ℕ) → get_or f.zero p (replicate n f.zero) ≡ f.zero
  get-replicate zero p = refl
  get-replicate (suc n) zero = refl
  get-replicate (suc n) (suc p) = get-replicate n p

  pub combine_values :
      (cs : List A) (inputs : List (List A)) (size : ℕ)
      → combine cs inputs size ≡ tabulate size (λ p. dot cs (map (get_or f.zero p) inputs))
  unfolding combine
  combine_values cs inputs size =
      let len : length (combine_onto cs inputs (replicate size f.zero)) ≡ size =
        length-combine_onto cs inputs (replicate size f.zero) ∙ length-replicate size f.zero in
      eq_by_get f.zero _ _ (len ∙ sym (length-tabulate 0 size _)) (λ p h.
        get-combine_onto cs inputs (replicate size f.zero) p
          (omega (arith, length-replicate size f.zero))
        ∙ ap (λ t. t ⊕ dot cs (map (get_or f.zero p) inputs)) (get-replicate size p)
        ∙ f.zero-add _
        ∙ ap (λ j. dot cs (map (get_or f.zero j) inputs)) (sym (zero-add p))
        ∙ sym (
            get-tabulate f.zero 0 size p (λ p. dot cs (map (get_or f.zero p) inputs))
              (omega arith)))
