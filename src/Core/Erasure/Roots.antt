-- ===== src/Core/Erasure/Roots.antt =====
-- Why the rows of powers are independent (src/core/erasure.ts): such a row is the value of a polynomial, and
-- one that vanishes at as many points as it has coefficients has none.
use wildbloom.Prelude.{
  ℕ, zero, suc, ◌≤◌, ◌≡◌, ◌≢◌, refl, sym, ◌∙◌, ap, ap₂, arith, List, [], ◌∷◌, length, All,
}
use wildbloom.Core.Field.{
  Field, ◌⊕◌, ◌⊗◌, add-zero, mul-zero, add-mul, add-add_self, eq_of_add, mul-ne-zero,
}
use wildbloom.Core.Erasure.{powers}
use wildbloom.Core.Erasure.Vectors.{dot, dot-nil}

module _ {ℓ} {A : Type ℓ} ⦃f : Field A⦄ where
  -- The value at `t` of the polynomial with these coefficients, the constant first.
  unfoldable pub horner : List A → A → A
  horner [] t = f.zero
  horner (c ∷ cs) t = c ⊕ t ⊗ horner cs t

  pub dot-powers :
      (n : ℕ) (last x : A) (cs : List A)
      → length cs ≤ n
      → dot (powers n last x) cs ≡ (last ⊗ x) ⊗ horner cs x
  unfolding dot powers horner
  dot-powers n last x [] h = dot-nil (powers n last x) ∙ sym (mul-zero (last ⊗ x))
  dot-powers zero last x (c ∷ cs) h = absurd (omega arith)
  dot-powers (suc n) last x (c ∷ cs) h =
      ap (λ t. (last ⊗ x) ⊗ c ⊕ t)
        (dot-powers n (last ⊗ x) x cs (omega arith) ∙ f.mul_assoc (last ⊗ x) x (horner cs x))
      ∙ sym (f.mul-add (last ⊗ x) c (x ⊗ horner cs x))

  pub length-powers : (n : ℕ) (last x : A) → length (powers n last x) ≡ n
  unfolding powers
  length-powers zero last x = refl
  length-powers (suc n) last x = ap suc (length-powers n (last ⊗ x) x)

  -- The quotient by `t - a` of the polynomial with these coefficients behind its constant.
  unfoldable quotient : A → List A → List A
  quotient a [] = []
  quotient a (c ∷ cs) = horner (c ∷ cs) a ∷ quotient a cs

  length-quotient : (a : A) (cs : List A) → length (quotient a cs) ≡ length cs
  unfolding quotient
  length-quotient a [] = refl
  length-quotient a (c ∷ cs) = ap suc (length-quotient a cs)

  -- t ⊗ ((t ⊕ a) ⊗ q ⊕ v) is t ⊗ (t ⊕ a) ⊗ q, (t ⊕ a) ⊗ v and a ⊗ v together.
  regroup : (t a q v : A) → t ⊗ ((t ⊕ a) ⊗ q ⊕ v) ≡ (t ⊕ a) ⊗ (v ⊕ t ⊗ q) ⊕ a ⊗ v
  regroup t a q v =
      f.mul-add t ((t ⊕ a) ⊗ q) v
      ∙ ap₂ (λ r s. r ⊕ s) (swap_factors t (t ⊕ a) q) split
      ∙ sym (f.add_assoc ((t ⊕ a) ⊗ (t ⊗ q)) ((t ⊕ a) ⊗ v) (a ⊗ v))
      ∙ ap (λ s. s ⊕ a ⊗ v)
          (f.add_comm ((t ⊕ a) ⊗ (t ⊗ q)) ((t ⊕ a) ⊗ v) ∙ sym (f.mul-add (t ⊕ a) v (t ⊗ q)))
    where
      swap_factors : (x y z : A) → x ⊗ (y ⊗ z) ≡ y ⊗ (x ⊗ z)
      swap_factors x y z =
          sym (f.mul_assoc x y z) ∙ ap (λ s. s ⊗ z) (f.mul_comm x y) ∙ f.mul_assoc y x z

      split : t ⊗ v ≡ (t ⊕ a) ⊗ v ⊕ a ⊗ v
      split = sym (add-add_self (t ⊗ v) (a ⊗ v)) ∙ ap (λ s. s ⊕ a ⊗ v) (sym (add-mul t a v))

  -- Division with remainder.
  horner-quotient :
      (c : A) (cs : List A) (a t : A)
      → horner (c ∷ cs) t ≡ (t ⊕ a) ⊗ horner (quotient a cs) t ⊕ horner (c ∷ cs) a
  unfolding horner quotient
  horner-quotient c [] a t =
      ap (λ s. c ⊕ s) (mul-zero t ∙ sym (mul-zero a))
      ∙ sym (f.zero-add (c ⊕ a ⊗ f.zero))
      ∙ ap (λ s. s ⊕ (c ⊕ a ⊗ f.zero)) (sym (mul-zero (t ⊕ a)))
  horner-quotient c (d ∷ ds) a t =
      let q : A = horner (quotient a ds) t in
      let v : A = horner (d ∷ ds) a in
      ap (λ s. c ⊕ t ⊗ s) (horner-quotient d ds a t)
      ∙ ap (λ s. c ⊕ s) (regroup t a q v)
      ∙ sym (f.add_assoc c ((t ⊕ a) ⊗ (v ⊕ t ⊗ q)) (a ⊗ v))
      ∙ ap (λ s. s ⊕ a ⊗ v) (f.add_comm c ((t ⊕ a) ⊗ (v ⊕ t ⊗ q)))
      ∙ f.add_assoc ((t ⊕ a) ⊗ (v ⊕ t ⊗ q)) c (a ⊗ v)

  abbrev pub AllZero : List A → Type ℓ
  AllZero cs = All (λ c. c ≡ f.zero) cs

  horner-AllZero : (cs : List A) (t : A) → AllZero cs → horner cs t ≡ f.zero
  unfolding horner
  horner-AllZero [] t z = refl
  horner-AllZero (c ∷ cs) t z =
      ap₂ (λ r s. r ⊕ t ⊗ s) z.0 (horner-AllZero cs t z.1) ∙ f.zero-add (t ⊗ f.zero) ∙ mul-zero t

  constant_zero :
      (c : A) (cs : List A) (a : A) → AllZero cs → horner (c ∷ cs) a ≡ f.zero → c ≡ f.zero
  unfolding horner
  constant_zero c cs a z h =
      sym (add-zero c)
      ∙ ap (λ s. c ⊕ s) (sym (mul-zero a) ∙ ap (λ s. a ⊗ s) (sym (horner-AllZero cs a z)))
      ∙ h

  quotient_zero : (a : A) (cs : List A) → AllZero (quotient a cs) → AllZero cs
  unfolding quotient
  quotient_zero a [] z = tt
  quotient_zero a (c ∷ cs) z =
      let rest : AllZero cs = quotient_zero a cs z.1 in (constant_zero c cs a rest z.0, rest)

  abbrev pub DifferFrom : A → List A → Type ℓ
  DifferFrom a ts = All (λ t. t ≢ a) ts

  abbrev pub Distinct : List A → Type ℓ
  Distinct [] = Unit
  Distinct (t ∷ ts) = DifferFrom t ts × Distinct ts

  abbrev pub Vanishes : List A → List A → Type ℓ
  Vanishes cs ts = All (λ t. horner cs t ≡ f.zero) ts

  -- A root of the polynomial is one of the quotient, unless it is the point divided by.
  quotient-Vanishes :
      (c : A) (cs : List A) (a : A) (ts : List A)
      → horner (c ∷ cs) a ≡ f.zero
      → DifferFrom a ts
      → Vanishes (c ∷ cs) ts
      → Vanishes (quotient a cs) ts
  quotient-Vanishes c cs a [] h n v = tt
  quotient-Vanishes c cs a (t ∷ ts) h n v = (
    mul-ne-zero (t ⊕ a) (horner (quotient a cs) t) (λ z. n.0 (eq_of_add t a z))
        (sym (add-zero _)
          ∙ ap (λ s. (t ⊕ a) ⊗ horner (quotient a cs) t ⊕ s) (sym h)
          ∙ sym (horner-quotient c cs a t)
          ∙ v.0),
    quotient-Vanishes c cs a ts h n.1 v.1,
  )

  pub roots_zero :
      (cs ts : List A) → length cs ≡ length ts → Distinct ts → Vanishes cs ts → AllZero cs
  roots_zero [] ts h d v = tt
  roots_zero (c ∷ cs) [] h d v = absurd (omega arith)
  roots_zero (c ∷ cs) (a ∷ ts) h d v =
      let behind : AllZero cs = quotient_zero a cs (
        roots_zero (quotient a cs) ts (omega (arith, length-quotient a cs)) d.1
          (quotient-Vanishes c cs a ts v.0 d.0 v.1)) in
      (constant_zero c cs a behind v.0, behind)
