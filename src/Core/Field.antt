-- ===== src/Core/Field.antt =====
-- A field in which every element is its own opposite, as the coding of parts uses it (src/core/erasure.ts):
-- `^` both adds and subtracts.
use wildbloom.Prelude.{ℕ, ◌≡◌, ◌≢◌, ◌↔◌, ◌<◌, sym, ◌∙◌, ap, Bool, true}

pub record Field {ℓ} (A : Type ℓ) : Type ℓ where
  pub add : A → A → A
  pub zero : A
  pub is_zero : A → Bool
  pub mul : A → A → A
  pub inverse : A → A
  pub one : A
  pub element : ℕ → A  -- a number below 256
  pub add_self : (x : A) → add x x ≡ zero
  pub zero-add : (x : A) → add zero x ≡ x
  pub add_comm : (x y : A) → add x y ≡ add y x
  pub add_assoc : (x y z : A) → add (add x y) z ≡ add x (add y z)
  pub one-ne-zero : one ≢ zero
  pub inverse-mul : (x : A) → x ≢ zero → mul (inverse x) x ≡ one
  pub one-mul : (x : A) → mul one x ≡ x
  pub zero-mul : (x : A) → mul zero x ≡ zero
  pub mul_comm : (x y : A) → mul x y ≡ mul y x
  pub mul_assoc : (x y z : A) → mul (mul x y) z ≡ mul x (mul y z)
  pub mul-add : (x y z : A) → mul x (add y z) ≡ add (mul x y) (mul x z)
  pub is_zero_iff : (x : A) → (is_zero x ≡ true) ↔ (x ≡ zero)
  pub element_inj : (m n : ℕ) → m < 256 → n < 256 → element m ≡ element n → m ≡ n

module _ {ℓ} {A : Type ℓ} ⦃f : Field A⦄ where
  infixl 70 ◌⊗◌
  abbrev pub ◌⊗◌ : A → A → A
  x ⊗ y = f.mul x y

  infixl 65 ◌⊕◌
  abbrev pub ◌⊕◌ : A → A → A
  x ⊕ y = f.add x y

  pub add-zero : (a : A) → a ⊕ f.zero ≡ a
  add-zero a = f.add_comm a f.zero ∙ f.zero-add a

  pub mul-zero : (a : A) → a ⊗ f.zero ≡ f.zero
  mul-zero a = f.mul_comm a f.zero ∙ f.zero-mul a

  pub mul-one : (a : A) → a ⊗ f.one ≡ a
  mul-one a = f.mul_comm a f.one ∙ f.one-mul a

  pub add-mul : (a b c : A) → (a ⊕ b) ⊗ c ≡ a ⊗ c ⊕ b ⊗ c
  add-mul a b c = rw (f.mul_comm (a ⊕ b) c, f.mul_comm a c, f.mul_comm b c) (f.mul-add c a b)

  -- What is added twice is gone.
  pub add-add_self : (a b : A) → a ⊕ b ⊕ b ≡ a
  add-add_self a b = f.add_assoc a b b ∙ ap (λ x. a ⊕ x) (f.add_self b) ∙ add-zero a

  pub eq_of_add : (a b : A) → a ⊕ b ≡ f.zero → a ≡ b
  eq_of_add a b h = sym (add-add_self a b) ∙ ap (λ x. x ⊕ b) h ∙ f.zero-add b

  pub add_of_eq : (a b : A) → a ≡ b → a ⊕ b ≡ f.zero
  add_of_eq a b h = ap (λ x. x ⊕ b) h ∙ f.add_self b

  pub add_interchange : (a b c d : A) → (a ⊕ b) ⊕ (c ⊕ d) ≡ (a ⊕ c) ⊕ (b ⊕ d)
  add_interchange a b c d =
      f.add_assoc a b (c ⊕ d)
      ∙ ap (λ x. a ⊕ x)
          (sym (f.add_assoc b c d) ∙ ap (λ x. x ⊕ d) (f.add_comm b c) ∙ f.add_assoc c b d)
      ∙ sym (f.add_assoc a c (b ⊕ d))

  -- A product is zero only if a factor is.
  pub mul-ne-zero : (a b : A) → a ≢ f.zero → a ⊗ b ≡ f.zero → b ≡ f.zero
  mul-ne-zero a b n h =
      sym (f.one-mul b)
      ∙ ap (λ x. x ⊗ b) (sym (f.inverse-mul a n))
      ∙ f.mul_assoc (f.inverse a) a b
      ∙ ap (λ x. f.inverse a ⊗ x) h
      ∙ mul-zero (f.inverse a)
