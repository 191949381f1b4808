-- ===== src/Core/Erasure/Indices.antt =====
-- Indices that are all different (src/core/erasure.ts): what `new Set(...).size` says of them.
use wildbloom.Prelude.{
  ℕ, zero, suc, ◌≤◌, ◌<◌, ◌+◌, ◌≡◌, ◌≢◌, inl, inr, refl, sym, ◌∙◌, ap, false, arith, ◌==◌, List, [],
  ◌∷◌, length, map, All, Bool-cases, if◌then◌else◌, get_or, tabulate_from,
}
use wildbloom.Prelude.Text.{some_of}
use wildbloom.Core.Field.{Field}
use wildbloom.Core.Erasure.Parts.{set_size}
use wildbloom.Core.Erasure.Roots.{Distinct, DifferFrom}

abbrev pub AllBelow : ℕ → List ℕ → Type 0
AllBelow n is = All (λ i. i < n) is

abbrev pub Unique : List ℕ → Type 0
Unique [] = Unit
Unique (i ∷ is) = All (λ j. j ≢ i) is × Unique is

absent : (i : ℕ) (is : List ℕ) → some_of (λ j. i == j) is ≡ false → All (λ j. j ≢ i) is
absent i [] h = tt
absent i (j ∷ is) h = ((ground arith), absent i is (ground arith))

absent_from : (i : ℕ) (is : List ℕ) → All (λ j. j ≢ i) is → some_of (λ j. i == j) is ≡ false
absent_from i [] h = refl
absent_from i (j ∷ is) h =
    let rest : some_of (λ j. i == j) is ≡ false = absent_from i is h.1 in
    let n : j ≢ i = h.0 in ground arith

set_size_le : (is : List ℕ) → set_size is ≤ length is
unfolding set_size
set_size_le [] = omega arith
set_size_le (i ∷ is) = let rest : set_size is ≤ length is = set_size_le is in ground arith

pub Unique-set_size : (is : List ℕ) → Unique is → set_size is ≡ length is
unfolding set_size
Unique-set_size [] u = refl
Unique-set_size (i ∷ is) u =
    ap (λ b. if b then set_size is else suc (set_size is)) (absent_from i is u.0)
    ∙ ap suc (Unique-set_size is u.1)

pub set_size-Unique : (is : List ℕ) → set_size is ≡ length is → Unique is
unfolding set_size
set_size-Unique [] h = tt
set_size-Unique (i ∷ is) h =
    let le : set_size is ≤ length is = set_size_le is in
    elim (Bool-cases (some_of (λ j. i == j) is)) [
      | inl e ↦
          let k : set_size is ≡ suc (length is) =
            sym (ap (λ b. if b then set_size is else suc (set_size is)) e) ∙ h in
          absurd (omega arith)
      | inr e ↦
          let k : suc (set_size is) ≡ suc (length is) =
            sym (ap (λ b. if b then set_size is else suc (set_size is)) e) ∙ h in
          (absent i is e, set_size-Unique is (omega arith))
    ]

pub get_below : (n i : ℕ) (is : List ℕ) → AllBelow n is → i < length is → get_or 0 i is < n
get_below n i [] b h = absurd (omega arith)
get_below n zero (j ∷ is) b h = b.0
get_below n (suc i) (j ∷ is) b h = get_below n i is b.1 (omega arith)

pub AllBelow-le : (m n : ℕ) (is : List ℕ) → m ≤ n → AllBelow m is → AllBelow n is
AllBelow-le m n [] h b = tt
AllBelow-le m n (j ∷ is) h b = (omega (arith, b.0), AllBelow-le m n is h b.1)

-- The indices from one on.
abbrev pub upward : ℕ → ℕ → List ℕ
upward i m = tabulate_from i m (λ j. j)

pub upward_below : (n i m : ℕ) → i + m ≤ n → AllBelow n (upward i m)
upward_below n i zero h = tt
upward_below n i (suc m) h = (omega arith, upward_below n (suc i) m (omega arith))

upward_apart : (k i m : ℕ) → k < i → All (λ j. j ≢ k) (upward i m)
upward_apart k i zero h = tt
upward_apart k i (suc m) h = (omega arith, upward_apart k (suc i) m (omega arith))

pub upward-Unique : (i m : ℕ) → Unique (upward i m)
upward-Unique i zero = tt
upward-Unique i (suc m) = (upward_apart i (suc i) m (omega arith), upward-Unique (suc i) m)

module _ {ℓ} (A : Type ℓ) ⦃f : Field A⦄ where
  elements_differ :
      (i : ℕ) (is : List ℕ)
      → i < 256
      → AllBelow 256 is
      → All (λ j. j ≢ i) is
      → DifferFrom (f.element i) (map f.element is)
  elements_differ i [] h b n = tt
  elements_differ i (j ∷ is) h b n =
      (λ e. n.0 (f.element_inj j i b.0 h e), elements_differ i is h b.1 n.1)

  pub elements_Distinct : (is : List ℕ) → AllBelow 256 is → Unique is → Distinct (map f.element is)
  elements_Distinct [] b u = tt
  elements_Distinct (i ∷ is) b u = (elements_differ i is b.0 b.1 u.0, elements_Distinct is b.1 u.1)
