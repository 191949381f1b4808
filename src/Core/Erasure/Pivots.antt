-- ===== src/Core/Erasure/Pivots.antt =====
-- The row that the elimination looks for (src/core/erasure.ts).
use wildbloom.Prelude.{
  ℕ, zero, suc, ◌+◌, ◌≤◌, ◌<◌, ◌≡◌, ◌≢◌, inl, inr, refl, sym, ◌∙◌, ap, Bool, true, false, not, ◌&&◌,
  none, some, arith,
}
use wildbloom.Prelude.{
  List, [], ◌∷◌, length, get_or, leb, if◌then◌else◌, Bool-cases, leb→le, le→leb,
}
use wildbloom.Prelude.Text.{both_hold, not_held}
use wildbloom.Core.Field.{Field}
use wildbloom.Core.Erasure.{entry, find_pivot}

chosen : {B : Type 0} (b : Bool) (x y : B) → b ≡ true → (if b then x else y) ≡ x
chosen b x y h = ap (λ t. if t then x else y) h

passed : {B : Type 0} (b : Bool) (x y : B) → b ≡ false → (if b then x else y) ≡ y
passed b x y h = ap (λ t. if t then x else y) h

some_inj : (m n : ℕ) → some m ≡ some n → m ≡ n
some_inj m n h = cc h

module _ {ℓ} {A : Type ℓ} ⦃f : Field A⦄ where
  abbrev candidate : ℕ → ℕ → List A → Bool
  candidate col r row = leb col r && not (f.is_zero (get_or f.zero col row))

  candidate_holds :
      (col r : ℕ) (row : List A)
      → candidate col r row ≡ true
      → (col ≤ r) × (get_or f.zero col row ≢ f.zero)
  candidate_holds col r row h =
      let (le, nz) = both_hold (leb col r) _ h in
      (
        leb→le col r le,
        λ z. not_both _ ((f.is_zero_iff (get_or f.zero col row)).1 z) (not_held _ nz),
      )
    where
      not_both : (b : Bool) → b ≡ true → b ≡ false → ⊥
      not_both b p q = cc (p, q)

  candidate_fails :
      (col r : ℕ) (row : List A)
      → candidate col r row ≡ false
      → col ≤ r
      → get_or f.zero col row ≡ f.zero
  candidate_fails col r row h le =
      (f.is_zero_iff (get_or f.zero col row)).0 (second_zero (leb col r) _ (le→leb col r le) h)
    where
      second_zero : (a b : Bool) → a ≡ true → (a && not b) ≡ false → b ≡ true
      second_zero a b p q = ground arith

  -- A row that is found is at or below the column, and its entry there is not zero.
  abbrev pub Found : ℕ → ℕ → ℕ → List (List A) → Type ℓ
  Found col r p rows =
      (q : ℕ) × (p ≡ r + q) × (q < length rows) × (col ≤ p) × (entry q col rows ≢ f.zero)

  pub find_pivot-some :
      (col r p : ℕ) (rows : List (List A)) → find_pivot col r rows ≡ some p → Found col r p rows
  unfolding find_pivot
  find_pivot-some col r p [] h = cc h
  find_pivot-some col r p (row ∷ rows) h = elim (Bool-cases (candidate col r row)) [
    | inl e ↦
        let same : r ≡ p =
          some_inj r p (sym (chosen _ (some r) (find_pivot col (suc r) rows) e) ∙ h) in
        let (le, nz) = candidate_holds col r row e in (0, omega arith, omega arith, omega arith, nz)
    | inr e ↦
        let (q, at, fits, le, nz) =
          find_pivot-some col (suc r) p rows
            (sym (passed _ (some r) (find_pivot col (suc r) rows) e) ∙ h) in
        (suc q, omega arith, omega arith, le, nz)
  ]

  pub find_pivot-none :
      (col r i : ℕ) (rows : List (List A))
      → find_pivot col r rows ≡ none
      → col ≤ r + i
      → entry i col rows ≡ f.zero
  unfolding find_pivot
  find_pivot-none col r i [] h le = refl
  find_pivot-none col r i (row ∷ rows) h le = elim (Bool-cases (candidate col r row)) [
    | inl e ↦ none_not_some r (sym (chosen _ (some r) (find_pivot col (suc r) rows) e) ∙ h)
    | inr e ↦
        let g : find_pivot col (suc r) rows ≡ none =
          sym (passed _ (some r) (find_pivot col (suc r) rows) e) ∙ h in
        behind i (λ j k. find_pivot-none col (suc r) j rows g k) e le
  ]
    where
      none_not_some : {B : Type ℓ} (r : ℕ) → some r ≡ none → B
      none_not_some r h = cc h

      behind :
          (i : ℕ)
          → ((j : ℕ) → col ≤ suc r + j → entry j col rows ≡ f.zero)
          → candidate col r row ≡ false
          → col ≤ r + i
          → entry i col (row ∷ rows) ≡ f.zero
      behind zero rest e le = candidate_fails col r row e (omega arith)
      behind (suc i) rest e le = rest i (omega arith)
