-- ===== src/Core/Erasure/Columns.antt =====
-- The loop over the columns (src/core/erasure.ts): what its result solves, and that it has one as long as no
-- vector but zero is sent to zero.
use wildbloom.Prelude.{
  ℕ, zero, suc, ◌+◌, ◌<◌, ◌≡◌, ◌≢◌, ◌↔◌, inl, inr, refl, sym, ◌∙◌, ap, subst, none, some, arith,
}
use wildbloom.Prelude.{List, length, get_or, length-tabulate}
use wildbloom.Core.Field.{Field}
use wildbloom.Core.Erasure.{ok, err, not_invertible, entry, find_pivot, reduce, columns}
use wildbloom.Core.Erasure.Results.{ok_inj, err_not_ok}
use wildbloom.Prelude.{Option-cases}
use wildbloom.Core.Erasure.Elimination.{Shape, Kernel, Cleared}
use wildbloom.Core.Erasure.Round.{reduce-Shape, reduce-Kernel, reduce-Cleared}
use wildbloom.Core.Erasure.Pivots.{find_pivot-some}
use wildbloom.Core.Erasure.Missing.{witness, witness-ne-zero, witness-Kernel}

module _ {ℓ} {A : Type ℓ} ⦃f : Field A⦄ where
  -- Only zero is sent to zero by every row.
  abbrev pub OnlyZero : ℕ → List (List A) → Type ℓ
  OnlyZero n work =
      (x : List A) → length x ≡ n → Kernel work x → (c : ℕ) → get_or f.zero c x ≡ f.zero

  columns-some :
      (m col p : ℕ) (work : List (List A))
      → find_pivot col 0 work ≡ some p
      → columns (suc m) col work ≡ columns m (suc col) (reduce col p work)
  unfolding columns
  columns-some m col p work e =
      ap
        (λ o. elim o [
          | some pivot ↦ columns m (suc col) (reduce col pivot work)
          | none ↦ err not_invertible
        ])
        e

  columns-none :
      (m col : ℕ) (work : List (List A))
      → find_pivot col 0 work ≡ none
      → columns (suc m) col work ≡ err not_invertible
  unfolding columns
  columns-none m col work e =
      ap
        (λ o. elim o [
          | some pivot ↦ columns m (suc col) (reduce col pivot work)
          | none ↦ err not_invertible
        ])
        e

  -- What the loop's result shares with the rows that it starts from.
  abbrev pub Solved : ℕ → List (List A) → List (List A) → Type ℓ
  Solved n work w = Shape n w × Cleared n n w × ((z : List A) → Kernel work z ↔ Kernel w z)

  pub columns_sound :
      (m n col : ℕ) (work w : List (List A))
      → Shape n work
      → Cleared n col work
      → col + m ≡ n
      → columns m col work ≡ ok w
      → Solved n work w
  unfolding columns
  columns_sound zero n col work w shape cleared at h =
      subst (Solved n work) (ok_inj work w h)
        (shape, λ i c p q. cleared i c p (omega arith), λ z. (λ k. k, λ k. k))
  columns_sound (suc m) n col work w shape cleared at h =
      elim (Option-cases (find_pivot col 0 work)) [
        | inl found ↦
            let (p, e) = found in
            let (q, same, fits, le, nz) = find_pivot-some col 0 p work e in
            let p_fits : p < n = omega (arith, shape.row_count) in
            let pivot : entry p col work ≢ f.zero =
              subst (λ j. entry j col work ≢ f.zero) (omega arith) nz in
            let (shape_w, cleared_w, kernel_w) =
              columns_sound m n (suc col) (reduce col p work) w
                (reduce-Shape n col p work shape (omega arith) le p_fits pivot)
                (reduce-Cleared n col p work shape (omega arith) le p_fits pivot cleared)
                (omega arith) (sym (columns-some m col p work e) ∙ h) in
            let step : (z : List A) → Kernel work z ↔ Kernel (reduce col p work) z =
              reduce-Kernel n col p work shape (omega arith) le p_fits pivot in
            (
              shape_w,
              cleared_w,
              λ z. (λ k. (kernel_w z).0 ((step z).0 k), λ k. (step z).1 ((kernel_w z).1 k)),
            )
        | inr e ↦ absurd (err_not_ok not_invertible w (sym (columns-none m col work e) ∙ h))
      ]

  pub columns_total :
      (m n col : ℕ) (work : List (List A))
      → Shape n work
      → Cleared n col work
      → col + m ≡ n
      → OnlyZero n work
      → (w : List (List A)) × (columns m col work ≡ ok w)
  unfolding columns
  columns_total zero n col work shape cleared at only = (work, refl)
  columns_total (suc m) n col work shape cleared at only =
      elim (Option-cases (find_pivot col 0 work)) [
        | inl found ↦
            let (p, e) = found in
            let (q, same, fits, le, nz) = find_pivot-some col 0 p work e in
            let p_fits : p < n = omega (arith, shape.row_count) in
            let pivot : entry p col work ≢ f.zero =
              subst (λ j. entry j col work ≢ f.zero) (omega arith) nz in
            let step : (z : List A) → Kernel work z ↔ Kernel (reduce col p work) z =
              reduce-Kernel n col p work shape (omega arith) le p_fits pivot in
            let (w, done) =
              columns_total m n (suc col) (reduce col p work)
                (reduce-Shape n col p work shape (omega arith) le p_fits pivot)
                (reduce-Cleared n col p work shape (omega arith) le p_fits pivot cleared)
                (omega arith) (λ x len k. only x len ((step x).1 k)) in
            (w, columns-some m col p work e ∙ done)
        | inr e ↦ absurd (
            witness-ne-zero n col work shape cleared (omega arith) e (
              only (witness n col work shape cleared (omega arith) e) (length-tabulate 0 n _)
                (witness-Kernel n col work shape cleared (omega arith) e) col))
      ]
