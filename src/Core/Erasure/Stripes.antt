-- ===== src/Core/Erasure/Stripes.antt =====
-- The loop over the stripes (src/core/erasure.ts): what it writes does not depend on where it is cut, and a
-- stopped signal is seen at every look.
use native.Mathlib.Nat.{zero-add}
use wildbloom.Prelude.{
  ℕ, zero, suc, ◌+◌, ◌-◌, ◌*◌, ◌/◌, ◌≤◌, ◌<◌, min, ◌≡◌, ◌≢◌, inl, inr, refl, sym, ◌∙◌, ap, ap₂,
  Bool, true, false, not, arith, List, [], ◌∷◌, ◌++◌, length, map, replicate, tabulate,
  tabulate_from, ltb, Bool-cases,
}
use wildbloom.Prelude.{tabulate_append, below_or_above, lt→ltb}
use wildbloom.Core.Erasure.{Result, ok, err, ◌>>◌, guard, aborted}
use wildbloom.Core.Erasure.Parts.{throw_if_aborted, checkpoint, push_all, stripes}

-- The stripes that a part of this size takes.
abbrev pub stripe_count : ℕ → ℕ
stripe_count size = (size + 65535) / 65536

-- No look of the call finds the signal stopped; some look does.
abbrev pub NeverStopped : (ℕ → Bool) → ℕ → Type 0
NeverStopped signal size = (n : ℕ) → n ≤ 2 * stripe_count size → signal n ≡ false

module _ {ℓ} {A : Type ℓ} (size : ℕ) (signal : ℕ → Bool) (step : ℕ → ℕ → List (List A)) where
  stripes_more :
      (fuel k : ℕ) (outputs : List (List A))
      → k * 65536 < size
      → stripes (suc fuel) k size signal step outputs ≡ (
          checkpoint signal k
          >> stripes fuel
              (suc k)
              size
              signal
              step
              (push_all outputs (step (k * 65536) (min 65536 (size - k * 65536)))))
  unfolding stripes
  stripes_more fuel k outputs h =
      ap
        (λ b. elim b [
          | true ↦
              checkpoint signal k
              >> stripes fuel (suc k) size signal step
                  (push_all outputs (step (k * 65536) (min 65536 (size - k * 65536))))
          | false ↦ throw_if_aborted signal (2 * k) >> ok outputs
        ])
        (lt→ltb (k * 65536) size h)

  stripes_end :
      (fuel k : ℕ) (outputs : List (List A))
      → size ≤ k * 65536
      → stripes (suc fuel) k size signal step outputs
        ≡ (throw_if_aborted signal (2 * k) >> ok outputs)
  unfolding stripes
  stripes_end fuel k outputs h =
      ap
        (λ b. elim b [
          | true ↦
              checkpoint signal k
              >> stripes fuel (suc k) size signal step
                  (push_all outputs (step (k * 65536) (min 65536 (size - k * 65536))))
          | false ↦ throw_if_aborted signal (2 * k) >> ok outputs
        ])
        (at_end k h)
    where
      at_end : (k : ℕ) → size ≤ k * 65536 → ltb (k * 65536) size ≡ false
      at_end k h = ground arith

  unstopped :
      (n : ℕ) {B : Type ℓ} (m : Result B) → signal n ≡ false → (throw_if_aborted signal n >> m) ≡ m
  unfolding throw_if_aborted
  unstopped n m h = ap (λ b. guard (not b) aborted >> m) h

  stop_here :
      (n : ℕ) {B : Type ℓ} (m : Result B)
      → signal n ≡ true
      → (throw_if_aborted signal n >> m) ≡ err aborted
  unfolding throw_if_aborted
  stop_here n m h = ap (λ b. guard (not b) aborted >> m) h

  pass_checkpoint :
      (k : ℕ) {B : Type ℓ} (m : Result B)
      → signal (2 * k) ≡ false
      → signal (2 * k + 1) ≡ false
      → (checkpoint signal k >> m) ≡ m
  unfolding checkpoint throw_if_aborted
  pass_checkpoint k m h g = ap₂ (λ b c. (guard (not b) aborted >> guard (not c) aborted) >> m) h g

  differs : (m n : ℕ) → signal m ≡ false → signal n ≡ true → m ≢ n
  differs m n h g e = true_not_false (signal n) g (ap signal (sym e) ∙ h)
    where
      true_not_false : (b : Bool) → b ≡ true → b ≡ false → ⊥
      true_not_false b p q = cc (p, q)

  checkpoint_stopped :
      (k n : ℕ) {B : Type ℓ} (m : Result B)
      → signal n ≡ true
      → 2 * k ≤ n
      → (2 * suc k ≤ n → m ≡ err aborted)
      → (checkpoint signal k >> m) ≡ err aborted
  unfolding checkpoint throw_if_aborted
  checkpoint_stopped k n m stop le later = elim (Bool-cases (signal (2 * k))) [
    | inl e ↦ ap (λ b. (guard (not b) aborted >> guard (not (signal (2 * k + 1))) aborted) >> m) e
    | inr e ↦ elim (Bool-cases (signal (2 * k + 1))) [
      | inl g ↦ ap₂ (λ b c. (guard (not b) aborted >> guard (not c) aborted) >> m) e g
      | inr g ↦
          let apart : 2 * k ≢ n = differs (2 * k) n e stop in
          let apart_next : 2 * k + 1 ≢ n = differs (2 * k + 1) n g stop in
          pass_checkpoint k m e g ∙ later (omega arith)
    ]
  ]

  -- A stopped signal ends the loop at the look that sees it, or before.
  stripes_stopped_from :
      (fuel k n : ℕ) (outputs : List (List A))
      → stripe_count size < k + fuel
      → 2 * k ≤ n
      → n ≤ 2 * stripe_count size
      → signal n ≡ true
      → stripes fuel k size signal step outputs ≡ err aborted
  stripes_stopped_from zero k n outputs h le fits stop = absurd (omega arith)
  stripes_stopped_from (suc fuel) k n outputs h le fits stop =
      elim (below_or_above (k * 65536) size) [
        | inl lt ↦
            stripes_more fuel k outputs lt
            ∙ checkpoint_stopped k n _ stop le
                (λ more. stripes_stopped_from fuel (suc k) n _ (omega arith) more fits stop)
        | inr ge ↦
            stripes_end fuel k outputs ge ∙ stop_here (2 * k) _ (ap signal (omega arith) ∙ stop)
      ]

  pub stripes_stopped :
      (n : ℕ) (outputs : List (List A))
      → n ≤ 2 * stripe_count size
      → signal n ≡ true
      → stripes (suc size) 0 size signal step outputs ≡ err aborted
  stripes_stopped n outputs fits stop =
      stripes_stopped_from (suc size) 0 n outputs (omega arith) (omega arith) fits stop

module _ {ℓ κ} {A : Type ℓ} {R : Type κ} (size : ℕ) (signal : ℕ → Bool)
    (step : ℕ → ℕ → List (List A)) (rows : List R) (value : R → ℕ → A)
    (steps : (offset count : ℕ)
      → offset + count ≤ size
      → step offset count ≡ map (λ r. tabulate_from offset count (value r)) rows) where
  abbrev written : ℕ → List (List A)
  written n = map (λ r. tabulate n (value r)) rows

  push_written :
      (rs : List R) (offset count : ℕ)
      → push_all
          (map (λ r. tabulate offset (value r)) rs)
          (map (λ r. tabulate_from offset count (value r)) rs)
        ≡ map (λ r. tabulate (offset + count) (value r)) rs
  unfolding push_all
  push_written [] offset count = refl
  push_written (r ∷ rs) offset count =
      ap₂ ◌∷◌
        (ap (λ k. tabulate offset (value r) ++ tabulate_from k count (value r))
            (sym (zero-add offset))
          ∙ tabulate_append 0 offset count (value r))
        (push_written rs offset count)

  stripes_from :
      (fuel k : ℕ)
      → stripe_count size < k + fuel
      → k ≤ stripe_count size
      → NeverStopped signal size
      → stripes fuel k size signal step (written (min (k * 65536) size)) ≡ ok (written size)
  stripes_from zero k h le never = absurd (omega arith)
  stripes_from (suc fuel) k h le never = elim (below_or_above (k * 65536) size) [
    | inl lt ↦
        let count : ℕ = min 65536 (size - k * 65536) in
        stripes_more size signal step fuel k _ lt
        ∙ pass_checkpoint size signal step k _ (never (2 * k) (omega arith))
            (never (2 * k + 1) (omega arith))
        ∙ ap
            (λ o.
              stripes fuel (suc k) size signal step (push_all (written o) (step (k * 65536) count)))
            (omega arith)
        ∙ ap (λ p. stripes fuel (suc k) size signal step (push_all (written (k * 65536)) p))
            (steps (k * 65536) count (omega arith))
        ∙ ap (λ o. stripes fuel (suc k) size signal step o) (push_written rows (k * 65536) count)
        ∙ ap (λ o. stripes fuel (suc k) size signal step (written o)) (omega arith)
        ∙ stripes_from fuel (suc k) (omega arith) (omega arith) never
    | inr ge ↦
        stripes_end size signal step fuel k _ ge
        ∙ unstopped size signal step (2 * k) _ (never (2 * k) (omega arith))
        ∙ ap (λ o. ok (written o)) (omega arith)
  ]

  written_nothing : (rs : List R) → replicate (length rs) [] ≡ map (λ r. tabulate 0 (value r)) rs
  written_nothing [] = refl
  written_nothing (r ∷ rs) = ap (λ t. [] ∷ t) (written_nothing rs)

  -- A loop that is not stopped writes every row whole.
  pub stripes_written :
      NeverStopped signal size
      → stripes (suc size) 0 size signal step (replicate (length rows) []) ≡ ok (written size)
  stripes_written never =
      let start : 0 ≡ min (0 * 65536) size = omega arith in
      ap (λ o. stripes (suc size) 0 size signal step o) (written_nothing rows)
      ∙ ap (λ o. stripes (suc size) 0 size signal step (written o)) start
      ∙ stripes_from (suc size) 0 (omega arith) (omega arith) never
