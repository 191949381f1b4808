-- ===== src/Core/Galois/Laws.antt =====
-- The products that the tables give are those of a field of 256 elements (src/core/erasure.ts).
use Prim.Native.Nat.{bit_xor}
use native.Mathlib.Nat.{zero-add, suc-add}
use wildbloom.Prelude.{
  ℕ, zero, suc, ◌+◌, ◌-◌, ◌*◌, ◌/◌, ◌<◌, ◌≡◌, ◌≢◌, refl, sym, ◌∙◌, ap, ap₂, inl, inr,
  below_or_above, arith,
}
use wildbloom.Core.Galois.{double, exp, log, mul}
use wildbloom.Core.Galois.Xor.{xor_parts, xor_half, xor_comm, xor_assoc, xor_fits, zero-xor}
use wildbloom.Core.Galois.Entries.{
  exp_suc, exp_fits, exp-ne-zero, log_fits, exp-log, log-exp, exp_start, exp_period, double_parts,
}
use wildbloom.Core.Galois.Entries.{double_fits, double-zero}

pub xor_interchange :
    (a b c d : ℕ) → bit_xor (bit_xor a b) (bit_xor c d) ≡ bit_xor (bit_xor a c) (bit_xor b d)
xor_interchange a b c d =
    xor_assoc a b (bit_xor c d)
    ∙ ap (bit_xor a)
        (sym (xor_assoc b c d) ∙ ap (λ x. bit_xor x d) (xor_comm b c) ∙ xor_assoc c b d)
    ∙ sym (xor_assoc a c (bit_xor b d))

pub xor_byte : (a b : ℕ) → a < 256 → b < 256 → bit_xor a b < 256
xor_byte a b p q = xor_fits 8 a b p q

shift_half : (a : ℕ) → a * 2 / 2 ≡ a
shift_half a = omega arith

shift-xor : (a b : ℕ) → bit_xor a b * 2 ≡ bit_xor (a * 2) (b * 2)
shift-xor a b = omega (arith, xor_parts (a * 2) (b * 2), ap₂ bit_xor (shift_half a) (shift_half b))

eighth : (a : ℕ) → a / 128 ≡ a / 2 / 2 / 2 / 2 / 2 / 2 / 2
eighth a = omega arith

top-xor : (a b : ℕ) → bit_xor a b / 128 ≡ bit_xor (a / 128) (b / 128)
top-xor a b = simp (eighth, xor_half)

reduction-xor : (x y : ℕ) → x < 2 → y < 2 → bit_xor x y * 285 ≡ bit_xor (x * 285) (y * 285)
reduction-xor zero zero p q = refl
reduction-xor zero (suc zero) p q = refl
reduction-xor (suc zero) zero p q = refl
reduction-xor (suc zero) (suc zero) p q = refl
reduction-xor zero (suc (suc y)) p q = absurd (omega arith)
reduction-xor (suc zero) (suc (suc y)) p q = absurd (omega arith)
reduction-xor (suc (suc x)) y p q = absurd (omega arith)

double-xor : (a b : ℕ) → a < 256 → b < 256 → double (bit_xor a b) ≡ bit_xor (double a) (double b)
double-xor a b p q =
    double_parts (bit_xor a b) (xor_byte a b p q)
    ∙ ap₂ bit_xor (shift-xor a b) (
        ap (λ (x : ℕ). x * 285) (top-xor a b)
        ∙ reduction-xor (a / 128) (b / 128) (omega arith) (omega arith))
    ∙ xor_interchange (a * 2) (b * 2) (a / 128 * 285) (b / 128 * 285)
    ∙ sym (ap₂ bit_xor (double_parts a p) (double_parts b q))

unfoldable doubled : ℕ → ℕ → ℕ
doubled zero b = b
doubled (suc n) b = double (doubled n b)

doubled_none : (b : ℕ) → doubled 0 b ≡ b
unfolding doubled
doubled_none b = refl

doubled-add : (m n b : ℕ) → doubled (m + n) b ≡ doubled m (doubled n b)
unfolding doubled
doubled-add zero n b = rw zero-add
doubled-add (suc m) n b = rw suc-add (ap double (doubled-add m n b))

doubled_fits : (n b : ℕ) → b < 256 → doubled n b < 256
unfolding doubled
doubled_fits zero b h = h
doubled_fits (suc n) b h = double_fits (doubled n b) (doubled_fits n b h)

doubled-zero : (n : ℕ) → doubled n 0 ≡ 0
unfolding doubled
doubled-zero zero = refl
doubled-zero (suc n) = ap double (doubled-zero n) ∙ double-zero

doubled-xor :
    (n a b : ℕ) → a < 256 → b < 256 → doubled n (bit_xor a b) ≡ bit_xor (doubled n a) (doubled n b)
unfolding doubled
doubled-xor zero a b p q = refl
doubled-xor (suc n) a b p q =
    ap double (doubled-xor n a b p q)
    ∙ double-xor (doubled n a) (doubled n b) (doubled_fits n a p) (doubled_fits n b q)

exp_doubled : (i : ℕ) → i < 510 → exp i ≡ doubled i 1
unfolding doubled
exp_doubled zero h = exp_start
exp_doubled (suc i) h = exp_suc i (omega arith) ∙ ap double (exp_doubled i (omega arith))

period : (i : ℕ) → i < 255 → exp (i + 255) ≡ exp i
period i h =
    exp_doubled (i + 255) (omega arith)
    ∙ doubled-add i 255 1
    ∙ ap (doubled i) (sym (exp_doubled 255 (omega arith)) ∙ exp_period)
    ∙ sym (exp_doubled i (omega arith))

mul-zero : (a : ℕ) → mul a 0 ≡ 0
unfolding mul
mul-zero a = ground arith

pub zero-mul : (b : ℕ) → mul 0 b ≡ 0
unfolding mul
zero-mul b = refl

mul_exp : (a b : ℕ) → a ≢ 0 → b ≢ 0 → mul a b ≡ exp (log a + log b)
unfolding mul
mul_exp a b n m = ground arith

pub mul_comm : (a b : ℕ) → mul a b ≡ mul b a
mul_comm zero b = zero-mul b ∙ sym (mul-zero b)
mul_comm (suc a) zero = mul-zero (suc a) ∙ sym (zero-mul (suc a))
mul_comm (suc a) (suc b) =
    mul_exp (suc a) (suc b) (omega arith) (omega arith)
    ∙ ap exp (omega arith)
    ∙ sym (mul_exp (suc b) (suc a) (omega arith) (omega arith))

-- A product doubles one factor as often as the other's logarithm says.
mul_doubled : (a b : ℕ) → a < 256 → a ≢ 0 → b < 256 → mul a b ≡ doubled (log a) b
mul_doubled a zero p n q = mul-zero a ∙ sym (doubled-zero (log a))
mul_doubled a (suc b) p n q =
    let x : log a < 255 = log_fits a p n in
    let y : log (suc b) < 255 = log_fits (suc b) q (omega arith) in
    mul_exp a (suc b) n (omega arith)
    ∙ exp_doubled (log a + log (suc b)) (omega arith)
    ∙ doubled-add (log a) (log (suc b)) 1
    ∙ ap (doubled (log a))
        (sym (exp_doubled (log (suc b)) (omega arith)) ∙ exp-log (suc b) q (omega arith))

pub mul_fits : (a b : ℕ) → a < 256 → b < 256 → mul a b < 256
mul_fits zero b p q = rw zero-mul (omega arith)
mul_fits (suc a) b p q =
    rw (mul_doubled (suc a) b p (omega arith) q) (doubled_fits (log (suc a)) b q)

pub mul-xor :
    (a b c : ℕ) → a < 256 → b < 256 → c < 256 → mul a (bit_xor b c) ≡ bit_xor (mul a b) (mul a c)
mul-xor zero b c p q r =
    zero-mul (bit_xor b c) ∙ sym (ap₂ bit_xor (zero-mul b) (zero-mul c) ∙ zero-xor 0)
mul-xor (suc a) b c p q r =
    mul_doubled (suc a) (bit_xor b c) p (omega arith) (xor_byte b c q r)
    ∙ doubled-xor (log (suc a)) b c q r
    ∙ sym (
        ap₂ bit_xor (mul_doubled (suc a) b p (omega arith) q)
          (mul_doubled (suc a) c p (omega arith) r))

-- 255 doublings change nothing.
doubled_period : (c : ℕ) → c < 256 → doubled 255 c ≡ c
doubled_period zero h = doubled-zero 255
doubled_period (suc c) h =
    let x : log (suc c) < 255 = log_fits (suc c) h (omega arith) in
    let e : exp (log (suc c)) ≡ suc c = exp-log (suc c) h (omega arith) in
    ap (doubled 255) (sym e ∙ exp_doubled (log (suc c)) (omega arith))
    ∙ sym (doubled-add 255 (log (suc c)) 1)
    ∙ ap (λ k. doubled k 1) (omega arith)
    ∙ sym (exp_doubled (log (suc c) + 255) (omega arith))
    ∙ period (log (suc c)) x
    ∙ e

-- The exponent of `exp` counts only up to its period.
doubled_log-exp : (i c : ℕ) → i < 509 → c < 256 → doubled (log (exp i)) c ≡ doubled i c
doubled_log-exp i c h q = elim (below_or_above i 255) [
  | inl le ↦ ap (λ k. doubled k c) (log-exp i (omega arith))
  | inr lt ↦
      ap (λ k. doubled (log (exp k)) c) (omega arith)
      ∙ ap (λ k. doubled (log k) c) (period (i - 255) (omega arith))
      ∙ ap (λ k. doubled k c) (log-exp (i - 255) (omega arith))
      ∙ ap (doubled (i - 255)) (sym (doubled_period c q))
      ∙ sym (doubled-add (i - 255) 255 c)
      ∙ ap (λ k. doubled k c) (omega arith)
]

pub mul_assoc : (a b c : ℕ) → a < 256 → b < 256 → c < 256 → mul (mul a b) c ≡ mul a (mul b c)
mul_assoc zero b c p q r = ap (λ k. mul k c) (zero-mul b) ∙ zero-mul c ∙ sym (zero-mul (mul b c))
mul_assoc (suc a) zero c p q r =
    ap (λ k. mul k c) (mul-zero (suc a))
    ∙ zero-mul c
    ∙ sym (ap (mul (suc a)) (zero-mul c) ∙ mul-zero (suc a))
mul_assoc (suc a) (suc b) c p q r =
    let x : log (suc a) < 255 = log_fits (suc a) p (omega arith) in
    let y : log (suc b) < 255 = log_fits (suc b) q (omega arith) in
    let i : ℕ = log (suc a) + log (suc b) in
    let e : mul (suc a) (suc b) ≡ exp i = mul_exp (suc a) (suc b) (omega arith) (omega arith) in
    ap (λ k. mul k c) e
    ∙ mul_doubled (exp i) c (exp_fits i (omega arith)) (exp-ne-zero i (omega arith)) r
    ∙ doubled_log-exp i c (omega arith) r
    ∙ doubled-add (log (suc a)) (log (suc b)) c
    ∙ ap (doubled (log (suc a))) (sym (mul_doubled (suc b) c q (omega arith) r))
    ∙ sym (mul_doubled (suc a) (mul (suc b) c) p (omega arith) (mul_fits (suc b) c q r))

pub one-mul : (a : ℕ) → a < 256 → mul 1 a ≡ a
one-mul a h =
    let e : log 1 ≡ 0 = ap log (sym exp_start) ∙ log-exp 0 (omega arith) in
    mul_doubled 1 a (omega arith) (omega arith) h ∙ ap (λ k. doubled k a) e ∙ doubled_none a

-- The product of bytes is a byte again, it is associative and commutative, and it distributes over `^`.
pub mul_ring :
    (a b c : ℕ)
    → a < 256
    → b < 256
    → c < 256
    → (mul a b < 256)
      × (mul (mul a b) c ≡ mul a (mul b c))
      × (mul a b ≡ mul b a)
      × (mul a (bit_xor b c) ≡ bit_xor (mul a b) (mul a c))
mul_ring a b c p q r = (mul_fits a b p q, mul_assoc a b c p q r, mul_comm a b, mul-xor a b c p q r)
