-- ===== src/Core/Galois/Shifts.antt =====
-- The tables multiply as shifts and `^` do, without a table (src/core/erasure.ts).
use Prim.Native.Nat.{bit_xor}
use native.Mathlib.Nat.{pow-suc}
use wildbloom.Prelude.{
  ℕ, zero, suc, ◌*◌, ◌/◌, ◌%◌, ◌^◌, ◌<◌, ◌≡◌, sym, ◌∙◌, ap, ap₂, ◌==◌, if◌then◌else◌, arith,
}
use wildbloom.Core.Galois.{double, mul}
use wildbloom.Core.Galois.Xor.{xor_parts, zero-xor, xor_comm}
use wildbloom.Core.Galois.Entries.{double_parts, double_fits, mul_two}
use wildbloom.Core.Galois.Laws.{mul_comm, mul_assoc, mul-xor, zero-mul, one-mul}

-- The product of polynomials over the two digits, reduced at every shift, by `n` digits of the first one.
unfoldable pub shift_product : ℕ → ℕ → ℕ → ℕ
shift_product zero a b = 0
shift_product (suc n) a b =
    bit_xor (if a % 2 == 1 then b else 0) (shift_product n (a / 2) (double b))

digits_of : (a : ℕ) → a ≡ bit_xor (a % 2) (a / 2 * 2)
digits_of a =
    let low : a % 2 / 2 ≡ 0 = omega arith in
    let high : a / 2 * 2 / 2 ≡ a / 2 = omega arith in
    omega (arith, xor_parts (a % 2) (a / 2 * 2), ap₂ bit_xor low high, zero-xor (a / 2))

small_double : (a : ℕ) → a < 128 → double a ≡ a * 2
small_double a h =
    let none_over : a / 128 * 285 ≡ 0 = omega arith in
    double_parts a (omega arith)
    ∙ ap (bit_xor (a * 2)) none_over
    ∙ xor_comm (a * 2) 0
    ∙ zero-xor (a * 2)

-- The lowest digit takes the other factor or nothing.
low_digit : (d b : ℕ) → d < 2 → b < 256 → mul b d ≡ (if d == 1 then b else 0)
low_digit zero b h q = mul_comm b 0 ∙ zero-mul b
low_digit (suc zero) b h q = mul_comm b 1 ∙ one-mul b q
low_digit (suc (suc d)) b h q = absurd (omega arith)

-- The others shift it.
high_digits : (c b : ℕ) → c < 128 → b < 256 → mul b (c * 2) ≡ mul c (double b)
high_digits c b h q =
    ap (mul b) (sym (small_double c h) ∙ sym (mul_two c (omega arith)))
    ∙ sym (mul_assoc b 2 c q (omega arith) (omega arith))
    ∙ ap (λ t. mul t c) (mul_comm b 2 ∙ mul_two b q)
    ∙ mul_comm (double b) c

shift_product_from : (n a b : ℕ) → a < 2 ^ n → a < 256 → b < 256 → shift_product n a b ≡ mul a b
unfolding shift_product
shift_product_from zero a b p k q =
    let none_left : 0 ≡ a = omega arith in sym (zero-mul b) ∙ ap (λ t. mul t b) none_left
shift_product_from (suc n) a b p k q =
    ap₂ bit_xor (sym (low_digit (a % 2) b (omega arith) q)) (
      shift_product_from n (a / 2) (double b) (omega (arith, pow-suc 2 n)) (omega arith)
        (double_fits b q)
      ∙ sym (high_digits (a / 2) b (omega arith) q))
    ∙ sym (mul-xor b (a % 2) (a / 2 * 2) q (omega arith) (omega arith))
    ∙ ap (mul b) (sym (digits_of a))
    ∙ mul_comm b a

-- On bytes, the product that is read from the tables is the one by shifts and `^`, reduced by 0x11d at every
-- shift, over the eight digits of the first factor.
pub mul-shift_product : (a b : ℕ) → a < 256 → b < 256 → mul a b ≡ shift_product 8 a b
mul-shift_product a b p q = sym (shift_product_from 8 a b p p q)
