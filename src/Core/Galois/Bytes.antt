-- ===== src/Core/Galois/Bytes.antt =====
-- The bytes with the module's tables form a field (src/core/erasure.ts).
use Prim.Native.Nat.{bit_xor}
use mathlib.Core.HLevel.{Σ_prop_path}
use native.Mathlib.Bridge.{le_prop}
use wildbloom.Prelude.{ℕ, suc, ◌<◌, ◌%◌, ◌≡◌, ◌≢◌, ◌↔◌, ap, true, ◌==◌, ==_iff, arith}
use wildbloom.Core.Field.{Field}
use wildbloom.Core.Galois.{mul, inverse}
use wildbloom.Core.Galois.Xor.{xor_comm, xor_assoc, zero-xor, xor_self}
use wildbloom.Core.Galois.Laws
use wildbloom.Core.Galois.Entries

abbrev pub Byte : Type 0
Byte = (n : ℕ) × (n < 256)

pub same_byte : (a b : Byte) → a.0 ≡ b.0 → a ≡ b
same_byte a b h = Σ_prop_path (λ (n : ℕ). le_prop {n = suc n} {m = 256}) {u = a} {v = b} h

abbrev pub zero_byte : Byte
zero_byte = (0, omega arith)

abbrev pub one_byte : Byte
one_byte = (1, omega arith)

unfoldable pub to_byte : ℕ → Byte
to_byte n = (n % 256, omega arith)

-- `^` on bytes.
unfoldable pub add : Byte → Byte → Byte
add a b = (bit_xor a.0 b.0, Laws.xor_byte a.0 b.0 a.1 b.1)

unfoldable pub times : Byte → Byte → Byte
times a b = (mul a.0 b.0, Laws.mul_fits a.0 b.0 a.1 b.1)

unfoldable pub reciprocal : Byte → Byte
reciprocal a = (inverse a.0, Entries.inverse_fits a.0)

pub add_assoc : (a b c : Byte) → add (add a b) c ≡ add a (add b c)
unfolding add
add_assoc a b c = same_byte _ _ (xor_assoc a.0 b.0 c.0)

pub add_comm : (a b : Byte) → add a b ≡ add b a
unfolding add
add_comm a b = same_byte _ _ (xor_comm a.0 b.0)

pub zero-add : (a : Byte) → add zero_byte a ≡ a
unfolding add
zero-add a = same_byte _ _ (zero-xor a.0)

pub add_self : (a : Byte) → add a a ≡ zero_byte
unfolding add
add_self a = same_byte _ _ (xor_self a.0)

pub times_assoc : (a b c : Byte) → times (times a b) c ≡ times a (times b c)
unfolding times
times_assoc a b c = same_byte _ _ (Laws.mul_assoc a.0 b.0 c.0 a.1 b.1 c.1)

pub times_comm : (a b : Byte) → times a b ≡ times b a
unfolding times
times_comm a b = same_byte _ _ (Laws.mul_comm a.0 b.0)

pub one-times : (a : Byte) → times one_byte a ≡ a
unfolding times
one-times a = same_byte _ _ (Laws.one-mul a.0 a.1)

pub zero-times : (a : Byte) → times zero_byte a ≡ zero_byte
unfolding times
zero-times a = same_byte _ _ (Laws.zero-mul a.0)

pub times-add : (a b c : Byte) → times a (add b c) ≡ add (times a b) (times a c)
unfolding add times
times-add a b c = same_byte _ _ (Laws.mul-xor a.0 b.0 c.0 a.1 b.1 c.1)

pub reciprocal-times : (a : Byte) → a ≢ zero_byte → times (reciprocal a) a ≡ one_byte
unfolding times reciprocal
reciprocal-times a n =
    same_byte _ _ (Entries.inverse-mul a.0 a.1 (λ z. n (same_byte a zero_byte z)))

pub one-ne-zero : one_byte ≢ zero_byte
one-ne-zero h = ground (arith, ap (λ x. x.0) h)

pub is_zero_iff : (a : Byte) → ((a.0 == 0) ≡ true) ↔ (a ≡ zero_byte)
is_zero_iff a =
    (λ h. same_byte a zero_byte ((==_iff a.0 0).0 h), λ h. (==_iff a.0 0).1 (ap (λ x. x.0) h))

pub to_byte_inj : (m n : ℕ) → m < 256 → n < 256 → to_byte m ≡ to_byte n → m ≡ n
unfolding to_byte
to_byte_inj m n p q h = omega (arith, ap (λ x. x.0) h)

instance abbrev pub bytes : Field Byte
bytes = record {
  zero = zero_byte;
  one = one_byte;
  add = add;
  mul = times;
  inverse = reciprocal;
  is_zero = λ a. a.0 == 0;
  element = to_byte;
  add_assoc = add_assoc;
  add_comm = add_comm;
  zero-add = zero-add;
  add_self = add_self;
  mul_assoc = times_assoc;
  mul_comm = times_comm;
  one-mul = one-times;
  zero-mul = zero-times;
  mul-add = times-add;
  inverse-mul = reciprocal-times;
  one-ne-zero = one-ne-zero;
  is_zero_iff = is_zero_iff;
  element_inj = to_byte_inj;
}
