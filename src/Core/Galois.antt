-- ===== src/Core/Galois.antt =====
-- Arithmetic on the bytes as the field of 256 elements (src/core/erasure.ts): the tables that the module
-- fills when it is loaded and the operations that read them.
use Prim.Native.Nat.{bit_and, bit_xor}
use wildbloom.Prelude.{
  ℕ, zero, suc, ◌+◌, ◌-◌, ◌*◌, Bool, ◌||◌, List, get_or, set_at, replicate, ◌==◌, if◌then◌else◌,
}
pub mod Xor
pub mod Entries
pub mod Laws
pub mod Bytes
pub mod Shifts
mod Tests

-- `value <<= 1; if (value & 256) value ^= 0x11d`.
unfoldable pub double : ℕ → ℕ
double value = if bit_and (value * 2) 256 == 0 then value * 2 else bit_xor (value * 2) 0x11d

pub record Tables : Type 0 where
  pub exp : List ℕ
  pub log : List ℕ

-- The first loop with `n` rounds to go, at `i`.
unfoldable pub fill : ℕ → ℕ → ℕ → Tables → Tables
fill zero i value t = t
fill (suc n) i value t =
    fill n (suc i) (double value)
      (record { exp = set_at i value t.exp; log = set_at value i t.log })

-- The second loop with `n` rounds to go, at `i`.
unfoldable pub repeat_exp : ℕ → ℕ → List ℕ → List ℕ
repeat_exp zero i exp = exp
repeat_exp (suc n) i exp = repeat_exp n (suc i) (set_at i (get_or 0 (i - 255) exp) exp)

unfoldable pub empty_tables : Tables
empty_tables = record { exp = replicate 510 0; log = replicate 256 0 }

unfoldable pub tables : Tables
tables =
    let filled : Tables = fill 255 0 1 empty_tables in
    record { exp = repeat_exp 255 255 filled.exp; log = filled.log }

unfoldable pub exp : ℕ → ℕ
exp i = get_or 0 i tables.exp

unfoldable pub log : ℕ → ℕ
log a = get_or 0 a tables.log

-- What stands in `MUL` at `a * 256 + b`: the loops that fill it leave the row and the column of zero out.
unfoldable pub mul : ℕ → ℕ → ℕ
mul a b = if (a == 0) || (b == 0) then 0 else exp (log a + log b)

unfoldable pub inverse : ℕ → ℕ
inverse a = exp (255 - log a)
