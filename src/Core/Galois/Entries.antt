-- ===== src/Core/Galois/Entries.antt =====
-- What the tables of the field hold (src/core/erasure.ts), by evaluating every entry once.
use wildbloom.Prelude.{
  ℕ, suc, ◌+◌, ◌-◌, ◌*◌, ◌<◌, ◌≡◌, ◌≢◌, refl, Bool, true, ◌&&◌, ◌||◌, not, get_or, ◌==◌, ltb,
}
use Prim.Native.Nat.{bit_xor}
use wildbloom.Prelude.{◌/◌, all_below, all_below_sound, arith}
use wildbloom.Prelude.Text.{both_hold}
use wildbloom.Core.Galois.{
  double, Tables, fill, repeat_exp, empty_tables, tables, exp, log, mul, inverse,
}

abbrev exp_entry : Tables → ℕ → Bool
exp_entry t i =
    (get_or 0 (suc i) t.exp == double (get_or 0 i t.exp))
    && ltb (get_or 0 i t.exp) 256
    && not (get_or 0 i t.exp == 0)

abbrev log_entry : Tables → ℕ → Bool
log_entry t a = (a == 0) || (ltb (get_or 0 a t.log) 255 && (get_or 0 (get_or 0 a t.log) t.exp == a))

abbrev both_entry : Tables → ℕ → Bool
both_entry t i = get_or 0 (get_or 0 i t.exp) t.log == i

abbrev check_tables : Tables → Bool
check_tables t =
    all_below 509 (exp_entry t) && all_below 256 (log_entry t) && all_below 255 (both_entry t)

tables_checked : check_tables tables ≡ true
unfolding tables empty_tables fill repeat_exp double
tables_checked = refl

exp_entries : (i : ℕ) → i < 509 → exp_entry tables i ≡ true
exp_entries i h =
    all_below_sound 509 (exp_entry tables) i (both_hold _ _ (both_hold _ _ tables_checked).0).0 h

log_entries : (a : ℕ) → a < 256 → log_entry tables a ≡ true
log_entries a h =
    all_below_sound 256 (log_entry tables) a (both_hold _ _ (both_hold _ _ tables_checked).0).1 h

exponents : (i : ℕ) → i < 255 → both_entry tables i ≡ true
exponents i h = all_below_sound 255 (both_entry tables) i (both_hold _ _ tables_checked).1 h

pub exp_suc : (i : ℕ) → i < 509 → exp (suc i) ≡ double (exp i)
unfolding exp
exp_suc i h = let e = exp_entries i h in ground arith

pub exp_fits : (i : ℕ) → i < 509 → exp i < 256
unfolding exp
exp_fits i h = let e = exp_entries i h in ground arith

pub exp-ne-zero : (i : ℕ) → i < 509 → exp i ≢ 0
unfolding exp
exp-ne-zero i h = let e = exp_entries i h in ground arith

pub log_fits : (a : ℕ) → a < 256 → a ≢ 0 → log a < 255
unfolding log
log_fits a h n = let e = log_entries a h in ground arith

pub exp-log : (a : ℕ) → a < 256 → a ≢ 0 → exp (log a) ≡ a
unfolding exp log
exp-log a h n = let e = log_entries a h in ground arith

pub log-exp : (i : ℕ) → i < 255 → log (exp i) ≡ i
unfolding exp log
log-exp i h = let e : both_entry tables i ≡ true = exponents i h in ground arith

pub exp_start : exp 0 ≡ 1
unfolding exp tables empty_tables fill repeat_exp double
exp_start = refl

pub exp_period : exp 255 ≡ 1
unfolding exp tables empty_tables fill repeat_exp double
exp_period = refl

-- An inverse is an inverse, for every byte but zero.
abbrev inverse_entry : Tables → ℕ → Bool
inverse_entry t a =
    (a == 0)
    || (not (get_or 0 (255 - get_or 0 a t.log) t.exp == 0)
        && (get_or 0 (get_or 0 (get_or 0 (255 - get_or 0 a t.log) t.exp) t.log + get_or 0 a t.log)
              t.exp
            == 1))

inverses_checked : all_below 256 (inverse_entry tables) ≡ true
unfolding tables empty_tables fill repeat_exp double
inverses_checked = refl

pub inverse_fits : (a : ℕ) → inverse a < 256
unfolding inverse
inverse_fits a = exp_fits (255 - log a) (omega arith)

pub inverse-mul : (a : ℕ) → a < 256 → a ≢ 0 → mul (inverse a) a ≡ 1
unfolding mul inverse exp log
inverse-mul a h n =
    let e : inverse_entry tables a ≡ true =
      all_below_sound 256 (inverse_entry tables) a inverses_checked h in
    ground arith

-- Doubling is a shift and, where the top digit was set, the reduction.
abbrev double_entry : ℕ → Bool
double_entry a = (double a == bit_xor (a * 2) (a / 128 * 285)) && ltb (double a) 256

doubles_checked : all_below 256 double_entry ≡ true
unfolding double
doubles_checked = refl

double_entries : (a : ℕ) → a < 256 → double_entry a ≡ true
double_entries a h = all_below_sound 256 double_entry a doubles_checked h

pub double_parts : (a : ℕ) → a < 256 → double a ≡ bit_xor (a * 2) (a / 128 * 285)
double_parts a h = let e = double_entries a h in ground arith

pub double_fits : (a : ℕ) → a < 256 → double a < 256
double_fits a h = let e = double_entries a h in ground arith

pub double-zero : double 0 ≡ 0
unfolding double
double-zero = refl

two_entry : Tables → ℕ → Bool
two_entry t b = (b == 0) || (get_or 0 (get_or 0 2 t.log + get_or 0 b t.log) t.exp == double b)

twos_checked : all_below 256 (two_entry tables) ≡ true
unfolding two_entry tables empty_tables fill repeat_exp double
twos_checked = refl

pub mul_two : (b : ℕ) → b < 256 → mul 2 b ≡ double b
unfolding mul exp log two_entry
mul_two b h =
    let e : two_entry tables b ≡ true = all_below_sound 256 (two_entry tables) b twos_checked h in
    let z : double 0 ≡ 0 = double-zero in ground arith
