-- ===== src/Prelude/Text.antt =====
-- Text as JavaScript holds it: a list of UTF-16 code units.
use Prim.Native.Char.{code}
use Prim.Native.String.{String}
use wildbloom.Prelude.Tests.{ltb, leb, ◌==◌, if◌then◌else◌}
use Prim.Native.Nat.{ℕ, ◌+◌}
use mathlib.Core.Path.{◌≡◌, refl, ap₂}
use mathlib.Core.Bool.{Bool, true, false, not, ◌&&◌, ◌||◌}
use mathlib.Core.List.{List, [], ◌∷◌}
use mathlib.Core.Option.{Option, none, some}
use native.Mathlib.Omega.{arith}

abbrev pub Text : Type 0
Text = List ℕ

-- A literal, which is ASCII.
abbrev pub codes : String → Text
codes String.[] = []
codes (String.◌∷◌ c s) = code c ∷ codes s

-- `===` on texts.
abbrev pub eq_text : Text → Text → Bool
eq_text [] [] = true
eq_text [] (y ∷ ys) = false
eq_text (x ∷ xs) [] = false
eq_text (x ∷ xs) (y ∷ ys) = (x == y) && eq_text xs ys

pub eq_text-eq : (xs ys : Text) → eq_text xs ys ≡ true → xs ≡ ys
eq_text-eq [] [] p = refl
eq_text-eq [] (y ∷ ys) p = ground arith
eq_text-eq (x ∷ xs) [] p = ground arith
eq_text-eq (x ∷ xs) (y ∷ ys) p =
    let k : x ≡ y = ground arith in
    ap₂ {C = Text} (λ z zs. z ∷ zs) k (eq_text-eq xs ys (ground arith))

pub eq_text_refl : (xs : Text) → eq_text xs xs ≡ true
eq_text_refl [] = refl
eq_text_refl (x ∷ xs) = let h = eq_text_refl xs in ground arith

-- What is left behind a prefix.
abbrev pub strip : Text → Text → Option Text
strip [] s = some s
strip (p ∷ ps) [] = none
strip (p ∷ ps) (c ∷ s) = if p == c then strip ps s else none

abbrev pub starts_with : Text → Text → Bool
starts_with [] s = true
starts_with (p ∷ ps) [] = false
starts_with (p ∷ ps) (c ∷ s) = (p == c) && starts_with ps s

abbrev pub every {ℓ} : {A : Type ℓ} → (A → Bool) → List A → Bool
every p [] = true
every p (x ∷ xs) = p x && every p xs

abbrev pub some_of {ℓ} : {A : Type ℓ} → (A → Bool) → List A → Bool
some_of p [] = false
some_of p (x ∷ xs) = p x || some_of p xs

-- `includes` on a list of texts.
abbrev pub includes : Text → List Text → Bool
includes t ts = some_of (eq_text t) ts

abbrev pub last_unit : Text → Option ℕ
last_unit [] = none
last_unit (c ∷ []) = some c
last_unit (c ∷ d ∷ s) = last_unit (d ∷ s)

-- `\s` of a regular expression, which is also what `trimEnd` removes.
abbrev pub is_space : ℕ → Bool
is_space c =
    (leb 9 c && leb c 13)
    || (c == 32)
    || (c == 160)
    || (c == 5760)
    || (leb 8192 c && leb c 8202)
    || (c == 8232)
    || (c == 8233)
    || (c == 8239)
    || (c == 8287)
    || (c == 12288)
    || (c == 65279)

abbrev pub is_control : ℕ → Bool
is_control c = leb c 31 || (c == 127)

abbrev pub is_high : ℕ → Bool
is_high c = leb 55296 c && leb c 56319

abbrev pub is_low : ℕ → Bool
is_low c = leb 56320 c && leb c 57343

-- `new TextEncoder().encode(text).length`: a lone surrogate is replaced by three bytes, a pair is four. The
-- Boolean says whether the unit before is a high surrogate.
abbrev utf8_after : Bool → Text → ℕ
utf8_after high [] = 0
utf8_after high (c ∷ s) =
    (if high && is_low c then 1 else if ltb c 128 then 1 else if ltb c 2048 then 2 else 3)
    + utf8_after (is_high c) s

abbrev pub utf8_length : Text → ℕ
utf8_length s = utf8_after false s

-- `/\p{Surrogate}/u`: a surrogate outside every pair.
abbrev lone_after : Bool → Text → Bool
lone_after high [] = high
lone_after high (c ∷ s) = (if is_low c then not high else high) || lone_after (is_high c) s

abbrev pub has_lone_surrogate : Text → Bool
has_lone_surrogate s = lone_after false s

pub both_hold : (a b : Bool) → (a && b) ≡ true → (a ≡ true) × (b ≡ true)
both_hold true true h = (refl, refl)
both_hold true false h = cc h
both_hold false b h = cc h

pub not_held : (a : Bool) → not a ≡ true → a ≡ false
not_held true h = cc h
not_held false h = refl
