-- ===== src/Prelude/Indexed.antt =====
-- Lists by index: reads with a value for what is missing, writes, tables of a function.
use Prim.Native.Nat.{ℕ, zero, suc, ◌+◌, ◌≤◌, ◌<◌}
use mathlib.Core.Path.{◌≡◌, refl, ap, ap₂, sym, ◌∙◌}
use mathlib.Core.List.{List, [], ◌∷◌, ◌++◌, map}
use mathlib.Core.Logic.{◌≢◌}
use native.Mathlib.Nat.{zero-add, suc-add, add-zero}
use native.Mathlib.Omega.{arith}
use wildbloom.Prelude.Lists.{length, take, drop}

module _ {ℓ} {A : Type ℓ} where
  -- What stands at an index, or what stands for a missing element.
  abbrev pub get_or : A → ℕ → List A → A
  get_or d n [] = d
  get_or d zero (x ∷ xs) = x
  get_or d (suc n) (x ∷ xs) = get_or d n xs

  -- A write at an index; one out of range is ignored, as a typed array does.
  abbrev pub set_at : ℕ → A → List A → List A
  set_at n a [] = []
  set_at zero a (x ∷ xs) = a ∷ xs
  set_at (suc n) a (x ∷ xs) = x ∷ set_at n a xs

  -- The values of a function at `n` indices from `i` on: `Array.from` with a mapping.
  abbrev pub tabulate_from : ℕ → ℕ → (ℕ → A) → List A
  tabulate_from i zero f = []
  tabulate_from i (suc n) f = f i ∷ tabulate_from (suc i) n f

  abbrev pub tabulate : ℕ → (ℕ → A) → List A
  tabulate n f = tabulate_from 0 n f

  pub length-tabulate : (i n : ℕ) (f : ℕ → A) → length (tabulate_from i n f) ≡ n
  length-tabulate i zero f = refl
  length-tabulate i (suc n) f = ap suc (length-tabulate (suc i) n f)

  pub length-set : (n : ℕ) (a : A) (xs : List A) → length (set_at n a xs) ≡ length xs
  length-set n a [] = refl
  length-set zero a (x ∷ xs) = refl
  length-set (suc n) a (x ∷ xs) = ap suc (length-set n a xs)

  pub get-tabulate :
      (d : A) (i n k : ℕ) (f : ℕ → A) → k < n → get_or d k (tabulate_from i n f) ≡ f (i + k)
  get-tabulate d i zero k f h = absurd (omega arith)
  get-tabulate d i (suc n) zero f h = ap f (omega arith)
  get-tabulate d i (suc n) (suc k) f h =
      get-tabulate d (suc i) n k f (omega arith) ∙ ap f (omega arith)

  pub get-set_same :
      (d : A) (n : ℕ) (a : A) (xs : List A) → n < length xs → get_or d n (set_at n a xs) ≡ a
  get-set_same d n a [] h = absurd (omega arith)
  get-set_same d zero a (x ∷ xs) h = refl
  get-set_same d (suc n) a (x ∷ xs) h = get-set_same d n a xs (omega arith)

  pub get-set_other :
      (d : A) (n k : ℕ) (a : A) (xs : List A) → n ≢ k → get_or d k (set_at n a xs) ≡ get_or d k xs
  get-set_other d n k a [] h = refl
  get-set_other d zero zero a (x ∷ xs) h = absurd (h refl)
  get-set_other d zero (suc k) a (x ∷ xs) h = refl
  get-set_other d (suc n) zero a (x ∷ xs) h = refl
  get-set_other d (suc n) (suc k) a (x ∷ xs) h = get-set_other d n k a xs (λ e. h (ap suc e))

  pub get_outside : (d : A) (n : ℕ) (xs : List A) → length xs ≤ n → get_or d n xs ≡ d
  get_outside d n [] h = refl
  get_outside d zero (x ∷ xs) h = absurd (omega arith)
  get_outside d (suc n) (x ∷ xs) h = get_outside d n xs (omega arith)

  pub get-drop : (d : A) (n k : ℕ) (xs : List A) → get_or d k (drop n xs) ≡ get_or d (n + k) xs
  get-drop d zero k xs = rw zero-add
  get-drop d (suc n) k [] = refl
  get-drop d (suc n) k (x ∷ xs) = rw suc-add (get-drop d n k xs)

  pub get-take : (d : A) (n k : ℕ) (xs : List A) → k < n → get_or d k (take n xs) ≡ get_or d k xs
  get-take d zero k xs h = absurd (omega arith)
  get-take d (suc n) k [] h = refl
  get-take d (suc n) zero (x ∷ xs) h = refl
  get-take d (suc n) (suc k) (x ∷ xs) h = get-take d n k xs (omega arith)

  pub get-append_left :
      (d : A) (k : ℕ) (xs ys : List A) → k < length xs → get_or d k (xs ++ ys) ≡ get_or d k xs
  get-append_left d k [] ys h = absurd (omega arith)
  get-append_left d zero (x ∷ xs) ys h = refl
  get-append_left d (suc k) (x ∷ xs) ys h = get-append_left d k xs ys (omega arith)

  -- A list is its elements in order.
  pub eq_by_get :
      (d : A) (xs ys : List A)
      → length xs ≡ length ys
      → ((k : ℕ) → k < length xs → get_or d k xs ≡ get_or d k ys)
      → xs ≡ ys
  eq_by_get d [] [] h g = refl
  eq_by_get d [] (y ∷ ys) h g = absurd (omega arith)
  eq_by_get d (x ∷ xs) [] h g = absurd (omega arith)
  eq_by_get d (x ∷ xs) (y ∷ ys) h g =
      ap₂ ◌∷◌ (g 0 (omega arith)) (eq_by_get d xs ys (omega arith) (λ k p. g (suc k) (omega arith)))

  pub tabulate_ext :
      (i n : ℕ) (f g : ℕ → A)
      → ((k : ℕ) → i ≤ k → k < i + n → f k ≡ g k)
      → tabulate_from i n f ≡ tabulate_from i n g
  tabulate_ext i zero f g h = refl
  tabulate_ext i (suc n) f g h =
      ap₂ ◌∷◌ (h i (omega arith) (omega arith))
        (tabulate_ext (suc i) n f g (λ k p q. h k (omega arith) (omega arith)))

  pub tabulate_append :
      (i m n : ℕ) (f : ℕ → A)
      → tabulate_from i m f ++ tabulate_from (i + m) n f ≡ tabulate_from i (m + n) f
  tabulate_append i zero n f = rw (zero-add, add-zero)
  tabulate_append i (suc m) n f = rw suc-add (
      ap (λ t. f i ∷ t)
        (ap (λ k. tabulate_from (suc i) m f ++ tabulate_from k n f) (omega arith)
          ∙ tabulate_append (suc i) m n f))

  -- A table that begins elsewhere.
  pub tabulate_shift :
      (i j n : ℕ) (f : ℕ → A) → tabulate_from i n (λ k. f (j + k)) ≡ tabulate_from (j + i) n f
  tabulate_shift i j zero f = refl
  tabulate_shift i j (suc n) f =
      ap (λ t. f (j + i) ∷ t)
        (tabulate_shift (suc i) j n f ∙ ap (λ k. tabulate_from k n f) (omega arith))

  -- The table of a list's own elements.
  pub tabulate-get :
      (d : A) (n : ℕ) (xs : List A) → length xs ≡ n → tabulate n (λ k. get_or d k xs) ≡ xs
  tabulate-get d n xs h = eq_by_get d _ xs (length-tabulate 0 n _ ∙ sym h) (λ k p.
      get-tabulate d 0 n k _ (omega (arith, length-tabulate 0 n (λ k. get_or d k xs)))
      ∙ ap (λ j. get_or d j xs) (omega arith))

-- Reads of a list that is mapped.
pub get-map {ℓ κ} :
    {A : Type ℓ} {B : Type κ} (d : A) (e : B) (f : A → B) (n : ℕ) (xs : List A)
    → n < length xs
    → get_or e n (map f xs) ≡ f (get_or d n xs)
get-map d e f n [] h = absurd (omega arith)
get-map d e f zero (x ∷ xs) h = refl
get-map d e f (suc n) (x ∷ xs) h = get-map d e f n xs (omega arith)

pub length-map {ℓ κ} :
    {A : Type ℓ} {B : Type κ} (f : A → B) (xs : List A) → length (map f xs) ≡ length xs
length-map f [] = refl
length-map f (x ∷ xs) = ap suc (length-map f xs)

pub map-tabulate {ℓ κ} :
    {A : Type ℓ} {B : Type κ} (f : A → B) (g : ℕ → A) (i n : ℕ)
    → map f (tabulate_from i n g) ≡ tabulate_from i n (λ k. f (g k))
map-tabulate f g i zero = refl
map-tabulate f g i (suc n) = ap (λ t. f (g i) ∷ t) (map-tabulate f g (suc i) n)

-- `map` with the index, from `i` on.
abbrev pub map_from {ℓ κ} : {A : Type ℓ} {B : Type κ} → ℕ → (ℕ → A → B) → List A → List B
map_from i f [] = []
map_from i f (x ∷ xs) = f i x ∷ map_from (suc i) f xs

pub length-map_from {ℓ κ} :
    {A : Type ℓ} {B : Type κ} (i : ℕ) (f : ℕ → A → B) (xs : List A)
    → length (map_from i f xs) ≡ length xs
length-map_from i f [] = refl
length-map_from i f (x ∷ xs) = ap suc (length-map_from (suc i) f xs)

pub get-map_from {ℓ κ} :
    {A : Type ℓ} {B : Type κ} (d : A) (e : B) (i : ℕ) (f : ℕ → A → B) (n : ℕ) (xs : List A)
    → n < length xs
    → get_or e n (map_from i f xs) ≡ f (i + n) (get_or d n xs)
get-map_from d e i f n [] h = absurd (omega arith)
get-map_from d e i f zero (x ∷ xs) h = ap (λ k. f k x) (omega arith)
get-map_from d e i f (suc n) (x ∷ xs) h =
    get-map_from d e (suc i) f n xs (omega arith) ∙ ap (λ k. f k (get_or d n xs)) (omega arith)
