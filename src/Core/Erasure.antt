-- ===== src/Core/Erasure.antt =====
-- The matrices of the coding of a payload into parts (src/core/erasure.ts), over any field in which the
-- coding adds by `^`; `Core.Galois.Bytes` is the one it runs on. A matrix is the list of its rows. Numbers are
-- whole and not negative, which `codingBounds` and `decodeParts` test.
use wildbloom.Prelude.{
  ℕ, zero, suc, ◌+◌, ◌-◌, Bool, true, false, not, ◌&&◌, ◌||◌, Option, none, some,
}
use wildbloom.Prelude.{
  List, [], ◌∷◌, ◌++◌, map, length, take, drop, replicate, get_or, set_at, tabulate, map_from,
}
use wildbloom.Prelude.{ltb, leb, ◌==◌, if◌then◌else◌}
use wildbloom.Core.Field.{Field, ◌⊕◌, ◌⊗◌}
pub mod Results
pub mod Parts
pub mod Vectors
pub mod Elimination
pub mod Round
pub mod Pivots
pub mod Missing
pub mod Columns
pub mod Systems
pub mod Inverse
pub mod Roots
pub mod Products
pub mod Indices
pub mod Generators
pub mod Pieces
pub mod Stripes
pub mod Encoding
pub mod Decoding
pub mod Systematic
pub mod RoundTrip
pub mod Refusals
pub mod Fitting
mod Tests

-- What the functions throw: the messages in the order of the file, and a stopped signal.
pub data Failure : Type 0 where
  bad_bounds : Failure
  not_invertible : Failure
  too_small : Failure
  wrong_parts : Failure
  aborted : Failure

pub data Result {ℓ} (A : Type ℓ) : Type ℓ where
  err : Failure → Result A
  ok : A → Result A

infixl 5 ◌>>=◌
abbrev pub ◌>>=◌ {ℓ κ} : {A : Type ℓ} {B : Type κ} → Result A → (A → Result B) → Result B
err failure >>= next = err failure
ok value >>= next = next value

infixl 5 ◌>>◌
abbrev pub ◌>>◌ {κ} : {B : Type κ} → Result (Unit {0}) → Result B → Result B
err failure >> rest = err failure
ok done >> rest = rest

-- A test whose failure is thrown.
abbrev pub guard : Bool → Failure → Result (Unit {0})
guard passes failure = if passes then ok tt else err failure

abbrev pub in_bounds : ℕ → ℕ → Bool
in_bounds required total = not (ltb required 2 || leb total required || ltb 16 total)

unfoldable pub coding_bounds : ℕ → ℕ → Result (Unit {0})
coding_bounds required total = guard (in_bounds required total) bad_bounds

module _ {ℓ} {A : Type ℓ} ⦃f : Field A⦄ where
  abbrev pub row_of : ℕ → List (List A) → List A
  row_of i rows = get_or [] i rows

  abbrev pub entry : ℕ → ℕ → List (List A) → A
  entry i c rows = get_or f.zero c (row_of i rows)

  -- `Number(r === c)`.
  abbrev pub unit_entry : ℕ → ℕ → A
  unit_entry r c = if r == c then f.one else f.zero

  unfoldable pub augment : List (List A) → List (List A)
  augment matrix = map_from 0 (λ r row. row ++ tabulate (length matrix) (unit_entry r)) matrix

  -- `findIndex`, from row `r` on.
  unfoldable pub find_pivot : ℕ → ℕ → List (List A) → Option ℕ
  find_pivot col r [] = none
  find_pivot col r (row ∷ rows) =
      let rest : Option ℕ = find_pivot col (suc r) rows in
      if leb col r && not (f.is_zero (get_or f.zero col row)) then some r else rest

  -- The left side is written from first to last.
  unfoldable pub swap : ℕ → ℕ → List (List A) → List (List A)
  swap col pivot work = set_at pivot (row_of col work) (set_at col (row_of pivot work) work)

  unfoldable pub scale : A → List A → List A
  scale k row = map (λ x. x ⊗ k) row

  -- The inner loop over `c`: the row's entries changed by those of the row of the pivot.
  unfoldable pub add_multiple : A → List A → List A → List A
  add_multiple k [] row = []
  add_multiple k (w ∷ ws) [] = w ∷ ws
  add_multiple k (w ∷ ws) (x ∷ xs) = (w ⊕ k ⊗ x) ∷ add_multiple k ws xs

  unfoldable pub eliminate : ℕ → List A → List (List A) → List (List A)
  eliminate col row work =
      map_from 0 (λ r w. if r == col then w else add_multiple (get_or f.zero col w) w row) work

  -- A round of the loop over `col`, its pivot found.
  unfoldable pub reduce : ℕ → ℕ → List (List A) → List (List A)
  reduce col pivot work =
      let swapped : List (List A) = swap col pivot work in
      let row : List A = scale (f.inverse (entry col col swapped)) (row_of col swapped) in
      eliminate col row (set_at col row swapped)

  -- The loop with `n` rounds to go.
  unfoldable pub columns : ℕ → ℕ → List (List A) → Result (List (List A))
  columns zero col work = ok work
  columns (suc n) col work = elim (find_pivot col 0 work) [
    | some pivot ↦ columns n (suc col) (reduce col pivot work)
    | none ↦ err not_invertible
  ]

  unfoldable pub invert : List (List A) → Result (List (List A))
  invert matrix = do
    work ← columns (length matrix) 0 (augment matrix)
    ok (map (drop (length matrix)) work)

  -- `n` more powers of `x` behind `last`.
  unfoldable pub powers : ℕ → A → A → List A
  powers zero last x = []
  powers (suc n) last x = (last ⊗ x) ∷ powers n (last ⊗ x) x

  unfoldable pub vandermonde_row : ℕ → ℕ → List A
  vandermonde_row required r = f.one ∷ powers (required - 1) f.one (f.element r)

  unfoldable pub vandermonde : ℕ → ℕ → List (List A)
  vandermonde required total = tabulate total (vandermonde_row required)

  -- The `reduce` over a row, from index `i` on.
  unfoldable pub sum_products : A → ℕ → List A → ℕ → List (List A) → A
  sum_products sum i [] col inverse = sum
  sum_products sum i (value ∷ row) col inverse =
      sum_products (sum ⊕ value ⊗ entry i col inverse) (suc i) row col inverse

  unfoldable pub product_row : ℕ → List (List A) → List A → List A
  product_row required inverse row =
      tabulate required (λ col. sum_products f.zero 0 row col inverse)

  unfoldable pub generator : ℕ → ℕ → Result (List (List A))
  generator required total = do
    coding_bounds required total
    top_inverse ← invert (take required (vandermonde required total))
    ok (map (product_row required top_inverse) (vandermonde required total))

  -- The loop over `pos`: a byte is written where both have one, the others stay.
  unfoldable pub add_input : A → List A → List A → List A
  add_input k input [] = []
  add_input k [] (o ∷ output) = o ∷ output
  add_input k (b ∷ input) (o ∷ output) = (o ⊕ k ⊗ b) ∷ add_input k input output

  -- The loop over `i`, at the rest of both lists.
  unfoldable pub combine_onto : List A → List (List A) → List A → List A
  combine_onto coefficients [] output = output
  combine_onto [] (input ∷ inputs) output = output
  combine_onto (k ∷ coefficients) (input ∷ inputs) output =
      combine_onto coefficients inputs (if f.is_zero k then output else add_input k input output)

  unfoldable pub combine : List A → List (List A) → ℕ → List A
  combine coefficients inputs size = combine_onto coefficients inputs (replicate size f.zero)
