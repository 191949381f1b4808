-- ===== src/Core/Names/Shape.antt =====
-- The shape of the names that the rule makes (sanitiseFileName of src/core/security.ts).
use wildbloom.Prelude.{
  ℕ, ◌≡◌, ◌≤◌, refl, zero, suc, Bool, true, false, not, ◌&&◌, ◌||◌, if◌then◌else◌, [], ◌∷◌, leb,
  ◌==◌, length, length-take, take, drop, map, arith, Bool-cases, inl, inr,
}
use wildbloom.Prelude.Text.{Text, both_hold, every, some_of, is_space, is_control}
use wildbloom.Core.Names.{
  is_slash, leaf_of, without_controls, is_reserved, replace_reserved, trim_lead, keep_unless_blank,
  trim_end, or_blob, splits_pair, shorten, sanitise_file_name,
}

-- A unit that is no slash and no control character.
abbrev pub is_visible : ℕ → Bool
is_visible c = not (is_slash c) && not (is_control c)

-- A unit that a name may have.
abbrev pub is_allowed : ℕ → Bool
is_allowed c = is_visible c && not (is_reserved c)

-- The first unit is neither white space nor a dot.
abbrev pub starts_well : Text → Bool
starts_well [] = true
starts_well (c ∷ s) = not (is_space c || (c == 46))

slashless : (s : Text) → some_of is_slash s ≡ false → every (λ c. not (is_slash c)) s ≡ true
slashless [] h = refl
slashless (c ∷ s) h = let g = slashless s in ground arith

leaf_of_slashless : (s : Text) → every (λ c. not (is_slash c)) (leaf_of s) ≡ true
leaf_of_slashless [] = refl
leaf_of_slashless (c ∷ s) =
    let g = leaf_of_slashless s in
    elim (Bool-cases (is_slash c || some_of is_slash s)) [
      | inl t ↦ simp t g
      | inr t ↦ simp t (slashless (c ∷ s) t)
    ]

without_controls_visible :
    (s : Text)
    → every (λ c. not (is_slash c)) s ≡ true
    → every is_visible (without_controls s) ≡ true
without_controls_visible [] h = refl
without_controls_visible (c ∷ s) h = let g = without_controls_visible s in ground arith

replace_allowed : (c : ℕ) → is_visible c ≡ true → is_allowed (replace_reserved c) ≡ true
replace_allowed c h = elim (Bool-cases (is_reserved c)) [
  | inl t ↦ simp t refl
  | inr t ↦ simp (t, h)
]

map_replace_allowed :
    (s : Text) → every is_visible s ≡ true → every is_allowed (map replace_reserved s) ≡ true
map_replace_allowed [] h = refl
map_replace_allowed (c ∷ s) h =
    let (visible, rest) = both_hold (is_visible c) (every is_visible s) h in
    simp (replace_allowed c visible, map_replace_allowed s rest)

module _ (p : ℕ → Bool) where
  every-trim_lead : (s : Text) → every p s ≡ true → every p (trim_lead s) ≡ true
  every-trim_lead [] h = refl
  every-trim_lead (c ∷ s) h = let g = every-trim_lead s in ground arith

  every-keep :
      (c : ℕ) (s : Text) → p c ≡ true → every p s ≡ true → every p (keep_unless_blank c s) ≡ true
  every-keep c [] h g = ground arith
  every-keep c (d ∷ s) h g = ground arith

  every-trim_end : (s : Text) → every p s ≡ true → every p (trim_end s) ≡ true
  every-trim_end [] h = refl
  every-trim_end (c ∷ s) h =
      let k = every-keep c (trim_end s) in let g = every-trim_end s in ground arith

  every-take : (n : ℕ) (s : Text) → every p s ≡ true → every p (take n s) ≡ true
  every-take zero s h = refl
  every-take (suc n) [] h = refl
  every-take (suc n) (c ∷ s) h = let g = every-take n s in ground arith

  every-shorten : (s : Text) → every p s ≡ true → every p (shorten s) ≡ true
  every-shorten s h = elim (Bool-cases (leb (length s) 180)) [
    | inl t ↦ simp t h
    | inr t ↦
        simp t (every-trim_end _ (every-take (if splits_pair (drop 179 s) then 179 else 180) s h))
  ]

starts_well-trim_lead : (s : Text) → starts_well (trim_lead s) ≡ true
starts_well-trim_lead [] = refl
starts_well-trim_lead (c ∷ s) =
    let g = starts_well-trim_lead s in
    elim (Bool-cases (is_space c || (c == 46))) [ inl t ↦ simp t g | inr t ↦ simp t refl ]

starts_well-keep :
    (c : ℕ) (s : Text) → starts_well (c ∷ s) ≡ true → starts_well (keep_unless_blank c s) ≡ true
starts_well-keep c [] h = ground arith
starts_well-keep c (d ∷ s) h = h

starts_well-trim_end : (s : Text) → starts_well s ≡ true → starts_well (trim_end s) ≡ true
starts_well-trim_end [] h = refl
starts_well-trim_end (c ∷ s) h = starts_well-keep c (trim_end s) h

trim_end-keep :
    (c : ℕ) (s : Text) → trim_end s ≡ s → trim_end (keep_unless_blank c s) ≡ keep_unless_blank c s
trim_end-keep c [] h = elim (Bool-cases (is_space c)) [ inl t ↦ simp t refl | inr t ↦ simp t refl ]
trim_end-keep c (d ∷ s) h = rw h

trim_end-trim_end : (s : Text) → trim_end (trim_end s) ≡ trim_end s
trim_end-trim_end [] = refl
trim_end-trim_end (c ∷ s) = trim_end-keep c (trim_end s) (trim_end-trim_end s)

length-keep : (c : ℕ) (s : Text) → length (keep_unless_blank c s) ≤ length (c ∷ s)
length-keep c [] = ground arith
length-keep c (d ∷ s) = omega arith

length-trim_end : (s : Text) → length (trim_end s) ≤ length s
length-trim_end [] = omega arith
length-trim_end (c ∷ s) = omega (arith, length-keep c (trim_end s), length-trim_end s)

abbrev pub is_empty : Text → Bool
is_empty [] = true
is_empty (c ∷ s) = false

keep_filled :
    (c : ℕ) (s : Text) → starts_well (c ∷ []) ≡ true → is_empty (keep_unless_blank c s) ≡ false
keep_filled c [] h = ground arith
keep_filled c (d ∷ s) h = refl

-- A name of the rule's form.
pub record IsName (s : Text) : Type 0 where
  pub allowed : every is_allowed s ≡ true
  pub start : starts_well s ≡ true
  pub trimmed : trim_end s ≡ s
  pub filled : is_empty s ≡ false
  pub short : length s ≤ 180

-- It has this form but for its length.
record Long (s : Text) : Type 0 where
  pub allowed : every is_allowed s ≡ true
  pub start : starts_well s ≡ true
  pub trimmed : trim_end s ≡ s
  pub filled : is_empty s ≡ false

or_blob-Long :
    (s : Text)
    → every is_allowed s ≡ true
    → starts_well s ≡ true
    → trim_end s ≡ s
    → Long (or_blob s)
or_blob-Long [] a b c = record { allowed = refl; start = refl; trimmed = refl; filled = refl }
or_blob-Long (d ∷ s) a b c = record { allowed = a; start = b; trimmed = c; filled = refl }

cut-IsName :
    (n : ℕ) (c : ℕ) (s : Text)
    → suc n ≤ 180
    → every is_allowed (c ∷ s) ≡ true
    → starts_well (c ∷ s) ≡ true
    → IsName (trim_end (take (suc n) (c ∷ s)))
cut-IsName n c s q a b = record {
  allowed = every-trim_end is_allowed (c ∷ take n s) (every-take is_allowed (suc n) (c ∷ s) a);
  start = starts_well-trim_end (c ∷ take n s) b;
  trimmed = trim_end-trim_end (c ∷ take n s);
  filled = keep_filled c (trim_end (take n s)) b;
  short = omega (arith, length-trim_end (c ∷ take n s), length-take n s, q);
}

shorten-IsName : (s : Text) → Long s → IsName (shorten s)
shorten-IsName [] l = cc l.filled
shorten-IsName (c ∷ s) l = elim (Bool-cases (leb (length (c ∷ s)) 180)) [
  | inl t ↦ simp t (record {
    allowed = l.allowed;
    start = l.start;
    trimmed = l.trimmed;
    filled = refl;
    short = ground arith;
  })
  | inr t ↦ elim (Bool-cases (splits_pair (drop 179 (c ∷ s)))) [
    | inl u ↦ simp (t, u) (cut-IsName 178 c s (omega arith) l.allowed l.start)
    | inr u ↦ simp (t, u) (cut-IsName 179 c s (omega arith) l.allowed l.start)
  ]
]

-- Whatever text comes in, the name that is made of it is not empty, has at most 180 units, has no slash, no control
-- character and none of the reserved characters, and neither begins with white space or a dot nor ends with white
-- space; NFC is taken to bring in no slash and no control character.
pub sanitise_file_name-IsName :
    (nfc : Text → Text) (value : Text)
    → ((s : Text) → every is_visible s ≡ true → every is_visible (nfc s) ≡ true)
    → IsName (sanitise_file_name nfc value)
unfolding sanitise_file_name
sanitise_file_name-IsName nfc value v =
    let shown = without_controls (leaf_of value) in
    let marked = map replace_reserved (nfc shown) in
    let a =
      map_replace_allowed (nfc shown)
        (v shown (without_controls_visible (leaf_of value) (leaf_of_slashless value))) in
    shorten-IsName (or_blob (trim_end (trim_lead marked))) (
      or_blob-Long (trim_end (trim_lead marked))
        (every-trim_end is_allowed (trim_lead marked) (every-trim_lead is_allowed marked a))
        (starts_well-trim_end (trim_lead marked) (starts_well-trim_lead marked))
        (trim_end-trim_end (trim_lead marked)))
