-- ===== src/Direct/Messages/Grammar.antt =====
-- The texts of a value in JSON's grammar, without white space, and that the canonical text is one of them
-- (canonicalJson of src/direct/messages.ts).
use wildbloom.Prelude.{
  ◌≡◌, refl, ap, Bool, true, false, not, ◌&&◌, List, [], ◌∷◌, ◌++◌, some, inl, inr, arith,
  Option-cases, Bool-cases,
}
use wildbloom.Prelude.Text.{Text, codes, both_hold, has_lone_surrogate}
use wildbloom.Direct.Messages.Json.{
  Value, null, odd, boolean, number, string, array, object, Items, nil, item, Fields, end, field,
  before, insert_member, join, Printer, print_members, canonical_json, canonical_items,
  canonical_fields,
}

module _ (printer : Printer) where
  open printer use {quote, decimal}

  -- A number that is `odd` has no text here.
  unfoldable mutual
    pub Spells : Value → Text → Type 0
    Spells null t = t ≡ codes "null"
    Spells odd t = ⊥
    Spells (boolean true) t = t ≡ codes "true"
    Spells (boolean false) t = t ≡ codes "false"
    Spells (number n) t = t ≡ decimal n
    Spells (string s) t = t ≡ quote s
    Spells (array xs) t =
        (inside : Text) × SpellsItems xs inside × (t ≡ b'[' ∷ (inside ++ (b']' ∷ [])))
    Spells (object fs) t =
        (inside : Text) × SpellsFields fs inside × (t ≡ b'{' ∷ (inside ++ (b'}' ∷ [])))

    pub SpellsItems : Items → Text → Type 0
    SpellsItems nil t = t ≡ []
    SpellsItems (item v nil) t = Spells v t
    SpellsItems (item v (item w xs)) t =
        (a : Text) × (b : Text) × Spells v a × SpellsItems (item w xs) b × (t ≡ a ++ (b',' ∷ b))

    pub SpellsFields : Fields → Text → Type 0
    SpellsFields end t = t ≡ []
    SpellsFields (field k v end) t = (a : Text) × Spells v a × (t ≡ quote k ++ (b':' ∷ a))
    SpellsFields (field k v (field j w fs)) t =
        (a : Text) × (b : Text) × Spells v a
        × SpellsFields (field j w fs) b
        × (t ≡ (quote k ++ (b':' ∷ a)) ++ (b',' ∷ b))

-- The members of every object are in the order of their names.
abbrev pub ascends : Text → Fields → Bool
ascends k end = true
ascends k (field j v fs) = not (before j k)

unfoldable mutual
  pub is_ordered : Value → Bool
  is_ordered (array xs) = are_ordered xs
  is_ordered (object fs) = has_order fs
  is_ordered _ = true

  pub are_ordered : Items → Bool
  are_ordered nil = true
  are_ordered (item v xs) = is_ordered v && are_ordered xs

  pub has_order : Fields → Bool
  has_order end = true
  has_order (field k v fs) = is_ordered v && has_order fs && ascends k fs

module _ (printer : Printer) where
  -- Each item with its text, and each member with its name and its text.
  unfoldable Lists : Items → List Text → Type 0
  Lists nil ts = ts ≡ []
  Lists (item v xs) ts =
      (t : Text) × (rest : List Text) × (ts ≡ t ∷ rest) × Spells printer v t × Lists xs rest

  unfoldable Matches : Fields → List (Text × Text) → Type 0
  Matches end ms = ms ≡ []
  Matches (field k v fs) ms =
      (t : Text) × (rest : List (Text × Text)) × (ms ≡ (k, t) ∷ rest)
      × Spells printer v t
      × Matches fs rest

  join-Lists : (xs : Items) (ts : List Text) → Lists xs ts → SpellsItems printer xs (join ts)
  unfolding Lists Spells
  join-Lists nil ts h = ap join h
  join-Lists (item v nil) ts (t, rest, e, s, r) = rw (e, r) s
  join-Lists (item v (item w xs)) ts (t, rest, e, s, (u, more, e2, s2, r)) =
      let k = join-Lists (item w xs) (u ∷ more) (u, more, refl, s2, r) in
      rw (e, e2) (t, join (u ∷ more), s, k, refl)

  join-Matches :
      (fs : Fields) (ms : List (Text × Text))
      → Matches fs ms
      → SpellsFields printer fs (join (print_members printer ms))
  unfolding Matches Spells
  join-Matches end ms h = rw h refl
  join-Matches (field k v end) ms (t, rest, e, s, r) = rw (e, r) (t, s, refl)
  join-Matches (field k v (field j w fs)) ms (t, rest, e, s, (u, more, e2, s2, r)) =
      let q = join-Matches (field j w fs) ((j, u) ∷ more) (u, more, refl, s2, r) in
      rw (e, e2) (t, join (print_members printer ((j, u) ∷ more)), s, q, refl)

insert_first :
    (printer : Printer) (k t : Text) (fs : Fields) (ms : List (Text × Text))
    → Matches printer fs ms
    → ascends k fs ≡ true
    → insert_member k t ms ≡ (k, t) ∷ ms
unfolding Matches
insert_first printer k t end ms h o = rw h refl
insert_first printer k t (field j v fs) ms (u, rest, e, s, r) o = rw e (ground arith)

module _ (printer : Printer) where
  open printer use {quote, decimal}

  -- The canonical text of a value whose objects are in order is a text of that value in JSON's grammar.
  mutual
    unfolding canonical_json is_ordered Spells Lists Matches

    pub canonical-Spells :
        (v : Value) (t : Text)
        → canonical_json printer v ≡ some t
        → is_ordered v ≡ true
        → Spells printer v t
    canonical-Spells null t h o = ground arith
    canonical-Spells odd t h o = ground arith
    canonical-Spells (boolean true) t h o = ground arith
    canonical-Spells (boolean false) t h o = ground arith
    canonical-Spells (number n) t h o = ground arith
    canonical-Spells (string s) t h o = ground arith
    canonical-Spells (array xs) t h o = elim (Option-cases (canonical_items printer xs)) [
      | inr n ↦ grind (arith, n, h)
      | inl (ts, e) ↦
          (join ts, join-Lists printer xs ts (canonical-Lists xs ts e o), grind (arith, e, h))
    ]
    canonical-Spells (object fs) t h o = elim (Option-cases (canonical_fields printer fs)) [
      | inr n ↦ grind (arith, n, h)
      | inl (ms, e) ↦ (
        join (print_members printer ms),
        join-Matches printer fs ms (canonical-Matches fs ms e o),
        grind (arith, e, h),
      )
    ]

    canonical-Lists :
        (xs : Items) (ts : List Text)
        → canonical_items printer xs ≡ some ts
        → are_ordered xs ≡ true
        → Lists printer xs ts
    canonical-Lists nil ts h o = ground arith
    canonical-Lists (item v xs) ts h o =
        let (first, others) = both_hold (is_ordered v) (are_ordered xs) o in
        elim (Option-cases (canonical_json printer v)) [
          | inr n ↦ grind (arith, n, h)
          | inl (t, e) ↦ elim (Option-cases (canonical_items printer xs)) [
            | inr n ↦ grind (arith, n, e, h)
            | inl (rest, r) ↦ (
              t,
              rest,
              grind (arith, e, r, h),
              canonical-Spells v t e first,
              canonical-Lists xs rest r others,
            )
          ]
        ]

    canonical-Matches :
        (fs : Fields) (ms : List (Text × Text))
        → canonical_fields printer fs ≡ some ms
        → has_order fs ≡ true
        → Matches printer fs ms
    canonical-Matches end ms h o = ground arith
    canonical-Matches (field k v fs) ms h o =
        let (a, ascending) = both_hold _ (ascends k fs) o in
        let (first, others) = both_hold (is_ordered v) (has_order fs) a in
        elim (Bool-cases (has_lone_surrogate k)) [
          | inl y ↦ grind (arith, y, h)
          | inr y ↦ elim (Option-cases (canonical_json printer v)) [
            | inr n ↦ grind (arith, n, y, h)
            | inl (t, e) ↦ elim (Option-cases (canonical_fields printer fs)) [
              | inr n ↦ grind (arith, n, e, y, h)
              | inl (rest, r) ↦
                  let q = canonical-Matches fs rest r others in
                  let p = insert_first printer k t fs rest q ascending in
                  (t, rest, grind (arith, y, e, r, h, p), canonical-Spells v t e first, q)
            ]
          ]
        ]
