-- ===== src/Core/Names/FixedPoint.antt =====
-- The names that the rule for file names makes are its fixed points (sanitiseFileName of src/core/security.ts).
use wildbloom.Prelude.{
  ℕ, ◌≡◌, ◌≤◌, refl, sym, ap, subst, ◌∙◌, true, false, not, ◌||◌, if◌then◌else◌, [], ◌∷◌, ◌++◌, leb,
  ◌==◌, length, take, drop, take-append-drop, map, arith, Bool-cases, inl, inr,
}
use wildbloom.Prelude.Text.{Text, both_hold, not_held, codes, every, some_of, is_space, is_control}
use wildbloom.Core.Names.{
  is_slash, leaf_of, without_controls, is_reserved, replace_reserved, trim_lead, keep_unless_blank,
  trim_end, or_blob, splits_pair, shorten, sanitise_file_name,
}
use wildbloom.Core.Names.Shape.{
  is_visible, is_allowed, starts_well, is_empty, IsName, sanitise_file_name-IsName,
}

no_slash : (s : Text) → every is_allowed s ≡ true → some_of is_slash s ≡ false
no_slash [] h = refl
no_slash (c ∷ s) h =
    let (a, b) = both_hold (is_allowed c) (every is_allowed s) h in
    let g = no_slash s b in ground arith

leaf_of_fixed : (s : Text) → every is_allowed s ≡ true → leaf_of s ≡ s
leaf_of_fixed [] h = refl
leaf_of_fixed (c ∷ s) h = simp (no_slash (c ∷ s) h) refl

without_controls_fixed : (s : Text) → every is_allowed s ≡ true → without_controls s ≡ s
without_controls_fixed [] h = refl
without_controls_fixed (c ∷ s) h =
    let (a, b) = both_hold (is_allowed c) (every is_allowed s) h in
    let k : is_control c ≡ false = ground arith in simp (k, without_controls_fixed s b)

map_replace_fixed : (s : Text) → every is_allowed s ≡ true → map replace_reserved s ≡ s
map_replace_fixed [] h = refl
map_replace_fixed (c ∷ s) h =
    let (a, b) = both_hold (is_allowed c) (every is_allowed s) h in
    let (x, r) = both_hold (is_visible c) (not (is_reserved c)) a in
    let k : is_reserved c ≡ false = not_held (is_reserved c) r in simp (k, map_replace_fixed s b)

trim_lead_fixed : (s : Text) → starts_well s ≡ true → trim_lead s ≡ s
trim_lead_fixed [] h = refl
trim_lead_fixed (c ∷ s) h =
    let k : (is_space c || (c == 46)) ≡ false = not_held (is_space c || (c == 46)) h in simp k refl

or_blob_fixed : (s : Text) → is_empty s ≡ false → or_blob s ≡ s
or_blob_fixed [] h = cc h
or_blob_fixed (c ∷ s) h = refl

shorten_fixed : (s : Text) → length s ≤ 180 → shorten s ≡ s
shorten_fixed s h = let k : leb (length s) 180 ≡ true = ground arith in simp k refl

-- A name of the rule's form that is in NFC is left as it is.
pub sanitise_file_name_fixed :
    (nfc : Text → Text) (s : Text) → IsName s → nfc s ≡ s → sanitise_file_name nfc s ≡ s
unfolding sanitise_file_name
sanitise_file_name_fixed nfc s n q = simp (
  leaf_of_fixed s n.allowed,
  without_controls_fixed s n.allowed,
  q,
  map_replace_fixed s n.allowed,
  trim_lead_fixed s n.start,
  n.trimmed,
  or_blob_fixed s n.filled,
  shorten_fixed s n.short,
)

keep_rest : (c : ℕ) (t ys : Text) → (zs : Text) × (keep_unless_blank c t ++ zs ≡ c ∷ (t ++ ys))
keep_rest c [] ys = elim (Bool-cases (is_space c)) [
  | inl t ↦ (c ∷ ys, simp t refl)
  | inr t ↦ (ys, simp t refl)
]
keep_rest c (d ∷ t) ys = (ys, refl)

-- What is trimmed off the end stood behind the rest.
trim_end_rest : (s : Text) → (ys : Text) × (trim_end s ++ ys ≡ s)
trim_end_rest [] = ([], refl)
trim_end_rest (c ∷ s) =
    let (ys, e) = trim_end_rest s in
    let (zs, f) = keep_rest c (trim_end s) ys in (zs, f ∙ ap (λ w. c ∷ w) e)

-- For a form that is closed under taking parts.
module _ (nfc : Text → Text) (suffix : (c : ℕ) (s : Text) → nfc (c ∷ s) ≡ c ∷ s → nfc s ≡ s)
    (prefix : (s ys : Text) → nfc (s ++ ys) ≡ s ++ ys → nfc s ≡ s) where
  trim_lead_normal : (s : Text) → nfc s ≡ s → nfc (trim_lead s) ≡ trim_lead s
  trim_lead_normal [] h = h
  trim_lead_normal (c ∷ s) h = elim (Bool-cases (is_space c || (c == 46))) [
    | inl t ↦ simp t (trim_lead_normal s (suffix c s h))
    | inr t ↦ simp t h
  ]

  part_normal : (s ys whole : Text) → s ++ ys ≡ whole → nfc whole ≡ whole → nfc s ≡ s
  part_normal s ys whole e h = prefix s ys (subst (λ w. nfc w ≡ w) (sym e) h)

  trim_end_normal : (s : Text) → nfc s ≡ s → nfc (trim_end s) ≡ trim_end s
  trim_end_normal s h = let (ys, e) = trim_end_rest s in part_normal (trim_end s) ys s e h

  shorten_normal : (s : Text) → nfc s ≡ s → nfc (shorten s) ≡ shorten s
  shorten_normal s h =
      let n = if splits_pair (drop 179 s) then 179 else 180 in
      elim (Bool-cases (leb (length s) 180)) [
        | inl t ↦ simp t h
        | inr t ↦ simp t (
            trim_end_normal (take n s)
              (part_normal (take n s) (drop n s) s (take-append-drop n s) h))
      ]

  or_blob_normal :
      (s : Text)
      → nfc (codes "blob.bin") ≡ codes "blob.bin"
      → nfc s ≡ s
      → nfc (or_blob s) ≡ or_blob s
  or_blob_normal [] b h = b
  or_blob_normal (c ∷ s) b h = h

-- The rule applied to its own result changes nothing, as the readers of stored names require; NFC is taken to bring in
-- no slash and no control character, to leave what is in NFC and ASCII as it is, and to be closed under taking parts
-- of a text and under replacing the reserved characters.
pub sanitise_file_name_twice :
    (nfc : Text → Text) (value : Text)
    → ((s : Text) → every is_visible s ≡ true → every is_visible (nfc s) ≡ true)
    → ((s : Text) → nfc (nfc s) ≡ nfc s)
    → ((s : Text) → every (λ c. leb c 127) s ≡ true → nfc s ≡ s)
    → ((c : ℕ) (s : Text) → nfc (c ∷ s) ≡ c ∷ s → nfc s ≡ s)
    → ((s ys : Text) → nfc (s ++ ys) ≡ s ++ ys → nfc s ≡ s)
    → ((s : Text) → nfc s ≡ s → nfc (map replace_reserved s) ≡ map replace_reserved s)
    → sanitise_file_name nfc (sanitise_file_name nfc value) ≡ sanitise_file_name nfc value
unfolding sanitise_file_name
sanitise_file_name_twice nfc value visible idem ascii suffix prefix marked =
    let shown = nfc (without_controls (leaf_of value)) in
    let m = map replace_reserved shown in
    let lead =
      trim_lead_normal nfc suffix prefix m
        (marked shown (idem (without_controls (leaf_of value)))) in
    let trimmed = trim_end_normal nfc suffix prefix (trim_lead m) lead in
    sanitise_file_name_fixed nfc (sanitise_file_name nfc value)
      (sanitise_file_name-IsName nfc value visible)
      (shorten_normal nfc suffix prefix (or_blob (trim_end (trim_lead m))) (
        or_blob_normal nfc suffix prefix (trim_end (trim_lead m)) (ascii (codes "blob.bin") refl)
          trimmed))
