-- ===== src/Core/Names.antt =====
-- The rule for file names (sanitiseFileName of src/core/security.ts). `normalize("NFC")` is a parameter.
pub mod Shape
pub mod FixedPoint
mod Tests
use wildbloom.Prelude.{
  ℕ, Bool, false, ◌&&◌, ◌||◌, if◌then◌else◌, [], ◌∷◌, leb, ◌==◌, length, take, drop, map,
}
use wildbloom.Prelude.Text.{Text, codes, some_of, is_space, is_control, is_high, is_low}

abbrev pub is_slash : ℕ → Bool
is_slash c = (c == 92) || (c == 47)

-- `split(/[\\/]/u).at(-1)`.
abbrev pub leaf_of : Text → Text
leaf_of [] = []
leaf_of (c ∷ s) = let rest = leaf_of s in if is_slash c || some_of is_slash s then rest else c ∷ s

-- `replace(/[\u0000-\u001f\u007f]/gu, "")`.
abbrev pub without_controls : Text → Text
without_controls [] = []
without_controls (c ∷ s) = let rest = without_controls s in if is_control c then rest else c ∷ rest

-- `replace(/[<>:"|?*]/gu, "_")`.
abbrev pub is_reserved : ℕ → Bool
is_reserved c = some_of (λ d. c == d) (60 ∷ 62 ∷ 58 ∷ 34 ∷ 124 ∷ 63 ∷ 42 ∷ [])

abbrev pub replace_reserved : ℕ → ℕ
replace_reserved c = if is_reserved c then 95 else c

-- `replace(/^[\s.]+/u, "")`.
abbrev pub trim_lead : Text → Text
trim_lead [] = []
trim_lead (c ∷ s) = let rest = trim_lead s in if is_space c || (c == 46) then rest else c ∷ s

abbrev pub keep_unless_blank : ℕ → Text → Text
keep_unless_blank c [] = if is_space c then [] else c ∷ []
keep_unless_blank c (d ∷ s) = c ∷ d ∷ s

-- `trimEnd()`.
abbrev pub trim_end : Text → Text
trim_end [] = []
trim_end (c ∷ s) = keep_unless_blank c (trim_end s)

abbrev pub or_blob : Text → Text
or_blob [] = codes "blob.bin"
or_blob (c ∷ s) = c ∷ s

-- Whether the 180th unit and the next one are a pair.
abbrev pub splits_pair : Text → Bool
splits_pair (h ∷ l ∷ s) = is_high h && is_low l
splits_pair _ = false

abbrev pub shorten : Text → Text
shorten s =
    if leb (length s) 180
    then s
    else trim_end (take (if splits_pair (drop 179 s) then 179 else 180) s)

-- `sanitiseFileName`, for what `normalize("NFC")` is.
unfoldable pub sanitise_file_name : (Text → Text) → Text → Text
sanitise_file_name nfc value =
    shorten (
      or_blob
        (trim_end (trim_lead (map replace_reserved (nfc (without_controls (leaf_of value)))))))
