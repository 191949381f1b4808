-- ===== src/Direct/Messages/Json.antt =====
-- The canonical text of a value (canonicalJson of src/direct/messages.ts). What JavaScript itself does with
-- one string, `JSON.stringify`, and with one number, `String`, are parameters.
use wildbloom.Prelude.{
  ℕ, Bool, true, false, ◌&&◌, ◌||◌, if◌then◌else◌, List, [], ◌∷◌, ◌++◌, Option, none, some, ltb,
  ◌==◌,
}
use wildbloom.Prelude.Text.{Text, codes, eq_text, has_lone_surrogate}

-- A value that JSON.parse gives. A number is an integer from 0 to 2^53 - 1, or `odd` for any other one, -0 among them.
mutual
  pub data Value : Type 0 where
    null odd : Value
    boolean : Bool → Value
    number : ℕ → Value
    string : Text → Value
    array : Items → Value
    object : Fields → Value

  pub data Items : Type 0 where
    nil : Items
    item : Value → Items → Items

  pub data Fields : Type 0 where
    end : Fields
    field : Text → Value → Fields → Fields

-- `Object.keys`.
abbrev pub keys : Fields → List Text
keys end = []
keys (field k v fs) = k ∷ keys fs

-- The member with this name; `undefined` is `none`.
abbrev pub member : Text → Fields → Option Value
member name end = none
member name (field k v fs) = if eq_text name k then some v else member name fs

-- The order of `sort()`, by code units.
abbrev pub before : Text → Text → Bool
before [] [] = false
before [] (y ∷ ys) = true
before (x ∷ xs) [] = false
before (x ∷ xs) (y ∷ ys) = ltb x y || ((x == y) && before xs ys)

-- A member that was printed, in its place among those in order.
abbrev pub insert_member : Text → Text → List (Text × Text) → List (Text × Text)
insert_member k t [] = (k, t) ∷ []
insert_member k t ((j, u) ∷ rest) =
    let later = insert_member k t rest in
    if before j k then (j, u) ∷ later else (k, t) ∷ (j, u) ∷ rest

-- `join(",")`.
abbrev pub join : List Text → Text
join [] = []
join (t ∷ []) = t
join (t ∷ u ∷ ts) = t ++ (b',' ∷ join (u ∷ ts))

-- Both of two results, if neither threw.
abbrev pub both : Option Text → Option (List Text) → Option (List Text)
both none ts = none
both (some t) none = none
both (some t) (some ts) = some (t ∷ ts)

abbrev pub place :
    Text → Bool → Option Text → Option (List (Text × Text)) → Option (List (Text × Text))
place k true t ms = none
place k false none ms = none
place k false (some t) none = none
place k false (some t) (some ms) = some (insert_member k t ms)

-- What JavaScript does with one string and one number.
pub record Printer : Type 0 where
  pub quote : Text → Text
  pub decimal : ℕ → Text

module _ (printer : Printer) where
  open printer use {quote, decimal}

  abbrev pub print_string : Text → Option Text
  print_string s = if has_lone_surrogate s then none else some (quote s)

  abbrev pub print_members : List (Text × Text) → List Text
  print_members [] = []
  print_members ((k, t) ∷ rest) = (quote k ++ (b':' ∷ t)) ∷ print_members rest

  -- `canonicalJson`; `none` is the TypeError.
  unfoldable mutual
    pub canonical_json : Value → Option Text
    canonical_json null = none
    canonical_json odd = none
    canonical_json (boolean true) = some (codes "true")
    canonical_json (boolean false) = some (codes "false")
    canonical_json (number n) = some (decimal n)
    canonical_json (string s) = print_string s
    canonical_json (array xs) = elim (canonical_items xs) [
      | none ↦ none
      | some ts ↦ some (b'[' ∷ (join ts ++ (b']' ∷ [])))
    ]
    canonical_json (object fs) = elim (canonical_fields fs) [
      | none ↦ none
      | some ms ↦ some (b'{' ∷ (join (print_members ms) ++ (b'}' ∷ [])))
    ]

    pub canonical_items : Items → Option (List Text)
    canonical_items nil = some []
    canonical_items (item v xs) = both (canonical_json v) (canonical_items xs)

    -- The members in the order of their names.
    pub canonical_fields : Fields → Option (List (Text × Text))
    canonical_fields end = some []
    canonical_fields (field k v fs) =
        place k (has_lone_surrogate k) (canonical_json v) (canonical_fields fs)
