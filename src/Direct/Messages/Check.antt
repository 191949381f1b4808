-- ===== src/Direct/Messages/Check.antt =====
-- How a reader of messages refuses, and what it asks of a value (src/direct/messages.ts).
use wildbloom.Prelude.{ℕ, ◌+◌, Bool, ◌&&◌, if◌then◌else◌, List, Option, none, some, ◌==◌, length}
use wildbloom.Prelude.Text.{Text, every, includes}
use wildbloom.Direct.Messages.Json.{
  Value, Items, Fields, boolean, number, string, array, object, nil, item, keys,
}
use wildbloom.Direct.Messages.{Decoded, read, refused_failed, refused_unsupported}

infixl 5 ◌then_read◌
abbrev pub ◌then_read◌ {ℓ κ} : {A : Type ℓ} {B : Type κ} → Decoded A → (A → Decoded B) → Decoded B
refused_failed then_read next = refused_failed
refused_unsupported then_read next = refused_unsupported
(read a) then_read next = next a

abbrev pub check : Bool → Decoded (Unit {0})
check passed = if passed then read tt else refused_failed

-- `hasExactly`.
abbrev pub has_exactly : List Text → Fields → Bool
has_exactly names fs =
    (length (keys fs) == length names) && every (λ name. includes name (keys fs)) names

abbrev pub as_text : Option Value → Decoded Text
as_text (some (string s)) = read s
as_text _ = refused_failed

-- `typeof value === "number"`, of a value that is canonical.
abbrev pub as_number : Option Value → Decoded ℕ
as_number (some (number n)) = read n
as_number _ = refused_failed

abbrev pub as_boolean : Option Value → Decoded Bool
as_boolean (some (boolean b)) = read b
as_boolean _ = refused_failed

abbrev pub as_items : Option Value → Decoded Items
as_items (some (array xs)) = read xs
as_items _ = refused_failed

abbrev pub as_fields : Value → Decoded Fields
as_fields (object fs) = read fs
as_fields _ = refused_failed

abbrev pub count : Items → ℕ
count nil = 0
count (item v xs) = 1 + count xs

abbrev pub or_failed {ℓ} : {A : Type ℓ} → Option A → Decoded A
or_failed none = refused_failed
or_failed (some a) = read a
