-- ===== src/Direct/Sink.antt =====
-- The sink of a browser receiver (createMemorySink of src/direct/sink.ts). Opening an envelope and hashing
-- a file are parameters; a name or a type is the list of its code units. `end` is in two steps, since
-- other calls may come while the envelope is being opened.
pub mod Verified
pub mod Opens
mod Tests
use wildbloom.Prelude.{
  ℕ, ◌+◌, Bool, true, false, not, ◌||◌, ◌&&◌, if◌then◌else◌, List, [], ◌∷◌, ◌++◌, Option, none,
  some, ltb, ◌==◌, length,
}

-- What decryptPrivacyEnvelope resolves with.
pub record File : Type 0 where
  pub name : List ℕ
  pub media_type : List ℕ
  pub bytes : List ℕ

-- `MemorySinkOptions`, less the key, which belongs to the opening.
pub record Options : Type 0 where
  pub name : List ℕ
  pub size : ℕ
  pub media_type : List ℕ
  pub envelope_bytes : ℕ

-- The envelope that is being opened, with what END named.
pub record Opening : Type 0 where
  pub envelope : List ℕ
  pub sha256 : List ℕ
  pub size : ℕ

-- The variables of `createMemorySink`; `parts` are held as one list.
pub record Sink : Type 0 where
  pub options : Options
  pub parts : Option (List ℕ)
  pub held : ℕ
  pub opening : Option Opening
  pub file : Option File
  pub refusals : ℕ  -- how many calls rejected

abbrev pub fresh : Options → Sink
fresh options = record {
  options = options;
  parts = some [];
  held = 0;
  opening = none;
  file = none;
  refusals = 0;
}

abbrev pub refuse : Sink → Sink
refuse s = record s { refusals = s.refusals + 1 }

-- `===` on strings and on digests.
abbrev pub same : List ℕ → List ℕ → Bool
same [] [] = true
same (x ∷ xs) (y ∷ ys) = (x == y) && same xs ys
same [] (y ∷ ys) = false
same (x ∷ xs) [] = false

-- `write(bytes)`.
pub write : List ℕ → Option (List ℕ) → Sink → Sink
write bytes none s = refuse s
write bytes (some parts) s =
    if ltb s.options.envelope_bytes (s.held + length bytes)
    then refuse s
    else record s { parts = some (parts ++ bytes); held = s.held + length bytes }

-- `end(end)`, up to the opening.
pub begin_end : List ℕ → ℕ → Option (List ℕ) → Sink → Sink
begin_end sha256 size none s = refuse s
begin_end sha256 size (some parts) s =
    if not (s.held == s.options.envelope_bytes) then refuse s else record s {
      parts = none;
      opening = some (record { envelope = parts; sha256 = sha256; size = size });
    }

-- The checks of `end` on what was opened.
abbrev pub is_named : Options → File → Bool
is_named options opened =
    same opened.name options.name
    && same opened.media_type options.media_type
    && (length opened.bytes == options.size)

-- `abort()`.
pub abort : Sink → Sink
abort s = record s { parts = none; file = none }

pub data Event : Type 0 where
  writes : List ℕ → Event
  ends : List ℕ → ℕ → Event
  opens aborts : Event

-- `decrypt` opens an envelope with the key, and `hash` is SHA-256.
module _ (decrypt : List ℕ → Option File) (hash : List ℕ → List ℕ) where
  -- The checks of `end` behind the opening, which may have rejected.
  pub check_opened : Option File → Opening → Sink → Sink
  check_opened none o s = refuse s
  check_opened (some opened) o s =
      if is_named s.options opened
        && (length opened.bytes == o.size)
        && same (hash opened.bytes) o.sha256
      then record s { file = some opened }
      else refuse s

  -- `end`, from the opened envelope on.
  unfoldable pub finish_end : Option Opening → Sink → Sink
  finish_end none s = s
  finish_end (some o) s =
      let s' = record s { opening = none } in check_opened (decrypt o.envelope) o s'

  unfoldable pub step : Event → Sink → Sink
  step (writes bytes) s = write bytes s.parts s
  step (ends sha256 size) s = begin_end sha256 size s.parts s
  step opens s = finish_end s.opening s
  step aborts s = abort s

  pub run : List Event → Sink → Sink
  unfolding step write begin_end finish_end check_opened abort
  run [] s = s
  run (e ∷ es) s = run es (step e s)
