-- ===== src/Direct/Sink/Tests.antt =====
-- The memory sink's theorems on one file (src/direct/sink.ts).
use wildbloom.Prelude.{ℕ, ◌≡◌, refl, List, [], ◌∷◌, Option, some, drop, length, replicate}
use wildbloom.Direct.Sink.{File, Options, Event, writes, ends, opens, run}
use wildbloom.Direct.Sink.Verified.{IsVerified, sink-IsVerified}

-- Stand-ins for the opening of an envelope and for SHA-256.
abbrev decrypt : List ℕ → Option File
decrypt envelope = some (record { name = 97 ∷ []; media_type = []; bytes = drop 2 envelope })

abbrev hash : List ℕ → List ℕ
hash bytes = replicate 32 (length bytes)

abbrev options : Options
options = record { name = 97 ∷ []; size = 1; media_type = []; envelope_bytes = 3 }

abbrev file : File
file = record { name = 97 ∷ []; media_type = []; bytes = 7 ∷ [] }

abbrev digest : List ℕ
digest = replicate 32 1

abbrev events : List Event
events = writes (8 ∷ 9 ∷ []) ∷ writes (7 ∷ []) ∷ ends digest 1 ∷ opens ∷ []

sink-IsVerified_example : IsVerified decrypt hash options file × (hash (7 ∷ []) ≡ digest)
unfolding run
sink-IsVerified_example =
    sink-IsVerified decrypt hash (λ h n. h ≡ digest) options events file
      (tt, (tt, (refl, (tt, tt)))) refl
