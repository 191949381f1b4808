-- ===== src/Direct/Kept/Tests.antt =====
-- A small file from DATA frames to the memory sink (src/direct/transfer.ts, src/direct/sink.ts).
use wildbloom.Prelude.{ℕ, ◌≡◌, refl, List, [], ◌∷◌, Option, some, drop, length, replicate, arith}
use wildbloom.Direct.Receiver.{outcome, resolves}
use wildbloom.Direct.Sink.{File, Options}
use wildbloom.Direct.Kept.{frames, begun, deliver_all, kept_file}

-- Stand-ins for the opening of an envelope and for SHA-256.
abbrev decrypt : List ℕ → Option File
decrypt envelope = some (record { name = 97 ∷ []; media_type = []; bytes = drop 2 envelope })

abbrev hash : List ℕ → List ℕ
hash bytes = replicate 32 (length bytes)

abbrev options : Options
options = record { name = 97 ∷ []; size = 1; media_type = []; envelope_bytes = 3 }

abbrev chunks : List (List ℕ)
chunks = (8 ∷ 9 ∷ []) ∷ (7 ∷ []) ∷ []

abbrev file : File
file = record { name = 97 ∷ []; media_type = []; bytes = 7 ∷ [] }

kept_file_example :
    let p = deliver_all decrypt hash (frames 0 chunks (hash (7 ∷ [])) 1) (begun options) in
    (outcome p.receiver ≡ resolves) × (p.sink.file ≡ some file)
kept_file_example =
    kept_file decrypt hash options chunks file (ground arith) refl (omega arith) refl (omega arith)
      refl refl refl refl
