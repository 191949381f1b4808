-- ===== src/Direct/Frames/Tests.antt =====
-- The frame theorems at concrete frames (src/direct/frames.ts).
use wildbloom.Prelude.{◌≡◌, refl, List, [], ◌∷◌, ℕ, arith}
use wildbloom.Direct.Frames.{Role, data_frame, ok, decode_frame}
use wildbloom.Direct.Frames.RoundTrip.{encode, decode-encode}
use wildbloom.Direct.Frames.Canonical.{IsCanonical, decode_frame-IsCanonical}

abbrev far : ℕ
far = 4294967809

decode-encode_example :
    (bytes : List ℕ) × (encode (data_frame far (7 ∷ 8 ∷ [])) ≡ ok bytes)
    × (decode_frame Role.sender bytes ≡ ok (data_frame far (7 ∷ 8 ∷ [])))
decode-encode_example =
    decode-encode Role.sender (data_frame far (7 ∷ 8 ∷ []))
      (refl, omega arith, omega arith, omega arith)

abbrev message : List ℕ
message = 1 ∷ 0 ∷ 0 ∷ 0 ∷ 1 ∷ 0 ∷ 0 ∷ 2 ∷ 1 ∷ 7 ∷ 8 ∷ []

decode_frame-IsCanonical_example : IsCanonical Role.sender message (data_frame far (7 ∷ 8 ∷ []))
unfolding decode_frame
decode_frame-IsCanonical_example =
    decode_frame-IsCanonical Role.sender message (data_frame far (7 ∷ 8 ∷ [])) (ground arith) refl
