-- ===== src/Direct/Frames/RoundTrip.antt =====
-- Encoding and decoding of the data channel's frames are inverse to one another.
use wildbloom.Prelude.{
  ℕ, ◌+◌, ◌*◌, ◌/◌, ◌%◌, ◌≤◌, ◌<◌, ◌≡◌, refl, List, [], ◌∷◌, ◌++◌, arith, length, drop,
  length-append, take-append, drop-append, append_assoc, le→leb,
}
use wildbloom.Direct.Frames.{
  Role, sender, receiver, person, failure, no_room, Frame, data_frame, ack, end_frame, kept, stop,
  Result, ok, err, encode_data, encode_ack, encode_end, encode_kept, encode_stop, decode_frame,
  max_safe_integer, u32_bytes, write_u64, read_u64,
}

-- The encoder that each kind of frame goes through.
abbrev pub encode : Frame → Result (List ℕ)
encode (data_frame offset bytes) = encode_data offset bytes
encode (ack next) = encode_ack next
encode (end_frame sha256 size) = encode_end sha256 size
encode kept = ok encode_kept
encode (stop code) = ok (encode_stop code)

-- The frames that the protocol allows `from` to send.
abbrev pub IsAllowed : Role → Frame → Type 0
IsAllowed from (data_frame offset bytes) =
    (from ≡ sender) × (offset ≤ max_safe_integer) × (1 ≤ length bytes) × (length bytes ≤ 65527)
IsAllowed from (ack next) = (from ≡ receiver) × (next ≤ max_safe_integer)
IsAllowed from (end_frame sha256 size) =
    (from ≡ sender) × (length sha256 ≡ 32) × (size ≤ max_safe_integer)
IsAllowed from kept = from ≡ receiver
IsAllowed from (stop code) = Unit {0}

u32_value :
    (v : ℕ)
    → v < 4294967296
    → v / 16777216 % 256 * 16777216 + v / 65536 % 256 * 65536 + v / 256 % 256 * 256 + v % 256 ≡ v
u32_value v h = omega arith

abbrev pub high : ℕ → List ℕ
high v = u32_bytes (v / 4294967296)

abbrev pub low : ℕ → List ℕ
low v = u32_bytes (v % 4294967296)

-- What `writeU64` writes, `readU64` reads back, wherever it stands.
read-write_u64 :
    (v at : ℕ) (view r s : List ℕ)
    → v ≤ max_safe_integer
    → drop at view ≡ high v ++ r
    → drop (at + 4) view ≡ low v ++ s
    → read_u64 view at ≡ ok v
read-write_u64 v at view r s h p q =
    rw (p, q) (ground (arith, u32_value (v / 4294967296), u32_value (v % 4294967296)))

pub write_u64_ok : (v : ℕ) → v ≤ max_safe_integer → write_u64 v ≡ ok (high v ++ low v)
write_u64_ok v h = rw (le→leb v max_safe_integer h)

data-round :
    (o : ℕ) (bs : List ℕ)
    → o ≤ max_safe_integer
    → 1 ≤ length bs
    → length bs ≤ 65527
    → (bytes : List ℕ) × (encode_data o bs ≡ ok bytes)
      × (decode_frame sender bytes ≡ ok (data_frame o bs))
unfolding encode_data decode_frame
data-round o bs h lo hi = (
  1 ∷ (high o ++ low o) ++ bs,
  ground (arith, write_u64_ok o h),
  ground (arith, read-write_u64 o 1 (1 ∷ (high o ++ low o) ++ bs) (low o ++ bs) bs h refl refl),
)

ack-round :
    (n : ℕ)
    → n ≤ max_safe_integer
    → (bytes : List ℕ) × (encode_ack n ≡ ok bytes) × (decode_frame receiver bytes ≡ ok (ack n))
unfolding encode_ack decode_frame
ack-round n h = (
  2 ∷ (high n ++ low n),
  ground (arith, write_u64_ok n h),
  ground (arith, read-write_u64 n 1 (2 ∷ (high n ++ low n)) (low n) [] h refl refl),
)

end-round :
    (sha256 : List ℕ) (n : ℕ)
    → length sha256 ≡ 32
    → n ≤ max_safe_integer
    → (bytes : List ℕ) × (encode_end sha256 n ≡ ok bytes)
      × (decode_frame sender bytes ≡ ok (end_frame sha256 n))
unfolding encode_end decode_frame
end-round sha256 n l h = (
  3 ∷ sha256 ++ (high n ++ low n),
  ground (arith, write_u64_ok n h),
  ground (
    arith,
    read-write_u64 n 33 (3 ∷ sha256 ++ (high n ++ low n)) (low n) [] h
        (drop-append sha256 (high n ++ low n) 32 l) (later),
    take-append sha256 (high n ++ low n) 32 l,
    length-append sha256 (high n ++ low n),
  ),
)
  where
    later : drop 36 (sha256 ++ (high n ++ low n)) ≡ low n
    later =
        rw (← append_assoc sha256 (high n) (low n))
          (drop-append (sha256 ++ high n) (low n) 36 (omega (arith, length-append sha256 (high n))))

-- Every frame that the protocol allows is encoded, and the other end decodes it to the same frame.
pub decode-encode :
    (from : Role) (f : Frame)
    → IsAllowed from f
    → (bytes : List ℕ) × (encode f ≡ ok bytes) × (decode_frame from bytes ≡ ok f)
unfolding encode_kept encode_stop decode_frame
decode-encode sender (data_frame o bs) h = data-round o bs h.1 h.2 h.3
decode-encode receiver (data_frame o bs) h = cc (h.0)
decode-encode sender (ack n) h = cc (h.0)
decode-encode receiver (ack n) h = ack-round n h.1
decode-encode sender (end_frame sha256 n) h = end-round sha256 n h.1 h.2
decode-encode receiver (end_frame sha256 n) h = cc (h.0)
decode-encode sender kept h = cc
decode-encode receiver kept h = (4 ∷ [], refl, refl)
decode-encode from (stop person) h = (5 ∷ 1 ∷ [], refl, refl)
decode-encode from (stop failure) h = (5 ∷ 2 ∷ [], refl, refl)
decode-encode from (stop no_room) h = (5 ∷ 3 ∷ [], refl, refl)

-- The message that an encoder made.
abbrev pub encoded : Result (List ℕ) → List ℕ
encoded (ok bytes) = bytes
encoded (err e) = []

-- What a DATA frame can carry.
abbrev pub IsChunk : List ℕ → Type 0
IsChunk chunk = (1 ≤ length chunk) × (length chunk ≤ 65527)

-- DATA frames for these chunks, from this offset on, without a gap.
abbrev pub data_frames : ℕ → List (List ℕ) → List (List ℕ)
data_frames offset [] = []
data_frames offset (chunk ∷ chunks) =
    encoded (encode_data offset chunk) ∷ data_frames (offset + length chunk) chunks
