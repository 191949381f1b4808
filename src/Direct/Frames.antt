-- ===== src/Direct/Frames.antt =====
-- The binary frames on the data channel (src/direct/frames.ts). A `Uint8Array` is a list of bytes;
-- a `throw` is an `err`. `DataView` writes and reads are big-endian.
pub mod RoundTrip
pub mod Canonical
mod Tests
use wildbloom.Prelude.{
  ℕ, ◌+◌, ◌*◌, ◌/◌, ◌%◌, Bool, true, false, not, ◌||◌, List, [], ◌∷◌, ◌++◌, ltb, leb, ◌==◌,
  if◌then◌else◌, length, take, drop,
}
use wildbloom.Direct.Config.{frame_bytes}

pub data Role : Type 0 where
  sender receiver : Role

-- `StopCode`: 1 a person cancelled, 2 a failure, 3 no storage.
pub data StopCode : Type 0 where
  person failure no_room : StopCode

pub data Frame : Type 0 where
  data_frame : ℕ → List ℕ → Frame
  ack : ℕ → Frame
  end_frame : List ℕ → ℕ → Frame
  kept : Frame
  stop : StopCode → Frame

-- `RangeError` is thrown by an encoder, `FrameError` by the decoder.
pub data Error : Type 0 where
  range frame : Error

pub data Result {ℓ} (A : Type ℓ) : Type ℓ where
  err : Error → Result A
  ok : A → Result A

infixl 5 ◌>>=◌
abbrev pub ◌>>=◌ {ℓ κ} : {A : Type ℓ} {B : Type κ} → Result A → (A → Result B) → Result B
err e >>= next = err e
ok value >>= next = next value

abbrev pub data_header_bytes : ℕ
data_header_bytes = 9

abbrev pub end_frame_bytes : ℕ
end_frame_bytes = 41

-- `Number.MAX_SAFE_INTEGER`, 2^53 - 1.
abbrev pub max_safe_integer : ℕ
max_safe_integer = 9007199254740991

-- `setUint32(at, value, false)`: the four bytes that it writes.
abbrev pub u32_bytes : ℕ → List ℕ
u32_bytes v = (v / 16777216 % 256) ∷ (v / 65536 % 256) ∷ (v / 256 % 256) ∷ (v % 256) ∷ []

-- `writeU64`: the eight bytes that it writes, or its RangeError.
abbrev pub write_u64 : ℕ → Result (List ℕ)
write_u64 value =
    if leb value max_safe_integer
    then ok (u32_bytes (value / 4294967296) ++ u32_bytes (value % 4294967296))
    else err range

-- `getUint32`, at the start of the bytes; past the end it throws a RangeError.
abbrev pub get_u32 : List ℕ → Result ℕ
get_u32 (a ∷ b ∷ c ∷ d ∷ _) = ok (a * 16777216 + b * 65536 + c * 256 + d)
get_u32 _ = err range

-- `readU64(view, at)`.
abbrev pub read_u64 : List ℕ → ℕ → Result ℕ
read_u64 view at = get_u32 (drop at view) >>= λ high.
    if ltb 2097151 high
    then err frame
    else get_u32 (drop (at + 4) view) >>= λ low. ok (high * 4294967296 + low)

-- `encodeData`.
unfoldable pub encode_data : ℕ → List ℕ → Result (List ℕ)
encode_data offset bytes =
    if (length bytes == 0) || ltb frame_bytes (data_header_bytes + length bytes)
    then err range
    else write_u64 offset >>= λ at. ok (1 ∷ at ++ bytes)

-- `encodeAck`.
unfoldable pub encode_ack : ℕ → Result (List ℕ)
encode_ack next = write_u64 next >>= λ at. ok (2 ∷ at)

-- `encodeEnd`.
unfoldable pub encode_end : List ℕ → ℕ → Result (List ℕ)
encode_end sha256 size =
    if not (length sha256 == 32) then err range else write_u64 size >>= λ at. ok (3 ∷ sha256 ++ at)

-- `encodeKept`.
unfoldable pub encode_kept : List ℕ
encode_kept = 4 ∷ []

abbrev pub stop_byte : StopCode → ℕ
stop_byte person = 1
stop_byte failure = 2
stop_byte no_room = 3

-- `encodeStop`.
unfoldable pub encode_stop : StopCode → List ℕ
encode_stop code = 5 ∷ stop_byte code ∷ []

abbrev is_sender : Role → Bool
is_sender sender = true
is_sender receiver = false

decode_data : Role → List ℕ → Result Frame
decode_data from bytes =
    if not (is_sender from)
    then err frame
    else if leb (length bytes) data_header_bytes || ltb frame_bytes (length bytes)
    then err frame
    else read_u64 bytes 1 >>= λ offset. ok (data_frame offset (drop data_header_bytes bytes))

decode_ack : Role → List ℕ → Result Frame
decode_ack from bytes =
    if is_sender from
    then err frame
    else if not (length bytes == 9)
    then err frame
    else read_u64 bytes 1 >>= λ next. ok (ack next)

decode_end : Role → List ℕ → Result Frame
decode_end from bytes =
    if not (is_sender from)
    then err frame
    else if not (length bytes == end_frame_bytes)
    then err frame
    else read_u64 bytes 33 >>= λ size. ok (end_frame (take 32 (drop 1 bytes)) size)

decode_kept : Role → List ℕ → Result Frame
decode_kept from bytes =
    if is_sender from then err frame else if not (length bytes == 1) then err frame else ok kept

-- An unknown reason reads as 2.
abbrev stop_code : ℕ → StopCode
stop_code b = if b == 1 then person else if b == 3 then no_room else failure

decode_stop : List ℕ → Result Frame
decode_stop (t ∷ b ∷ []) = ok (stop (stop_code b))
decode_stop _ = err frame

-- `decodeFrame`: the switch on the first byte.
unfoldable pub decode_frame : Role → List ℕ → Result Frame
unfolding decode_data decode_ack decode_end decode_kept decode_stop
decode_frame from [] = err frame
decode_frame from (t ∷ rest) =
    if t == 1
    then decode_data from (t ∷ rest)
    else if t == 2
    then decode_ack from (t ∷ rest)
    else if t == 3
    then decode_end from (t ∷ rest)
    else if t == 4
    then decode_kept from (t ∷ rest)
    else if t == 5
    then decode_stop (t ∷ rest)
    else err frame
