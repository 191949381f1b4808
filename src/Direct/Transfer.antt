-- ===== src/Direct/Transfer.antt =====
-- What the two ends of a transfer share (src/direct/transfer.ts): the kinds of failure and the
-- channel. A channel is whether it is open, and the frames that were sent on it, oldest first.
use wildbloom.Prelude.{Bool, ℕ, List, [], ◌∷◌, ◌++◌, if◌then◌else◌, Option, none, some}
use wildbloom.Direct.Frames.{StopCode, person, failure, no_room, encode_stop}

-- `TransferFailure`.
pub data TransferFailure : Type 0 where
  cancelled peer_cancelled peer_failed peer_storage protocol closed frame_size source verification
        storage :
      TransferFailure

-- `failureForStop`.
abbrev pub failure_for_stop : StopCode → TransferFailure
failure_for_stop person = peer_cancelled
failure_for_stop no_room = peer_storage
failure_for_stop failure = peer_failed

-- `trySend`: a channel that is not open takes nothing, and nobody is told. An open channel's `send` does not
-- throw here; the code would swallow that throw and go on.
abbrev pub try_send : Bool → List ℕ → List (List ℕ) → List (List ℕ)
try_send open_channel frame wire = if open_channel then wire ++ (frame ∷ []) else wire

-- The STOP that `fail` sends, if it is given a code.
abbrev pub try_stop : Bool → Option StopCode → List (List ℕ) → List (List ℕ)
try_stop open_channel none wire = wire
try_stop open_channel (some code) wire = try_send open_channel (encode_stop code) wire
