-- ===== src/Direct/Sender/Tests.antt =====
-- The sender's theorems on a small transfer (sendEnvelope of src/direct/transfer.ts).
use wildbloom.Prelude.{
  ◌≡◌, refl, List, [], ◌∷◌, ◌++◌, ℕ, ◌+◌, ◌≤◌, true, false, replicate, All, length, concat, none,
}
use wildbloom.Direct.Config.{unacknowledged_bytes}
use wildbloom.Direct.Frames.{encode_data, encode_end, decode_frame}
use wildbloom.Direct.Frames.RoundTrip.{IsChunk, data_frames}
use wildbloom.Direct.Sender.{Sender, Event, message, next_turn, low, run, init, fresh}
use wildbloom.Direct.Sender.Invariant.{end_frames}
use wildbloom.Direct.Sender.Wire.{sender_after, sender_bounds, sender_wire, sender_end}

-- A header, one record, and turns of the loop, with an ACK among them.
abbrev pub header : List ℕ
header = 9 ∷ 8 ∷ 7 ∷ []

abbrev pub records : List (List ℕ)
records = (6 ∷ 5 ∷ []) ∷ []

abbrev pub digest : List ℕ
digest = replicate 32 5

abbrev pub turns : List Event
turns =
    next_turn 2 0
    ∷ next_turn 65536 2000000
    ∷ message (2 ∷ 0 ∷ 0 ∷ 0 ∷ 0 ∷ 0 ∷ 0 ∷ 0 ∷ 3 ∷ [])
    ∷ low
    ∷ next_turn 100 0
    ∷ []

abbrev pub after_turns : Sender
after_turns = sender_after 5 65536 header records digest 1 true false turns

pub turns-failed : after_turns.failed ≡ none
unfolding run init fresh encode_data encode_end decode_frame
turns-failed = refl

pub turns-ended : after_turns.ended ≡ true
unfolding run init fresh encode_data encode_end decode_frame
turns-ended = refl

sender_bounds_example :
    (after_turns.acknowledged ≤ after_turns.sent)
    × (after_turns.sent ≤ 5)
    × (after_turns.sent ≤ after_turns.acknowledged + unacknowledged_bytes)
sender_bounds_example = sender_bounds 5 65536 header records digest 1 true false turns

sender_wire_example :
    (chunks : List (List ℕ)) × All IsChunk chunks
    × (length (concat chunks) ≡ after_turns.sent)
    × (concat chunks ++ (after_turns.current ++ concat after_turns.upcoming)
        ≡ header ++ concat records)
    × (after_turns.wire ≡ data_frames 0 chunks ++ end_frames after_turns.ended digest 1)
sender_wire_example = sender_wire 5 65536 header records digest 1 true false turns turns-failed

sender_end_example :
    (chunks : List (List ℕ)) × All IsChunk chunks
    × (concat chunks ≡ header ++ concat records)
    × (after_turns.wire ≡ data_frames 0 chunks ++ end_frames true digest 1)
sender_end_example =
    sender_end 5 65536 header records digest 1 true false turns refl turns-failed turns-ended
