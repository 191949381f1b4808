-- ===== src/Direct/Sender.antt =====
-- `sendEnvelope` (src/direct/transfer.ts). The local variables of the function are the fields of a
-- record, and each callback is an event. A turn is the loop's body from its test to the next wait:
-- it comes with what the pacing rule allows and with the channel's `bufferedAmount` behind the send.
-- The encoder is the records that `next()` still has to give, its digest and the file's size.
pub mod Invariant
pub mod Constants
pub mod Wire
pub mod Tests
use wildbloom.Prelude.{
  ℕ, ◌+◌, ◌-◌, Bool, true, false, not, ◌||◌, ◌&&◌, List, [], ◌∷◌, ◌++◌, Option, none, some, ltb,
  leb, ◌==◌, if◌then◌else◌, is_some, length, take, drop, min,
}
use wildbloom.Direct.Config.{frame_bytes, min_frame_bytes, unacknowledged_bytes, high_water_bytes}
use wildbloom.Direct.Frames.{
  Role, StopCode, person, failure, Frame, data_frame, ack, end_frame, kept, stop, Result, ok, err,
  decode_frame, encode_data, encode_end, data_header_bytes,
}
use wildbloom.Direct.Transfer.{
  TransferFailure, cancelled, protocol, closed, frame_size, source, failure_for_stop, try_send,
  try_stop,
}

pub record Sender : Type 0 where
  pub total : ℕ
  pub frame_size : ℕ
  pub digest : List ℕ
  pub size : ℕ
  pub sent : ℕ
  pub acknowledged : ℕ
  pub ended : Bool
  pub kept : Bool
  pub paused : Bool
  pub failed : Option TransferFailure
  pub current : List ℕ  -- `current` from `position` on
  pub upcoming : List (List ℕ)
  pub is_open : Bool
  pub wire : List (List ℕ)
  pub progress : List ℕ  -- what `onProgress` was called with

-- `fail(error, stopCode)`.
pub fail : TransferFailure → Option StopCode → Sender → Sender
fail kind code s =
    if is_some s.failed
    then s
    else record s { failed = some kind; wire = try_stop s.is_open code s.wire }

-- The `ack` case.
pub on_ack : ℕ → Sender → Sender
on_ack next s =
    if leb next s.acknowledged || ltb s.sent next
    then fail protocol (some failure) s
    else record s { acknowledged = next; progress = s.progress ++ (next ∷ []) }

-- The switch on a decoded frame.
pub on_decoded : Result Frame → Sender → Sender
on_decoded (err e) s = fail protocol (some failure) s
on_decoded (ok (ack next)) s = on_ack next s
on_decoded (ok Frame.kept) s =
    if not s.ended then fail protocol (some failure) s else record s { kept = true }
on_decoded (ok (stop code)) s = fail (failure_for_stop code) none s
on_decoded (ok (data_frame offset bytes)) s = fail protocol (some failure) s
on_decoded (ok (end_frame sha256 size)) s = fail protocol (some failure) s

-- The `frame` callback.
pub on_frame : List ℕ → Sender → Sender
on_frame bytes s =
    if is_some s.failed || s.kept then s else on_decoded (decode_frame Role.receiver bytes) s

-- The `closed` callback.
pub on_closed : Sender → Sender
on_closed s =
    let s' = record s { is_open = false } in if not s.kept then fail closed none s' else s'

-- At the end of a record the next one is taken; there may be none.
pub load : List ℕ → List (List ℕ) → Sender → Option Sender
load (b ∷ bs) upcoming s = some s
load [] (next ∷ rest) s = some (record s { current = next; upcoming = rest })
load [] [] s = none

-- `wanted`: what would go in the next frame if nothing held it back.
abbrev pub wanted : Sender → ℕ
wanted s = min (s.frame_size - data_header_bytes) (min (length s.current) (s.total - s.sent))

-- `allowed`: the protocol's own window is a ceiling on what the pacing rule says.
abbrev pub allowed : ℕ → Sender → ℕ
allowed verdict s = min verdict (unacknowledged_bytes - (s.sent - s.acknowledged))

-- `channel.send(encodeData(…))`, and the counts behind it. A throw of either is `closed`.
pub transmit_frame : Result (List ℕ) → ℕ → ℕ → Sender → Sender
transmit_frame (err e) n buffered s = fail closed none s
transmit_frame (ok frame) n buffered s =
    if s.is_open
    then record s {
      wire = s.wire ++ (frame ∷ []);
      sent = s.sent + n;
      current = drop n s.current;
      paused = if ltb high_water_bytes buffered then true else s.paused;
    }
    else fail closed none s

pub transmit : ℕ → ℕ → Sender → Sender
transmit n buffered s = transmit_frame (encode_data s.sent (take n s.current)) n buffered s

-- With nothing allowed the loop waits, and asks again in another turn.
pub send_chunk : ℕ → ℕ → Sender → Sender
send_chunk verdict buffered s =
    if allowed verdict s == 0 then s else transmit (min (wanted s) (allowed verdict s)) buffered s

pub send_record : ℕ → ℕ → Option Sender → Sender → Sender
send_record verdict buffered none s = fail source (some failure) s
send_record verdict buffered (some s') s = send_chunk verdict buffered s'

-- The loop's end: END goes out in the turn of the last byte. A digest or size that END cannot carry
-- would throw out of the function, and nothing more would be sent.
pub finish : Sender → Sender
finish s =
    if is_some s.failed || ltb s.sent s.total || s.ended
    then s
    else elim (encode_end s.digest s.size) [
      | err e ↦ s
      | ok frame ↦ record s { wire = try_send s.is_open frame s.wire; ended = true }
    ]

-- A failure ends the loop, so a turn after one does nothing.
pub turn : ℕ → ℕ → Sender → Sender
turn verdict buffered s =
    if is_some s.failed
    then s
    else finish (
        if ltb s.sent s.total
        then send_record verdict buffered (load s.current s.upcoming s) s
        else s)

-- `encoder.next()` rejects when the loop waits for it, at the end of a record.
pub read_fails : Bool → List ℕ → Sender → Sender
read_fails signal_aborted (b ∷ bs) s = s
read_fails signal_aborted [] s =
    if not (ltb s.sent s.total)
    then s
    else if signal_aborted
    then fail cancelled (some person) s
    else fail source (some failure) s

pub data Event : Type 0 where
  message : List ℕ → Event
  low : Event
  channel_closed : Event
  aborted : Event
  next_turn : ℕ → ℕ → Event
  read_failed : Bool → Event

pub step : Event → Sender → Sender
step (message bytes) s = on_frame bytes s
step low s = record s { paused = false }
step channel_closed s = on_closed s
step aborted s = fail cancelled (some person) s
step (next_turn verdict buffered) s = turn verdict buffered s
step (read_failed signal_aborted) s = read_fails signal_aborted s.current s

pub run : List Event → Sender → Sender
unfolding step fail on_frame on_decoded on_ack on_closed load transmit transmit_frame send_chunk
    send_record finish turn read_fails
run [] s = s
run (e ∷ es) s = run es (step e s)

-- The variables at the start: `total` is the encoder's `envelopeBytes`, and the first record is the encoder's header.
pub fresh : ℕ → ℕ → List ℕ → List (List ℕ) → List ℕ → ℕ → Bool → Sender
fresh total max_message_size header records digest size is_open = record {
  total = total;
  frame_size = min max_message_size frame_bytes;
  digest = digest;
  size = size;
  sent = 0;
  acknowledged = 0;
  ended = false;
  kept = false;
  paused = false;
  failed = none;
  current = header;
  upcoming = records;
  is_open = is_open;
  wire = [];
  progress = [];
}

-- What comes before the loop: each check fails the transfer, and the first one stays.
pub init : Bool → Sender → Sender
init signal_aborted s =
    let s1 = if signal_aborted then fail cancelled (some person) s else s in
    let s2 = if not s.is_open then fail closed none s1 else s1 in
    let s3 = if ltb s.frame_size min_frame_bytes then fail frame_size (some failure) s2 else s2 in
    if is_some s3.failed then s3 else record s3 { progress = 0 ∷ [] }

-- What the promise of the function does.
pub data Outcome : Type 0 where
  pending resolves : Outcome
  rejects : TransferFailure → Outcome

-- The loop's end waits `until(() => kept, () => failure)`.
abbrev pub outcome : Sender → Outcome
outcome s = elim s.failed [
  | some kind ↦ rejects kind
  | none ↦ if s.ended && s.kept then resolves else pending
]
