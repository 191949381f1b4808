-- ===== src/Direct/Receiver.antt =====
-- `receiveEnvelope` (src/direct/transfer.ts). The local variables of the function are the fields of
-- a record; each callback, each step of the promise queue and each answer of the sink is an event.
-- A step starts when the one before it has settled, and its continuation runs when the sink has
-- answered, so other events may come between the two. `calls` lists what was asked of the sink.
pub mod Queue
pub mod Invariant
pub mod Bounds
pub mod Content
pub mod Resolves
pub mod Endings
pub mod Complete
mod Tests
use wildbloom.Prelude.{
  ℕ, ◌+◌, ◌-◌, Bool, true, false, not, ◌||◌, ◌&&◌, List, [], ◌∷◌, ◌++◌, Option, none, some, ltb,
  leb, ◌==◌, if◌then◌else◌, is_some, length,
}
use wildbloom.Direct.Config.{unacknowledged_bytes, ack_every_bytes}
use wildbloom.Direct.Frames.{
  Role, StopCode, person, failure, no_room, Frame, data_frame, ack, end_frame, kept, stop, Result,
  ok, err, decode_frame, encode_ack, encode_kept,
}
use wildbloom.Direct.Transfer.{
  TransferFailure, cancelled, protocol, closed, verification, storage, failure_for_stop, try_send,
  try_stop,
}

-- The calls on a `DirectSink`: `write(bytes)`, `end({ sha256, size })` and `abort()`.
pub data Call : Type 0 where
  write : List ℕ → Call
  finish : List ℕ → ℕ → Call
  discard : Call

-- How a call settles: it resolves, throws `SinkStorageError`, or rejects otherwise.
pub data Reply : Type 0 where
  resolved out_of_room refused : Reply

pub record Receiver : Type 0 where
  pub total : ℕ
  pub plaintext_bytes : ℕ
  pub received : ℕ
  pub written : ℕ
  pub last_ack : ℕ
  pub end_seen : Bool
  pub done : Bool
  pub failed : Option TransferFailure
  pub queue : List Call
  pub running : Option Call
  pub calls : List Call
  pub cleaned : Bool
  pub is_open : Bool
  pub wire : List (List ℕ)

-- `fail(error, stopCode)`: the first failure stays, and only it sends a STOP.
pub fail : TransferFailure → Option StopCode → Receiver → Receiver
fail kind code r =
    if is_some r.failed || r.done
    then r
    else record r { failed = some kind; wire = try_stop r.is_open code r.wire }

-- The `data` case.
on_data : ℕ → List ℕ → Receiver → Receiver
on_data offset bytes r =
    if r.end_seen
    then fail protocol (some failure) r
    else if not (offset == r.received)
    then fail protocol (some failure) r
    else if ltb r.total (r.received + length bytes)
    then fail protocol (some failure) r
    else if ltb unacknowledged_bytes (r.received + length bytes - r.last_ack)
    then fail protocol (some failure) r
    else record r { received = r.received + length bytes; queue = r.queue ++ (write bytes ∷ []) }

-- The `end` case.
on_end : List ℕ → ℕ → Receiver → Receiver
on_end sha256 size r =
    if r.end_seen
    then fail protocol (some failure) r
    else if not (r.received == r.total)
    then fail protocol (some failure) r
    else if not (size == r.plaintext_bytes)
    then fail verification (some failure) r
    else record r { end_seen = true; queue = r.queue ++ (finish sha256 size ∷ []) }

-- The switch on a decoded frame.
on_decoded : Result Frame → Receiver → Receiver
on_decoded (err e) r = fail protocol (some failure) r
on_decoded (ok (data_frame offset bytes)) r = on_data offset bytes r
on_decoded (ok (end_frame sha256 size)) r = on_end sha256 size r
on_decoded (ok (stop code)) r = fail (failure_for_stop code) none r
on_decoded (ok (ack next)) r = fail protocol (some failure) r
on_decoded (ok kept) r = fail protocol (some failure) r

-- The `frame` callback.
on_frame : List ℕ → Receiver → Receiver
on_frame bytes r =
    if is_some r.failed || r.done then r else on_decoded (decode_frame Role.sender bytes) r

-- A queued step comes to its turn: after a failure it does nothing.
start : List Call → Option Call → Receiver → Receiver
start (c ∷ rest) none r =
    if is_some r.failed
    then record r { queue = rest }
    else record r { queue = rest; running = some c; calls = r.calls ++ (c ∷ []) }
start [] none r = r
start queue (some c) r = r

-- `sendOrThrow(encodeAck(written))` with `lastAck = written`, the channel's `send` throwing when
-- it is not open.
acknowledge : Receiver → Receiver
acknowledge r =
    if leb ack_every_bytes (r.written - r.last_ack) || (r.written == r.total)
    then (let r' = record r { last_ack = r.written } in
        elim (encode_ack r.written) [
          | err e ↦ fail verification (some failure) r'
          | ok frame ↦
              if r.is_open then record r' { wire = r.wire ++ (frame ∷ []) } else fail closed none r'
        ])
    else r

-- The rest of a step, and the `catch` of `enqueue`.
settled : Reply → Call → Receiver → Receiver
settled resolved (write bytes) r = acknowledge (record r { written = r.written + length bytes })
settled resolved (finish sha256 size) r =
    if r.is_open
    then record r { wire = r.wire ++ (encode_kept ∷ []); done = true }
    else fail closed none r
settled resolved discard r = r
settled out_of_room c r = fail storage (some no_room) r
settled refused c r = fail verification (some failure) r

answer : Reply → Option Call → Receiver → Receiver
answer reply none r = r
answer reply (some c) r = settled reply c (record r { running = none })

is_idle : List Call → Option Call → Bool
is_idle [] none = true
is_idle _ _ = false

-- The `catch` of the function: once the queue has drained, the sink is told to delete.
clean_up : Receiver → Receiver
unfolding is_idle
clean_up r =
    if is_some r.failed && is_idle r.queue r.running && not r.cleaned
    then record r { calls = r.calls ++ (discard ∷ []); cleaned = true }
    else r

pub data Event : Type 0 where
  message : List ℕ → Event
  channel_closed : Event
  aborted : Event
  next_step : Event
  replied : Reply → Event
  drained : Event

pub step : Event → Receiver → Receiver
step (message bytes) r = on_frame bytes r
step channel_closed r = let r' = record r { is_open = false } in fail closed none r'
step aborted r = fail cancelled (some person) r
step next_step r = start r.queue r.running r
step (replied reply) r = answer reply r.running r
step drained r = clean_up r

pub run : List Event → Receiver → Receiver
unfolding step fail on_frame on_decoded on_data on_end start answer settled acknowledge clean_up
run [] r = r
run (e ∷ es) r = run es (step e r)

-- The variables at the start of the function.
pub fresh : ℕ → ℕ → Bool → Receiver
fresh total plaintext_bytes is_open = record {
  total = total;
  plaintext_bytes = plaintext_bytes;
  received = 0;
  written = 0;
  last_ack = 0;
  end_seen = false;
  done = false;
  failed = none;
  queue = [];
  running = none;
  calls = [];
  cleaned = false;
  is_open = is_open;
  wire = [];
}

-- The start of the `try`: a signal that has already aborted, then a channel that is not open.
pub init : ℕ → ℕ → Bool → Bool → Receiver
unfolding fresh fail
init total plaintext_bytes is_open signal_aborted =
    let r = fresh total plaintext_bytes is_open in
    let r' = if signal_aborted then fail cancelled (some person) r else r in
    if is_open then r' else fail closed none r'

-- What the promise of the function does: a failure is looked at before `done`.
pub data Outcome : Type 0 where
  pending resolves : Outcome
  rejects : TransferFailure → Outcome

abbrev pub outcome : Receiver → Outcome
outcome r = elim r.failed [ some kind ↦ rejects kind | none ↦ if r.done then resolves else pending ]
