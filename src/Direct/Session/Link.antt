-- ===== src/Direct/Session/Link.antt =====
-- One end of the exchange of messages (class Link of src/direct/session.ts). A message is handed to the
-- exchange when the one before it has settled; `busy` is the one that has not settled yet.
pub mod InOrder
pub mod Stops
pub mod Taken
pub mod Tally
mod Tests
use wildbloom.Prelude.{
  ℕ, ◌+◌, ◌≤◌, ◌≡◌, refl, ap, Bool, true, false, not, ◌&&◌, ◌||◌, if◌then◌else◌, List, [], ◌∷◌,
  ◌++◌, Option, none, some, leb, length, Any, All, arith, append_assoc, length-append,
}
use wildbloom.Direct.Config.{messages_per_side}
use wildbloom.Direct.Messages.{StopReason, DirectMessage}

-- A stop, or any other `DirectMessage`; one that is too large to encode is not sent.
pub data Message : Type 0 where
  stop : StopReason → Message
  body : DirectMessage → Message

abbrev pub is_stop : Message → Bool
is_stop (stop reason) = true
is_stop (body message) = false

pub record Link : Type 0 where
  pub sent_count : ℕ
  pub received_count : ℕ
  pub stopped : Bool
  pub ended : Bool
  pub stop_sent : Bool  -- `stopping` is set
  pub stop_gone : Bool  -- and has settled
  pub closed : Bool  -- `exchange.close()` was called
  pub waiting : List Message
  pub busy : Option Message
  pub handed : List Message
  pub accepted : List Message  -- those that `send` took, in the order of its calls

abbrev pub fresh : Link
fresh = record {
  sent_count = 0;
  received_count = 0;
  stopped = false;
  ended = false;
  stop_sent = false;
  stop_gone = false;
  closed = false;
  waiting = [];
  busy = none;
  handed = [];
  accepted = [];
}

-- `send(message)`.
pub send : Message → Link → Link
send m l =
    if l.ended
    then l
    else if l.stopped && not (is_stop m)
    then l
    else if leb messages_per_side l.sent_count
    then l
    else record l {
      sent_count = l.sent_count + 1;
      waiting = l.waiting ++ (m ∷ []);
      accepted = l.accepted ++ (m ∷ []);
    }

-- `stop(reason)`.
pub send_stop : StopReason → Link → Link
send_stop reason l =
    if l.stopped || l.ended || leb messages_per_side l.sent_count
    then l
    else (let l' = record l { stopped = true; stop_sent = true } in send (stop reason) l')

-- What `decodeMessage` says of the bytes that came.
pub data Decoded : Type 0 where
  good_stop good_body : Decoded
  bad : StopReason → Decoded

-- `read()`, from the bytes on: a message that is not allowed is answered with a stop.
pub read : Decoded → Link → Link
read decoded l =
    if l.ended
    then l
    else (let l' = record l { received_count = l.received_count + 1 } in
        elim decoded [
          | good_stop ↦ record l' { stopped = true }
          | good_body ↦ l'
          | bad reason ↦ send_stop reason l'
        ])

-- `end()`: the exchange closes at once, or when the stop on its way has gone.
pub end_link : Link → Link
end_link l =
    if l.ended then l else record l { ended = true; closed = not l.stop_sent || l.stop_gone }

-- The next turn of `chain`.
pub hand_over : List Message → Option Message → Link → Link
hand_over (m ∷ ms) none l = record l { waiting = ms; busy = some m; handed = l.handed ++ (m ∷ []) }
hand_over [] none l = l
hand_over ms (some m) l = l

-- The message in the exchange settles, either way.
pub settle : Option Message → Link → Link
settle none l = l
settle (some m) l =
    if is_stop m
    then record l { busy = none; stop_gone = true; closed = l.closed || l.ended }
    else record l { busy = none }

pub data Event : Type 0 where
  sends : DirectMessage → Event
  stops : StopReason → Event
  reads : Decoded → Event
  ends turns settles : Event

pub step : Event → Link → Link
step (sends message) l = send (body message) l
step (stops reason) l = send_stop reason l
step (reads decoded) l = read decoded l
step ends l = end_link l
step turns l = hand_over l.waiting l.busy l
step settles l = settle l.busy l

pub run : List Event → Link → Link
unfolding step send send_stop read end_link hand_over settle
run [] l = l
run (e ∷ es) l = run es (step e l)
