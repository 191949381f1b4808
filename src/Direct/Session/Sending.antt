-- ===== src/Direct/Session/Sending.antt =====
-- The state of a sending session, and how it is left (class SenderSession of src/direct/session.ts). The
-- fields of the class are those of a record, with the place that its methods have come to.
pub mod Order
use wildbloom.Prelude.{
  ℕ, ◌+◌, Bool, true, false, not, ◌&&◌, ◌||◌, if◌then◌else◌, List, [], ◌∷◌, Option, none, some, ltb,
  leb, ◌==◌, is_some, length,
}
use wildbloom.Prelude.Text.{Text}
use wildbloom.Direct.Config.{messages_per_side}
use wildbloom.Direct.Transfer.{TransferFailure}
use wildbloom.Direct.Messages.{
  DirectMessage, invite, manifest, accept, decline, answer, restart, restart_answer, StopReason,
  cancelled_reason, failed_reason, unsupported_reason,
}
use wildbloom.Direct.Messages
use wildbloom.Direct.Session.Failures.{
  DirectFailure, cancelled, unsupported, protocol, expired, network, too_big, connect, lost,
  failure_for_peer_stop, failure_for_transfer, transfer, sender_end_stop,
}
use wildbloom.Direct.Session.Link
use wildbloom.Direct.Session.Watch

-- What `link.read()` gives: a message, an answer to one that is not allowed, or the failure of the exchange.
pub data Incoming : Type 0 where
  came : DirectMessage → Incoming
  refused : StopReason → Incoming
  broke : DirectFailure → Incoming

-- What the link makes of it; it has sent its answer to a message that is not allowed before `read` throws.
pub take_in : Incoming → Link.Link → Link.Link
take_in (came (Messages.stop reason)) l = Link.read Link.good_stop l
take_in (came m) l = Link.read Link.good_body l
take_in (refused reason) l = l
take_in (broke kind) l = l

-- How `link.read()` throws.
pub read_failure : StopReason → DirectFailure
read_failure unsupported_reason = unsupported
read_failure _ = protocol

-- How `link.send()` rejects before it takes the message.
pub send_refusal : Link.Link → Option DirectFailure
send_refusal l =
    if l.ended
    then some expired
    else if l.stopped
    then some cancelled
    else if leb messages_per_side l.sent_count
    then some protocol
    else none

pub data Result : Type 0 where
  resolves : Result
  rejects : DirectFailure → Result

-- Where the methods are: `readInvite`, `offer` and `send`, in that order.
pub data Phase : Type 0 where
  starting invited offering awaiting accepted declined : Phase
  encoding answering telling connecting pathing transferring : Phase
  closing ended : Result → Phase
  threw : DirectFailure → Phase

-- Where `answerRestarts` is.
pub data Loop : Type 0 where
  off reading reply telling_reply telling_stop over : Loop

pub record Session : Type 0 where
  pub link : Link.Link
  pub max : Option ℕ  -- the invitation's
  pub size : Option ℕ  -- the manifest's
  pub offer_sdp : Option Text
  pub peer_made : Bool
  pub peer_failed : Bool  -- `peer.state` is `failed`
  pub peer_closed : Bool
  pub started : Bool  -- `run` is set
  pub aborted : Bool
  pub failure : Option DirectFailure
  pub watch : Watch.Watch
  pub gave_up : Bool  -- `watch.failed` has rejected
  pub restarts_possible : Bool
  pub finished : Bool
  pub loop : Loop
  pub phase : Phase

abbrev pub fresh : Session
fresh = record {
  link = Link.fresh;
  max = none;
  size = none;
  offer_sdp = none;
  peer_made = false;
  peer_failed = false;
  peer_closed = false;
  started = false;
  aborted = false;
  failure = none;
  watch = Watch.fresh;
  gave_up = false;
  restarts_possible = true;
  finished = false;
  loop = off;
  phase = starting;
}

-- `??=`, and `??`.
abbrev pub first : Option DirectFailure → DirectFailure → Option DirectFailure
first none kind = some kind
first (some f) kind = some f

abbrev pub or_else : Option DirectFailure → DirectFailure → DirectFailure
or_else none kind = kind
or_else (some f) kind = f

-- `close()`.
unfoldable pub close : Session → Session
close s = record s { peer_closed = s.peer_made || s.peer_closed; link = Link.end_link s.link }

abbrev pub stop_with : Option StopReason → Link.Link → Link.Link
stop_with none l = l
stop_with (some reason) l = Link.send_stop reason l

-- `end(error)` in `readInvite` and `offer`.
unfoldable pub throw : DirectFailure → Session → Session
throw kind s = record s { link = stop_with (sender_end_stop kind) s.link; phase = threw kind }

-- The `catch` of `send`, with the start of its `finally`.
unfoldable pub leave : DirectFailure → Session → Session
leave kind s = record s {
  link = stop_with (sender_end_stop (or_else s.failure kind)) s.link;
  watch = Watch.stop s.watch;
  phase = closing (rejects (or_else s.failure kind));
}

-- The session's `giveUp`, with the watch that has called it.
unfoldable pub given_up : Watch.Watch → Session → Session
given_up w s =
    let s' = record s {
      watch = w;
      gave_up = true;
      failure = first s.failure (if w.ever_connected then lost else connect);
    } in
    close s'

-- `watch.giveUp()`.
unfoldable pub give_up : Session → Session
give_up s = if not s.peer_made || s.watch.stopped then s else given_up (Watch.give_up s.watch) s

-- `fail(error)`.
unfoldable pub fail : DirectFailure → Session → Session
fail kind s =
    let s1 = record s { failure = first s.failure kind } in
    let s2 = give_up s1 in
    record s2 { aborted = s2.started || s2.aborted; peer_closed = s2.peer_made || s2.peer_closed }

-- `noMoreRestarts()`.
unfoldable pub no_more_restarts : Session → Session
no_more_restarts s =
    let s' = record s { restarts_possible = false } in
    if s.peer_made && s.peer_failed then give_up s' else s'

-- What the watch does may give up.
unfoldable pub watched : Watch.Watch → Session → Session
watched w s =
    if length w.gave_up == length s.watch.gave_up then record s { watch = w } else given_up w s

-- A link that has ended gives no more messages.
abbrev pub heard : Incoming → Session → Incoming
heard inc s = if s.link.ended then broke network else inc

abbrev pub received : Incoming → Session → Session
received inc s = record s { link = take_in (heard inc s) s.link }
