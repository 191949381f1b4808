-- ===== src/Direct/Session/Receiving.antt =====
-- The state of a receiving session, and how it is left (class ReceiverSession of src/direct/session.ts). The
-- fields of the class are those of a record, with the places that its methods have come to.
pub mod Order
use wildbloom.Prelude.{
  ℕ, Bool, true, false, not, ◌&&◌, ◌||◌, if◌then◌else◌, Option, none, some, ◌==◌, length,
}
use wildbloom.Direct.Messages.{StopReason, failed_reason, cancelled_reason}
use wildbloom.Direct.Session.Failures.{
  DirectFailure, cancelled, protocol, network, connect, lost, receiver_end_stop,
}
use wildbloom.Direct.Session.Link
use wildbloom.Direct.Session.Watch
use wildbloom.Direct.Session.Sending.{
  Incoming, broke, take_in, first, or_else, stop_with, Result, rejects,
}

-- A restart that waits for its answer: the index at which that is due, and which restart it is.
pub record Pending : Type 0 where
  pub index : ℕ
  pub number : ℕ

-- Where the methods are: `invitation`, `readManifest`, and then `decline` or `accept`.
pub data Phase : Type 0 where
  starting inviting invited manifested declining declined : Phase
  offering telling awaiting applying sinking connecting transferring : Phase
  leaving threw : DirectFailure → Phase
  closing ended : Result → Phase

-- Where the restart at the head of `restartChain` is.
pub data Turn : Type 0 where
  idle making sending waiting : Turn

-- Where `readAnswers` is.
pub data Loop : Type 0 where
  off reading telling_stop over : Loop
  using : Pending → Loop

pub record Session : Type 0 where
  pub link : Link.Link
  pub max : Option ℕ  -- the invitation's
  pub size : Option ℕ  -- the manifest's
  pub peer_made : Bool
  pub peer_closed : Bool  -- `peer.state` is `closed`
  pub started : Bool  -- `run` is set
  pub aborted : Bool
  pub failure : Option DirectFailure
  pub watch : Watch.Watch
  pub gave_up : Bool  -- `watch.failed` has rejected
  pub sink_made : Bool
  pub sink_aborted : Bool
  pub finished : Bool
  pub restarts_used : ℕ
  pub pending : Option Pending
  pub settled : Option ℕ  -- the last restart whose answer was applied or given up
  pub queued : ℕ  -- the calls of `restartIce` behind the head of the chain
  pub timer : Bool  -- `restartTimer` runs
  pub turn : Turn
  pub loop : Loop
  pub phase : Phase

abbrev pub fresh : Session
fresh = record {
  link = Link.fresh;
  max = none;
  size = none;
  peer_made = false;
  peer_closed = false;
  started = false;
  aborted = false;
  failure = none;
  watch = Watch.fresh;
  gave_up = false;
  sink_made = false;
  sink_aborted = false;
  finished = false;
  restarts_used = 0;
  pending = none;
  settled = none;
  queued = 0;
  timer = false;
  turn = idle;
  loop = off;
  phase = starting;
}

-- `close()`.
unfoldable pub close : Session → Session
close s = record s { peer_closed = s.peer_made || s.peer_closed; link = Link.end_link s.link }

-- `end(error)` in `invitation` and `readManifest`.
unfoldable pub throw : DirectFailure → Session → Session
throw kind s = record s { link = stop_with (receiver_end_stop kind) s.link; phase = threw kind }

-- The `catch` of `accept`, up to its `await`.
unfoldable pub leave : DirectFailure → Session → Session
leave kind s = record s { sink_aborted = s.sink_made || s.sink_aborted; phase = leaving kind }

-- The rest of the `catch`, and the start of the `finally`.
unfoldable pub left : DirectFailure → Session → Session
left kind s = record s {
  link = stop_with (receiver_end_stop (or_else s.failure kind)) s.link;
  watch = Watch.stop s.watch;
  timer = false;
  phase = closing (rejects (or_else s.failure kind));
}

-- The session's `giveUp`, with the watch that has called it.
unfoldable pub given_up : Watch.Watch → Session → Session
given_up w s =
    let s' = record s {
      watch = w;
      gave_up = true;
      failure = first s.failure (if w.ever_connected then lost else connect);
    } in
    close s'

-- `watch.giveUp()`.
unfoldable pub give_up : Session → Session
give_up s = if not s.peer_made || s.watch.stopped then s else given_up (Watch.give_up s.watch) s

-- The answer to a restart was applied, or will not be: whoever awaits it goes on.
unfoldable pub settle : Pending → Session → Session
settle p s = record s {
  settled = some p.number;
  turn = elim s.turn [
    | waiting ↦ if p.number == s.restarts_used then idle else waiting
    | idle ↦ idle
    | making ↦ making
    | sending ↦ sending
  ];
}

-- `pendingRestart?.reject(…)`, which is then undefined.
unfoldable pub drop_pending : Option Pending → Session → Session
drop_pending none s = s
drop_pending (some p) s = let s' = record s { pending = none } in settle p s'

-- `fail(error)`.
unfoldable pub fail : DirectFailure → Session → Session
fail kind s =
    let s0 = record s { failure = first s.failure kind } in
    let s1 = drop_pending s0.pending s0 in
    let s2 = give_up s1 in
    record s2 { aborted = s2.started || s2.aborted; peer_closed = s2.peer_made || s2.peer_closed }

-- `scheduleRestart(state)`; how long the timer takes is not in the state.
abbrev pub schedule : Watch.PeerState → Bool → Bool
schedule Watch.connected timer = false
schedule Watch.closed timer = false
schedule Watch.failed timer = true
schedule Watch.disconnected timer = true
schedule _ timer = timer

-- What the watch does may give up; it tells `scheduleRestart` of a state unless it has been stopped.
unfoldable pub watched : Watch.Watch → Session → Session
watched w s =
    if length w.gave_up == length s.watch.gave_up then record s { watch = w } else given_up w s

-- A link that has ended gives no more messages.
abbrev pub heard : Incoming → Session → Incoming
heard inc s = if s.link.ended then broke network else inc

abbrev pub received : Incoming → Session → Session
received inc s = record s { link = take_in (heard inc s) s.link }
