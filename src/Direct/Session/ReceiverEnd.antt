-- ===== src/Direct/Session/ReceiverEnd.antt =====
-- What the receiving end does (class ReceiverSession of src/direct/session.ts). What each `await` gives is an
-- event, and so is what the connection, the exchange and the page do meanwhile.
pub mod Handlers
pub mod Order
pub mod Steady
pub mod Restarts
mod Tests
use wildbloom.Prelude.{
  ℕ, ◌+◌, ◌-◌, Bool, true, false, not, ◌&&◌, ◌||◌, if◌then◌else◌, List, [], ◌∷◌, Option, none, some,
  ltb, leb, ◌==◌,
}
use wildbloom.Prelude.Text.{Text}
use wildbloom.Direct.Config.{max_restarts}
use wildbloom.Direct.Transfer.{TransferFailure}
use wildbloom.Direct.Messages.{
  DirectMessage, IceServer, invite, manifest, accept, decline, answer, restart, restart_answer,
  StopReason, cancelled_reason, failed_reason,
}
use wildbloom.Direct.Messages
use wildbloom.Direct.Session.Failures.{
  DirectFailure, cancelled, protocol, connect, failure_for_peer_stop, failure_for_transfer,
  transfer,
}
use wildbloom.Direct.Session.Link
use wildbloom.Direct.Session.Watch
use wildbloom.Direct.Session.Sending.{
  Incoming, came, refused, broke, take_in, read_failure, send_refusal, first, Result, resolves,
}
use wildbloom.Direct.Session.SenderEnd.{Outcome, good, bad, is_grave}
use wildbloom.Direct.Session.Receiving.{
  Pending, Phase, starting, inviting, invited, manifested, declining, declined, offering, telling,
  awaiting, applying, sinking, connecting, transferring, leaving, threw, closing, ended, Turn, idle,
  making, sending, waiting, Loop, off, reading, telling_stop, over, using, Session, close, throw,
  leave, left, given_up, settle, drop_pending, fail, schedule, watched, heard, received,
}

-- A message is sent if the link takes it, and else its refusal is handled.
pub send_or :
    Option DirectFailure
    → DirectMessage
    → (DirectFailure → Session → Session)
    → Phase
    → Session
    → Session
send_or none m refusal next s = record s { link = Link.send (Link.body m) s.link; phase = next }
send_or (some kind) m refusal next s = refusal kind s

-- `invitation(invite)`, up to its `await`.
pub on_invitation : Bool → List IceServer → Text → ℕ → Session → Session
on_invitation hide ice id max s =
    let s' = record s { max = some max } in
    send_or (send_refusal s.link) (invite hide ice id max) throw inviting s'

-- `readManifest`, from the message on.
pub on_manifest : Incoming → Session → Session
on_manifest (came (manifest name size type)) s = record s { size = some size; phase = manifested }
on_manifest (came (Messages.stop reason)) s = throw (failure_for_peer_stop reason) s
on_manifest (came m) s = throw protocol s
on_manifest (refused reason) s = throw (read_failure reason) s
on_manifest (broke kind) s = throw kind s

-- The `finally` of `decline`.
pub end_declined : Phase → Session → Session
end_declined phase s = record s { link = Link.end_link s.link; phase = phase }

-- `decline()`, up to its `await`.
pub on_decline : Session → Session
on_decline s =
    send_or (send_refusal s.link) decline (λ kind s'. end_declined (threw kind) s') declining s

-- The start of `accept`: the envelope's length, and the peer.
pub on_accept : Outcome (Unit {0}) → Session → Session
on_accept (bad kind) s = let s' = record s { started = true } in leave kind s'
on_accept (good _) s = record s { started = true; peer_made = true; phase = offering }

pub on_offered : Outcome Text → Session → Session
on_offered (bad kind) s = leave kind s
on_offered (good sdp) s = send_or (send_refusal s.link) (accept sdp) leave telling s

-- The answer of the page, with the key.
pub on_answer : Incoming → Session → Session
on_answer (came (answer key sdp)) s = record s { phase = applying }
on_answer (came (Messages.stop reason)) s = leave (failure_for_peer_stop reason) s
on_answer (came m) s = leave protocol s
on_answer (refused reason) s = leave (read_failure reason) s
on_answer (broke kind) s = leave kind s

-- What an `await` of `accept` gives, if there is nothing more to do than to go on.
pub go_on : Phase → Outcome (Unit {0}) → Session → Session
go_on next (bad kind) s = leave kind s
go_on next (good _) s = record s { phase = next }

-- The sink is made, and `readAnswers` begins.
pub on_sink : Outcome (Unit {0}) → Session → Session
on_sink (bad kind) s = leave kind s
on_sink (good _) s = record s { sink_made = true; loop = reading; phase = connecting }

-- `receiveEnvelope` settles.
pub on_transferred : Option TransferFailure → Session → Session
on_transferred none s = record s {
  finished = true;
  watch = Watch.stop s.watch;
  timer = false;
  phase = closing resolves;
}
on_transferred (some kind) s = leave (failure_for_transfer (transfer kind)) s

-- `restartOnce()`, up to its first `await`, when its turn in the chain has come.
abbrev pub may_restart : Session → Bool
may_restart s =
    s.peer_made
    && not s.finished
    && not s.link.ended
    && not s.peer_closed
    && ltb s.restarts_used max_restarts

pub on_turn : Session → Session
on_turn s =
    if s.queued == 0
    then s
    else if may_restart s
    then record s { queued = s.queued - 1; restarts_used = s.restarts_used + 1; turn = making }
    else record s { queued = s.queued - 1 }

-- The restart's offer is made: it waits for its answer at the index that it takes itself.
pub restart_or : Option DirectFailure → Text → Session → Session
restart_or none sdp s = record s {
  link = Link.send (Link.body (restart sdp)) s.link;
  turn = sending;
}
restart_or (some kind) sdp s = record s { turn = idle }

pub on_restart_offer : Outcome Text → Session → Session
on_restart_offer (bad kind) s = record s { turn = idle }
on_restart_offer (good sdp) s =
    let s' = record s {
      pending = some (record { index = s.link.sent_count; number = s.restarts_used });
    } in
    restart_or (send_refusal s.link) sdp s'

-- The restart has gone, and is awaited unless its answer has been dealt with.
abbrev pub is_settled : Option ℕ → ℕ → Bool
is_settled none number = false
is_settled (some n) number = n == number

pub on_restart_told : Outcome (Unit {0}) → Session → Session
on_restart_told (bad kind) s = record s { turn = idle }
on_restart_told (good _) s = record s {
  turn = if is_settled s.settled s.restarts_used then idle else waiting;
}

-- A read of `readAnswers` fails.
pub on_read_failure : DirectFailure → Session → Session
on_read_failure kind s =
    let s0 = record s { loop = over } in
    let s1 = drop_pending s.pending s0 in if is_grave kind then fail kind s1 else s1

-- An answer that nobody asked for: the link is stopped, and the session fails when that has settled.
pub misplaced : Session → Session
misplaced s = record s { loop = telling_stop; link = Link.send_stop failed_reason s.link }

pub on_stop_told : Session → Session
on_stop_told s = let s' = record s { loop = over } in fail protocol s'

pub on_restart_answer : ℕ → Option Pending → Session → Session
on_restart_answer index none s = misplaced s
on_restart_answer index (some p) s =
    if p.index == index then record s { pending = none; loop = using p } else misplaced s

-- A message that `readAnswers` reads.
pub on_answer_message : ℕ → Incoming → Session → Session
on_answer_message index (came (Messages.stop reason)) s =
    let s' = record s { loop = over } in fail (failure_for_peer_stop reason) s'
on_answer_message index (came (restart_answer sdp)) s = on_restart_answer index s.pending s
on_answer_message index (came m) s = misplaced s
on_answer_message index (refused reason) s = on_read_failure (read_failure reason) s
on_answer_message index (broke kind) s = on_read_failure kind s

-- The answer is applied or refused; either way the restart is no longer awaited.
pub on_used : Pending → Session → Session
on_used p s = let s' = record s { loop = reading } in settle p s'

-- `stop(reason)`; a stop that is not immediate closes in a later event.
pub on_stop : Bool → Bool → Session → Session
on_stop by_person immediate s =
    if s.finished
    then s
    else (let s' = record s {
      failure = first s.failure (if by_person then cancelled else protocol);
      aborted = s.started || s.aborted;
      link = Link.send_stop (if by_person then cancelled_reason else failed_reason) s.link;
    } in
        if immediate then close s' else s')

-- The peer reports its state.
pub on_state : Watch.PeerState → Session → Session
on_state state s =
    if s.peer_made && not s.watch.stopped
    then (let s' = record s { timer = schedule state s.timer } in
        watched (Watch.evaluate state s.watch) s')
    else s

-- `restartTimer` fires.
pub on_restart_timer : Session → Session
on_restart_timer s =
    if s.timer
    then record s {
      timer = false;
      queued = if ltb s.restarts_used max_restarts then s.queued + 1 else s.queued;
    }
    else s

pub data Event : Type 0 where
  invites : Bool → List IceServer → Text → ℕ → Event
  invite_told : Outcome (Unit {0}) → Event
  manifest_read : Incoming → Event
  declines : Event
  decline_told : Outcome (Unit {0}) → Event
  accepts : Outcome (Unit {0}) → Event
  offered : Outcome Text → Event
  accept_told : Outcome (Unit {0}) → Event
  answer_read : Incoming → Event
  answer_applied sink_ready channel_open : Outcome (Unit {0}) → Event
  transferred : Option TransferFailure → Event
  watch_failed sink_gone drained : Event
  restarts turn_comes restart_timeout : Event
  restart_offered : Outcome Text → Event
  restart_told : Outcome (Unit {0}) → Event
  message_read : Incoming → Event
  stop_told answer_used : Event
  peer_reports : Watch.PeerState → Event
  connect_timeout failed_timeout : Event
  refuses : StopReason → Event
  stops : Bool → Bool → Event
  closes link_turns link_settles : Event

-- An event applies only where its method is.
pub step : Event → Phase → Turn → Loop → Session → Session
step (invites hide ice id max) starting turn loop s = on_invitation hide ice id max s
step (invite_told (good _)) inviting turn loop s = record s { phase = invited }
step (invite_told (bad kind)) inviting turn loop s = throw kind s
step (manifest_read inc) invited turn loop s = on_manifest (heard inc s) (received inc s)
step declines manifested turn loop s = on_decline s
step (decline_told (good _)) declining turn loop s = end_declined declined s
step (decline_told (bad kind)) declining turn loop s = end_declined (threw kind) s
step (accepts result) manifested turn loop s = on_accept result s
step (offered result) offering turn loop s = on_offered result s
step (accept_told result) telling turn loop s = go_on awaiting result s
step (answer_read inc) awaiting turn loop s = on_answer (heard inc s) (received inc s)
step (answer_applied result) applying turn loop s = go_on sinking result s
step (sink_ready result) sinking turn loop s = on_sink result s
step (channel_open result) connecting turn loop s = go_on transferring result s
step (transferred result) transferring turn loop s = on_transferred result s
step watch_failed connecting turn loop s = if s.gave_up then leave connect s else s
step watch_failed transferring turn loop s = if s.gave_up then leave connect s else s
step sink_gone (leaving kind) turn loop s = left kind s
step drained (closing result) turn loop s = let s' = record s { phase = ended result } in close s'
step restarts phase turn loop s = record s { queued = s.queued + 1 }
step turn_comes phase idle loop s = on_turn s
step restart_timeout phase turn loop s = on_restart_timer s
step (restart_offered result) phase making loop s = on_restart_offer result s
step (restart_told result) phase sending loop s = on_restart_told result s
step (message_read inc) phase turn reading s =
    on_answer_message s.link.received_count (heard inc s) (received inc s)
step stop_told phase turn telling_stop s = on_stop_told s
step answer_used phase turn (using p) s = on_used p s
step (peer_reports state) phase turn loop s = on_state state s
step connect_timeout phase turn loop s =
    if s.peer_made then watched (Watch.connect_fires s.watch) s else s
step failed_timeout phase turn loop s =
    if s.peer_made then watched (Watch.failed_fires s.watch) s else s
step (refuses reason) phase turn loop s = record s { link = Link.read (Link.bad reason) s.link }
step (stops by_person immediate) phase turn loop s = on_stop by_person immediate s
step closes phase turn loop s = close s
step link_turns phase turn loop s = record s {
  link = Link.hand_over s.link.waiting s.link.busy s.link;
}
step link_settles phase turn loop s = record s { link = Link.settle s.link.busy s.link }
step event phase turn loop s = s

pub run : List Event → Session → Session
run [] s = s
run (e ∷ es) s = run es (step e s.phase s.turn s.loop s)
