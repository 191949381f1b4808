-- ===== src/Direct/Session/SenderEnd.antt =====
-- What the sending end does (class SenderSession of src/direct/session.ts). What each `await` gives is an
-- event, and so is what the connection, the exchange and the page do meanwhile.
pub mod Handlers
pub mod Order
pub mod Agreement
pub mod Key
mod Tests
use wildbloom.Prelude.{
  ℕ, ◌+◌, Bool, true, false, not, ◌&&◌, ◌||◌, if◌then◌else◌, List, [], ◌∷◌, Option, none, some, ltb,
  leb, ◌==◌, is_some, length,
}
use wildbloom.Prelude.Text.{Text}
use wildbloom.Direct.Config.{messages_per_side}
use wildbloom.Direct.Transfer.{TransferFailure}
use wildbloom.Direct.Messages.{
  DirectMessage, invite, manifest, accept, decline, answer, restart, restart_answer, StopReason,
  cancelled_reason, failed_reason, unsupported_reason,
}
use wildbloom.Direct.Messages
use wildbloom.Direct.Session.Failures.{
  DirectFailure, cancelled, unsupported, protocol, expired, network, too_big, connect, lost,
  failure_for_peer_stop, failure_for_transfer, transfer, sender_end_stop,
}
use wildbloom.Direct.Session.Link
use wildbloom.Direct.Session.Watch
use wildbloom.Direct.Session.Sending.{
  Incoming, came, refused, broke, take_in, read_failure, send_refusal, Result, resolves, rejects,
  Phase, starting, invited, offering, awaiting, accepted, declined, encoding, answering, telling,
  connecting, pathing, transferring, closing, ended, threw, Loop, off, reading, reply,
  telling_reply, telling_stop, over, Session, fresh, first, or_else, close, stop_with, throw, leave,
  given_up, give_up, fail, no_more_restarts, watched, heard, received,
}

-- `readInvite`, from the message on.
pub on_invite : Incoming → Session → Session
on_invite (came (invite hide ice id max)) s = record s { max = some max; phase = invited }
on_invite (came m) s = throw protocol s
on_invite (refused reason) s = throw (read_failure reason) s
on_invite (broke kind) s = throw kind s

-- A message is sent if the link takes it, and else its refusal is handled.
pub send_or :
    Option DirectFailure
    → DirectMessage
    → (DirectFailure → Session → Session)
    → Phase
    → Session
    → Session
send_or none m refusal next s = record s { link = Link.send (Link.body m) s.link; phase = next }
send_or (some kind) m refusal next s = refusal kind s

-- `offer(manifest)`, up to its first `await`.
pub on_offer : Text → ℕ → Text → Option ℕ → Session → Session
on_offer name size type none s = s
on_offer name size type (some max) s =
    if ltb max size
    then throw too_big s
    else (let s' = record s { size = some size } in
        send_or (send_refusal s.link) (manifest name size type) throw offering s')

-- The answer to the offer.
pub on_offer_reply : Incoming → Session → Session
on_offer_reply (came decline) s = record s { link = Link.end_link s.link; phase = declined }
on_offer_reply (came (Messages.stop reason)) s = throw (failure_for_peer_stop reason) s
on_offer_reply (came (accept sdp)) s = record s { offer_sdp = some sdp; phase = accepted }
on_offer_reply (came m) s = throw protocol s
on_offer_reply (refused reason) s = throw (read_failure reason) s
on_offer_reply (broke kind) s = throw kind s

-- `answerRestarts` ends with a failure.
pub end_loop : DirectFailure → Session → Session
end_loop network s = let s' = record s { loop = over } in no_more_restarts s'
end_loop expired s = let s' = record s { loop = over } in no_more_restarts s'
end_loop kind s = let s' = record s { loop = over } in fail kind s'

-- A message that `answerRestarts` reads. A read that fails is only the end of restarts, unless
-- the message was not allowed.
pub is_grave : DirectFailure → Bool
is_grave protocol = true
is_grave unsupported = true
is_grave _ = false

pub on_read_failure : DirectFailure → Session → Session
on_read_failure kind s =
    let s' = record s { loop = over } in if is_grave kind then fail kind s' else no_more_restarts s'

-- Another message than a restart at the index that its answer will take: the link is stopped, and the session
-- fails when that has settled.
pub misplaced : Session → Session
misplaced s = record s { loop = telling_stop; link = Link.send_stop failed_reason s.link }

pub on_stop_told : Session → Session
on_stop_told s = let s' = record s { loop = over } in fail protocol s'

-- A restart is answered at the index that it took.
pub on_restart_message : ℕ → Incoming → Session → Session
on_restart_message index (came (Messages.stop reason)) s =
    let s' = record s { loop = over } in fail (failure_for_peer_stop reason) s'
on_restart_message index (came (restart sdp)) s =
    if index == s.link.sent_count then record s { loop = reply } else misplaced s
on_restart_message index (came m) s = misplaced s
on_restart_message index (refused reason) s = on_read_failure (read_failure reason) s
on_restart_message index (broke kind) s = on_read_failure kind s

-- What an `await` gives when it may fail.
pub data Outcome {ℓ} (A : Type ℓ) : Type ℓ where
  good : A → Outcome A
  bad : DirectFailure → Outcome A

-- The answer to a restart goes out.
pub reply_or : Option DirectFailure → Text → Session → Session
reply_or none sdp s = record s {
  link = Link.send (Link.body (restart_answer sdp)) s.link;
  loop = telling_reply;
}
reply_or (some kind) sdp s = end_loop kind s

pub on_restart_answer : Outcome Text → Session → Session
on_restart_answer (bad kind) s = end_loop kind s
on_restart_answer (good sdp) s = reply_or (send_refusal s.link) sdp s

pub on_restart_told : Outcome (Unit {0}) → Session → Session
on_restart_told (bad kind) s = end_loop kind s
on_restart_told (good _) s = record s { loop = reading }

-- The answer to the accepted offer goes out, with the key.
pub on_answer : Outcome (Text × Text) → Session → Session
on_answer (bad kind) s = leave kind s
on_answer (good (key, sdp)) s = send_or (send_refusal s.link) (answer key sdp) leave telling s

-- The encoder is made, and the peer.
pub on_encoded : Outcome (Unit {0}) → Session → Session
on_encoded (bad kind) s = leave kind s
on_encoded (good _) s = record s { peer_made = true; phase = answering }

-- `sendEnvelope` settles.
pub on_transferred : Option TransferFailure → Session → Session
on_transferred none s = record s {
  finished = true;
  watch = Watch.stop s.watch;
  phase = closing resolves;
}
on_transferred (some kind) s = leave (failure_for_transfer (transfer kind)) s

-- `stop(reason)`; a stop that is not immediate closes in a later event.
pub on_stop : Bool → Bool → Session → Session
on_stop by_person immediate s =
    if s.finished
    then s
    else (let s' = record s {
      failure = first s.failure (if by_person then cancelled else protocol);
      aborted = s.started || s.aborted;
      link = Link.send_stop (if by_person then cancelled_reason else failed_reason) s.link;
    } in
        if immediate then close s' else s')

pub data Event : Type 0 where
  invite_read : Incoming → Event
  offers : Text → ℕ → Text → Event
  offer_told : Outcome (Unit {0}) → Event
  offer_read : Incoming → Event
  sends : Event
  encoded : Outcome (Unit {0}) → Event
  answered : Outcome (Text × Text) → Event
  answer_told : Outcome (Unit {0}) → Event
  refuses : StopReason → Event
  channel_open : Outcome (Unit {0}) → Event
  path_read : Event
  transferred : Option TransferFailure → Event
  watch_failed drained : Event
  restart_read : Incoming → Event
  stop_told : Event
  restart_answered : Outcome Text → Event
  restart_told : Outcome (Unit {0}) → Event
  peer_reports : Watch.PeerState → Event
  connect_timeout failed_timeout : Event
  stops : Bool → Bool → Event
  closes link_turns link_settles : Event

abbrev is_failed_state : Watch.PeerState → Bool
is_failed_state Watch.failed = true
is_failed_state _ = false

-- An event applies only where its method is.
pub step : Event → Phase → Loop → Session → Session
step (invite_read inc) starting loop s = on_invite (heard inc s) (received inc s)
step (offers name size type) invited loop s = on_offer name size type s.max s
step (offer_told (good _)) offering loop s = record s { phase = awaiting }
step (offer_told (bad kind)) offering loop s = throw kind s
step (offer_read inc) awaiting loop s = on_offer_reply (heard inc s) (received inc s)
step sends accepted loop s = record s { started = true; phase = encoding }
step (encoded result) encoding loop s = on_encoded result s
step (answered result) answering loop s = on_answer result s
step (answer_told (good _)) telling loop s = record s { phase = connecting; loop = reading }
step (answer_told (bad kind)) telling loop s = leave kind s
step (channel_open (good _)) connecting loop s = record s { phase = pathing }
step (channel_open (bad kind)) connecting loop s = leave kind s
step path_read pathing loop s = record s { phase = transferring }
step (transferred result) transferring loop s = on_transferred result s
step watch_failed connecting loop s = if s.gave_up then leave connect s else s
step watch_failed pathing loop s = if s.gave_up then leave connect s else s
step watch_failed transferring loop s = if s.gave_up then leave connect s else s
step drained (closing result) loop s = let s' = record s { phase = ended result } in close s'
step (restart_read inc) phase reading s =
    on_restart_message s.link.received_count (heard inc s) (received inc s)
step stop_told phase telling_stop s = on_stop_told s
step (restart_answered result) phase reply s = on_restart_answer result s
step (restart_told result) phase telling_reply s = on_restart_told result s
step (peer_reports state) phase loop s =
    if s.peer_made
    then (let s' = record s { peer_failed = is_failed_state state } in
        watched (Watch.evaluate state s.watch) s')
    else s
step connect_timeout phase loop s =
    if s.peer_made then watched (Watch.connect_fires s.watch) s else s
step failed_timeout phase loop s = if s.peer_made then watched (Watch.failed_fires s.watch) s else s
step (stops by_person immediate) phase loop s = on_stop by_person immediate s
step (refuses reason) phase loop s = record s { link = Link.read (Link.bad reason) s.link }
step closes phase loop s = close s
step link_turns phase loop s = record s { link = Link.hand_over s.link.waiting s.link.busy s.link }
step link_settles phase loop s = record s { link = Link.settle s.link.busy s.link }
step event phase loop s = s

pub run : List Event → Session → Session
run [] s = s
run (e ∷ es) s = run es (step e s.phase s.loop s)
