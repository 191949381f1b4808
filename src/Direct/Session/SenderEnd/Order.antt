-- ===== src/Direct/Session/SenderEnd/Order.antt =====
-- What every step of a link keeps, the sending end keeps (class SenderSession of src/direct/session.ts).
use wildbloom.Prelude.{ℕ, ◌≡◌, refl, List, [], ◌∷◌, arith, length, ◌++◌, ◌≤◌}
use wildbloom.Prelude.Text.{Text}
use wildbloom.Direct.Config.{messages_per_side}
use wildbloom.Direct.Messages.{DirectMessage, manifest, answer, restart_answer}
use wildbloom.Direct.Session.Link
use wildbloom.Direct.Session.Link.Stops.{
  Fits, send-Fits, send_stop-Fits, read-Fits, end_link-Fits, hand_over-Fits, settle-Fits, StopsLast,
}
use wildbloom.Direct.Session.Sending
use wildbloom.Direct.Session.Sending.{
  Incoming, came, refused, broke, take_in, Session, Phase, Loop, close, throw, leave, fail,
  no_more_restarts, watched, heard, received, first, read_failure, send_refusal,
}
use wildbloom.Direct.Session.Sending.Order.{Kept, received_kept, throw_kept, leave_kept, close_kept}
use wildbloom.Direct.Session.SenderEnd
use wildbloom.Direct.Session.SenderEnd.{
  Event, step, run, on_invite, send_or, on_offer, on_offer_reply, end_loop, on_read_failure,
  is_grave, on_restart_message, misplaced, on_stop_told, Outcome, good, bad, reply_or,
  on_restart_answer, on_restart_told, on_answer, on_encoded, on_transferred, on_stop,
}
use wildbloom.Direct.Session.SenderEnd.Handlers.{
  on_invite_kept, on_offer_reply_kept, on_offer_kept, on_stop_told_kept, on_restart_message_kept,
  on_restart_answer_kept, on_restart_told_kept, on_answer_kept, on_encoded_kept,
  on_transferred_kept, on_stop_kept, abandon_kept, watching_kept,
}

module _ {Q : DirectMessage → Type 0} {P : Link.Link → Type 0} (k : Kept Q P) where
  -- A step keeps what each operation of the link keeps, if it sends what is allowed.
  pub step_kept :
      (e : Event) (phase : Phase) (loop : Loop) (s : Session)
      → ((name : Text) (size : ℕ) (type : Text) → Q (manifest name size type))
      → ((sdp : Text) → Q (restart_answer sdp))
      → (phase ≡ Sending.answering → (key sdp : Text) → Q (answer key sdp))
      → P s.link
      → P (step e phase loop s).link
  unfolding step
  step_kept (SenderEnd.invite_read inc) Sending.starting loop s o r a f =
      on_invite_kept k (heard inc s) (received inc s) (received_kept k inc s f)
  step_kept (SenderEnd.offers name size type) Sending.invited loop s o r a f =
      on_offer_kept k name size type s.max s (o name size type) f
  step_kept (SenderEnd.offer_told (good _)) Sending.offering loop s o r a f = f
  step_kept (SenderEnd.offer_told (bad d)) Sending.offering loop s o r a f = throw_kept k d s f
  step_kept (SenderEnd.offer_read inc) Sending.awaiting loop s o r a f =
      on_offer_reply_kept k (heard inc s) (received inc s) (received_kept k inc s f)
  step_kept SenderEnd.sends Sending.accepted loop s o r a f = f
  step_kept (SenderEnd.encoded result) Sending.encoding loop s o r a f =
      on_encoded_kept k result s f
  step_kept (SenderEnd.answered result) Sending.answering loop s o r a f =
      on_answer_kept k result s (a refl) f
  step_kept (SenderEnd.answer_told (good _)) Sending.telling loop s o r a f = f
  step_kept (SenderEnd.answer_told (bad d)) Sending.telling loop s o r a f = leave_kept k d s f
  step_kept (SenderEnd.channel_open (good _)) Sending.connecting loop s o r a f = f
  step_kept (SenderEnd.channel_open (bad d)) Sending.connecting loop s o r a f = leave_kept k d s f
  step_kept SenderEnd.path_read Sending.pathing loop s o r a f = f
  step_kept (SenderEnd.transferred result) Sending.transferring loop s o r a f =
      on_transferred_kept k result s f
  step_kept SenderEnd.watch_failed Sending.connecting loop s o r a f = abandon_kept k s f
  step_kept SenderEnd.watch_failed Sending.pathing loop s o r a f = abandon_kept k s f
  step_kept SenderEnd.watch_failed Sending.transferring loop s o r a f = abandon_kept k s f
  step_kept SenderEnd.drained (Sending.closing result) loop s o r a f =
      close_kept k (record s { phase = Sending.ended result }) f
  step_kept (SenderEnd.restart_read inc) phase Sending.reading s o r a f =
      on_restart_message_kept k s.link.received_count (heard inc s) (received inc s)
        (received_kept k inc s f)
  step_kept SenderEnd.stop_told phase Sending.telling_stop s o r a f = on_stop_told_kept k s f
  step_kept (SenderEnd.restart_answered result) phase Sending.reply s o r a f =
      on_restart_answer_kept k result s r f
  step_kept (SenderEnd.restart_told result) phase Sending.telling_reply s o r a f =
      on_restart_told_kept k result s f
  step_kept (SenderEnd.peer_reports state) phase loop s o r a f =
      watching_kept k _ (record s { peer_failed = SenderEnd.is_failed_state state }) s f f
  step_kept SenderEnd.connect_timeout phase loop s o r a f = watching_kept k _ s s f f
  step_kept SenderEnd.failed_timeout phase loop s o r a f = watching_kept k _ s s f f
  step_kept (SenderEnd.stops by_person immediate) phase loop s o r a f =
      on_stop_kept k by_person immediate s f
  step_kept (SenderEnd.refuses reason) phase loop s o r a f = k.heard_it (Link.bad reason) s.link f
  step_kept SenderEnd.closes phase loop s o r a f = close_kept k s f
  step_kept SenderEnd.link_turns phase loop s o r a f = k.turned s.link f
  step_kept SenderEnd.link_settles phase loop s o r a f = k.settled s.link f
  step_kept e phase loop s o r a f = f

abbrev pub Always : DirectMessage → Type 0
Always m = Unit

pub Fits-Kept : Kept Always Fits
Fits-Kept = record {
  sent = λ m l q f. send-Fits m l f;
  stopped = send_stop-Fits;
  heard_it = read-Fits;
  ended = end_link-Fits;
  turned = λ l f. hand_over-Fits l.waiting l.busy l refl f;
  settled = λ l f. settle-Fits l.busy l refl f;
}

run-Fits : (es : List Event) (s : Session) → Fits s.link → Fits (run es s).link
unfolding run
run-Fits [] s f = f
run-Fits (e ∷ es) s f =
    run-Fits es (step e s.phase s.loop s)
      (step_kept Fits-Kept e s.phase s.loop s (λ n z t. tt) (λ x. tt) (λ p x y. tt) f)

-- Whatever the other end sends and whatever becomes of the connection, a sending session takes at most
-- eight messages for the exchange, and none after a stop.
pub session_order :
    (es : List Event)
    → let l = (run es Sending.fresh).link in
      (length (l.handed ++ l.waiting) ≤ messages_per_side) × StopsLast (l.handed ++ l.waiting)
session_order es =
    let f = run-Fits es Sending.fresh (ground arith) in
    (omega (arith, f.bound, f.ordered.count), f.ordered.last)
