-- ===== src/Direct/Session/ReceiverEnd/Order.antt =====
-- What every step of a link keeps, the receiving end keeps (class ReceiverSession of src/direct/session.ts).
use wildbloom.Prelude.{◌≡◌, ◌≤◌, ◌++◌, refl, Bool, true, false, List, [], ◌∷◌, arith, length}
use wildbloom.Prelude.Text.{Text}
use wildbloom.Direct.Config.{messages_per_side}
use wildbloom.Direct.Messages.{DirectMessage, restart}
use wildbloom.Direct.Session.Link
use wildbloom.Direct.Session.Link.Stops.{Fits, StopsLast}
use wildbloom.Direct.Session.SenderEnd.Order.{Fits-Kept}
use wildbloom.Direct.Session.Sending.Order.{Kept}
use wildbloom.Direct.Session.SenderEnd.{Outcome, good, bad}
use wildbloom.Direct.Session.Receiving
use wildbloom.Direct.Session.Receiving.{
  Pending, Phase, Turn, Loop, Session, close, throw, leave, left, given_up, give_up, settle,
  drop_pending, fail, watched, heard, received,
}
use wildbloom.Direct.Session.Receiving.Order.{received_kept, throw_kept, left_kept, close_kept}
use wildbloom.Direct.Session.ReceiverEnd
use wildbloom.Direct.Session.ReceiverEnd.{
  send_or, on_invitation, on_manifest, end_declined, on_decline, on_accept, on_offered, on_answer,
  go_on, on_sink, on_transferred, on_turn, may_restart, restart_or, on_restart_offer,
  on_restart_told, on_read_failure, misplaced, on_stop_told, on_restart_answer, on_answer_message,
  on_used, on_stop, on_state, on_restart_timer, Event, step, run,
}
use wildbloom.Direct.Session.ReceiverEnd.Handlers.{
  on_invitation_kept, on_manifest_kept, end_declined_kept, on_decline_kept, on_accept_kept,
  on_offered_kept, on_answer_kept, go_on_kept, on_sink_kept, on_transferred_kept, on_turn_kept,
  on_restart_offer_kept, on_restart_told_kept, on_stop_told_kept, on_answer_message_kept,
  on_used_kept, on_stop_kept, on_state_kept, watching_kept, on_restart_timer_kept, abandon_kept,
}

-- The message of a restart.
abbrev pub is_restart : DirectMessage → Bool
is_restart (restart sdp) = true
is_restart _ = false

module _ {Q : DirectMessage → Type 0} {P : Link.Link → Type 0} (k : Kept Q P) where
  -- A step keeps what each operation of the link keeps, if it sends what is allowed.
  pub step_kept :
      (e : Event) (phase : Phase) (turn : Turn) (loop : Loop) (s : Session)
      → ((m : DirectMessage) → is_restart m ≡ false → Q m)
      → ((result : Outcome Text)
          → e ≡ ReceiverEnd.restart_offered result
          → (sdp : Text) → Q (restart sdp))
      → P s.link
      → P (step e phase turn loop s).link
  unfolding step
  step_kept (ReceiverEnd.invites hide ice id max) Receiving.starting turn loop s o a f =
      on_invitation_kept k hide ice id max s (o _ refl) f
  step_kept (ReceiverEnd.invite_told (good _)) Receiving.inviting turn loop s o a f = f
  step_kept (ReceiverEnd.invite_told (bad d)) Receiving.inviting turn loop s o a f =
      throw_kept k d s f
  step_kept (ReceiverEnd.manifest_read inc) Receiving.invited turn loop s o a f =
      on_manifest_kept k (heard inc s) (received inc s) (received_kept k inc s f)
  step_kept ReceiverEnd.declines Receiving.manifested turn loop s o a f =
      on_decline_kept k s (o _ refl) f
  step_kept (ReceiverEnd.decline_told (good _)) Receiving.declining turn loop s o a f =
      end_declined_kept k _ s f
  step_kept (ReceiverEnd.decline_told (bad d)) Receiving.declining turn loop s o a f =
      end_declined_kept k _ s f
  step_kept (ReceiverEnd.accepts result) Receiving.manifested turn loop s o a f =
      on_accept_kept k result s f
  step_kept (ReceiverEnd.offered result) Receiving.offering turn loop s o a f =
      on_offered_kept k result s (λ sdp. o _ refl) f
  step_kept (ReceiverEnd.accept_told result) Receiving.telling turn loop s o a f =
      go_on_kept k _ result s f
  step_kept (ReceiverEnd.answer_read inc) Receiving.awaiting turn loop s o a f =
      on_answer_kept k (heard inc s) (received inc s) (received_kept k inc s f)
  step_kept (ReceiverEnd.answer_applied result) Receiving.applying turn loop s o a f =
      go_on_kept k _ result s f
  step_kept (ReceiverEnd.sink_ready result) Receiving.sinking turn loop s o a f =
      on_sink_kept k result s f
  step_kept (ReceiverEnd.channel_open result) Receiving.connecting turn loop s o a f =
      go_on_kept k _ result s f
  step_kept (ReceiverEnd.transferred result) Receiving.transferring turn loop s o a f =
      on_transferred_kept k result s f
  step_kept ReceiverEnd.watch_failed Receiving.connecting turn loop s o a f = abandon_kept k s f
  step_kept ReceiverEnd.watch_failed Receiving.transferring turn loop s o a f = abandon_kept k s f
  step_kept ReceiverEnd.sink_gone (Receiving.leaving d) turn loop s o a f = left_kept k d s f
  step_kept ReceiverEnd.drained (Receiving.closing result) turn loop s o a f =
      close_kept k (record s { phase = Receiving.ended result }) f
  step_kept ReceiverEnd.restarts phase turn loop s o a f = f
  step_kept ReceiverEnd.turn_comes phase Receiving.idle loop s o a f = on_turn_kept k s f
  step_kept ReceiverEnd.restart_timeout phase turn loop s o a f = on_restart_timer_kept k s f
  step_kept (ReceiverEnd.restart_offered result) phase Receiving.making loop s o a f =
      on_restart_offer_kept k result s (a result refl) f
  step_kept (ReceiverEnd.restart_told result) phase Receiving.sending loop s o a f =
      on_restart_told_kept k result s f
  step_kept (ReceiverEnd.message_read inc) phase turn Receiving.reading s o a f =
      on_answer_message_kept k s.link.received_count (heard inc s) (received inc s)
        (received_kept k inc s f)
  step_kept ReceiverEnd.stop_told phase turn Receiving.telling_stop s o a f =
      on_stop_told_kept k s f
  step_kept ReceiverEnd.answer_used phase turn (Receiving.using p) s o a f = on_used_kept k p s f
  step_kept (ReceiverEnd.peer_reports state) phase turn loop s o a f = on_state_kept k state s f
  step_kept ReceiverEnd.connect_timeout phase turn loop s o a f = watching_kept k _ s f
  step_kept ReceiverEnd.failed_timeout phase turn loop s o a f = watching_kept k _ s f
  step_kept (ReceiverEnd.refuses reason) phase turn loop s o a f =
      k.heard_it (Link.bad reason) s.link f
  step_kept (ReceiverEnd.stops by_person immediate) phase turn loop s o a f =
      on_stop_kept k by_person immediate s f
  step_kept ReceiverEnd.closes phase turn loop s o a f = close_kept k s f
  step_kept ReceiverEnd.link_turns phase turn loop s o a f = k.turned s.link f
  step_kept ReceiverEnd.link_settles phase turn loop s o a f = k.settled s.link f
  step_kept e phase turn loop s o a f = f

run-Fits : (es : List Event) (s : Session) → Fits s.link → Fits (run es s).link
unfolding run
run-Fits [] s f = f
run-Fits (e ∷ es) s f =
    run-Fits es (step e s.phase s.turn s.loop s)
      (step_kept Fits-Kept e s.phase s.turn s.loop s (λ m q. tt) (λ r q sdp. tt) f)

-- Whatever the page sends and whatever becomes of the connection, a receiving session takes at most eight
-- messages for the exchange, and none after a stop.
pub receiver_order :
    (es : List Event)
    → let l = (run es Receiving.fresh).link in
      (length (l.handed ++ l.waiting) ≤ messages_per_side) × StopsLast (l.handed ++ l.waiting)
receiver_order es =
    let f = run-Fits es Receiving.fresh (ground arith) in
    (omega (arith, f.bound, f.ordered.count), f.ordered.last)
