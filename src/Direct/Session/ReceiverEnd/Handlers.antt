-- ===== src/Direct/Session/ReceiverEnd/Handlers.antt =====
-- What each operation of a link keeps, each method of the receiving end keeps (class ReceiverSession of
-- src/direct/session.ts).
use wildbloom.Prelude.{
  ℕ, Bool, true, false, List, Option, none, some, arith, Bool-cases, inl, inr, if◌then◌else◌, not,
  ◌&&◌, ◌==◌,
}
use wildbloom.Prelude.Text.{Text}
use wildbloom.Direct.Transfer.{TransferFailure}
use wildbloom.Direct.Messages.{
  DirectMessage, IceServer, StopReason, invite, manifest, accept, decline, answer, restart,
  restart_answer, failed_reason,
}
use wildbloom.Direct.Messages
use wildbloom.Direct.Session.Failures.{DirectFailure, failure_for_peer_stop}
use wildbloom.Direct.Session.Failures
use wildbloom.Direct.Session.Link
use wildbloom.Direct.Session.Watch
use wildbloom.Direct.Session.Sending.{Incoming, came, refused, broke, read_failure, send_refusal}
use wildbloom.Direct.Session.Sending.Order.{Kept}
use wildbloom.Direct.Session.SenderEnd.{Outcome, good, bad, is_grave}
use wildbloom.Direct.Session.Receiving
use wildbloom.Direct.Session.Receiving.{
  Pending, Phase, Turn, Loop, Session, close, throw, leave, left, given_up, give_up, settle,
  drop_pending, fail, watched, heard, received,
}
use wildbloom.Direct.Session.Receiving.Order.{
  throw_kept, leave_kept, close_kept, drop_pending_kept, fail_kept, watched_kept,
}
use wildbloom.Direct.Session.ReceiverEnd.{
  send_or, on_invitation, on_manifest, end_declined, on_decline, on_accept, on_offered, on_answer,
  go_on, on_sink, on_transferred, on_turn, restart_or, on_restart_offer, on_restart_told,
  on_read_failure, misplaced, on_stop_told, on_restart_answer, on_answer_message, on_used, on_stop,
  on_state, on_restart_timer,
}

module _ {Q : DirectMessage → Type 0} {P : Link.Link → Type 0} (k : Kept Q P) where
  pub send_or_kept :
      (o : Option DirectFailure) (m : DirectMessage) (refusal : DirectFailure → Session → Session)
      (next : Phase) (s : Session)
      → Q m
      → ((d : DirectFailure) → P (refusal d s).link)
      → P s.link
      → P (send_or o m refusal next s).link
  unfolding send_or
  send_or_kept none m refusal next s q r f = k.sent m s.link q f
  send_or_kept (some d) m refusal next s q r f = r d

  pub on_invitation_kept :
      (hide : Bool) (ice : List IceServer) (id : Text) (max : ℕ) (s : Session)
      → Q (invite hide ice id max)
      → P s.link
      → P (on_invitation hide ice id max s).link
  unfolding on_invitation
  on_invitation_kept hide ice id max s q f =
      let s' = record s { max = some max } in
      send_or_kept (send_refusal s.link) (invite hide ice id max) throw Receiving.inviting s' q
        (λ d. throw_kept k d s' f) f

  pub on_manifest_kept : (inc : Incoming) (s : Session) → P s.link → P (on_manifest inc s).link
  unfolding on_manifest
  on_manifest_kept (came (manifest a b c)) s f = f
  on_manifest_kept (came m) s f = throw_kept k _ s f
  on_manifest_kept (refused r) s f = throw_kept k _ s f
  on_manifest_kept (broke d) s f = throw_kept k d s f

  pub end_declined_kept : (p : Phase) (s : Session) → P s.link → P (end_declined p s).link
  unfolding end_declined
  end_declined_kept p s f = k.ended s.link f

  pub on_decline_kept : (s : Session) → Q decline → P s.link → P (on_decline s).link
  unfolding on_decline
  on_decline_kept s q f =
      send_or_kept (send_refusal s.link) decline (λ d s'. end_declined (Receiving.threw d) s')
        Receiving.declining s q (λ d. end_declined_kept (Receiving.threw d) s f) f

  pub on_accept_kept : (o : Outcome (Unit {0})) (s : Session) → P s.link → P (on_accept o s).link
  unfolding on_accept leave
  on_accept_kept (bad d) s f = f
  on_accept_kept (good _) s f = f

  pub on_offered_kept :
      (o : Outcome Text) (s : Session)
      → ((sdp : Text) → Q (accept sdp))
      → P s.link
      → P (on_offered o s).link
  unfolding on_offered
  on_offered_kept (bad d) s q f = leave_kept k d s f
  on_offered_kept (good sdp) s q f =
      send_or_kept (send_refusal s.link) (accept sdp) leave Receiving.telling s (q sdp)
        (λ d. leave_kept k d s f) f

  pub on_answer_kept : (inc : Incoming) (s : Session) → P s.link → P (on_answer inc s).link
  unfolding on_answer
  on_answer_kept (came (answer a b)) s f = f
  on_answer_kept (came m) s f = leave_kept k _ s f
  on_answer_kept (refused r) s f = leave_kept k _ s f
  on_answer_kept (broke d) s f = leave_kept k d s f

  pub go_on_kept :
      (p : Phase) (o : Outcome (Unit {0})) (s : Session) → P s.link → P (go_on p o s).link
  unfolding go_on
  go_on_kept p (bad d) s f = leave_kept k d s f
  go_on_kept p (good _) s f = f

  pub on_sink_kept : (o : Outcome (Unit {0})) (s : Session) → P s.link → P (on_sink o s).link
  unfolding on_sink
  on_sink_kept (bad d) s f = leave_kept k d s f
  on_sink_kept (good _) s f = f

  pub on_transferred_kept :
      (o : Option TransferFailure) (s : Session) → P s.link → P (on_transferred o s).link
  unfolding on_transferred
  on_transferred_kept none s f = f
  on_transferred_kept (some d) s f = leave_kept k _ s f

  pub on_turn_kept : (s : Session) → P s.link → P (on_turn s).link
  unfolding on_turn
  on_turn_kept s f = ground arith

  pub restart_or_kept :
      (o : Option DirectFailure) (sdp : Text) (s : Session)
      → Q (restart sdp)
      → P s.link
      → P (restart_or o sdp s).link
  unfolding restart_or
  restart_or_kept none sdp s q f = k.sent (restart sdp) s.link q f
  restart_or_kept (some d) sdp s q f = f

  pub on_restart_offer_kept :
      (o : Outcome Text) (s : Session)
      → ((sdp : Text) → Q (restart sdp))
      → P s.link
      → P (on_restart_offer o s).link
  unfolding on_restart_offer
  on_restart_offer_kept (bad d) s q f = f
  on_restart_offer_kept (good sdp) s q f = restart_or_kept (send_refusal s.link) sdp _ (q sdp) f

  pub on_restart_told_kept :
      (o : Outcome (Unit {0})) (s : Session) → P s.link → P (on_restart_told o s).link
  unfolding on_restart_told
  on_restart_told_kept (bad d) s f = f
  on_restart_told_kept (good _) s f = f

  pub on_read_failure_kept :
      (d : DirectFailure) (s : Session) → P s.link → P (on_read_failure d s).link
  unfolding on_read_failure
  on_read_failure_kept d s f =
      let s1 = drop_pending s.pending (record s { loop = Receiving.over }) in
      let g = drop_pending_kept k s.pending (record s { loop = Receiving.over }) f in
      elim (Bool-cases (is_grave d)) [ inl t ↦ simp t (fail_kept k d s1 g) | inr t ↦ simp t g ]

  pub misplaced_kept : (s : Session) → P s.link → P (misplaced s).link
  unfolding misplaced
  misplaced_kept s f = k.stopped failed_reason s.link f

  pub on_stop_told_kept : (s : Session) → P s.link → P (on_stop_told s).link
  unfolding on_stop_told
  on_stop_told_kept s f = fail_kept k Failures.protocol (record s { loop = Receiving.over }) f

  pub on_restart_answer_kept :
      (index : ℕ) (o : Option Pending) (s : Session)
      → P s.link
      → P (on_restart_answer index o s).link
  unfolding on_restart_answer
  on_restart_answer_kept index none s f = misplaced_kept s f
  on_restart_answer_kept index (some p) s f = elim (Bool-cases (p.index == index)) [
    | inl t ↦ simp t f
    | inr t ↦ simp t (misplaced_kept s f)
  ]

  pub on_answer_message_kept :
      (index : ℕ) (inc : Incoming) (s : Session) → P s.link → P (on_answer_message index inc s).link
  unfolding on_answer_message
  on_answer_message_kept index (refused r) s f = on_read_failure_kept (read_failure r) s f
  on_answer_message_kept index (broke d) s f = on_read_failure_kept d s f
  on_answer_message_kept index (came (Messages.stop r)) s f =
      fail_kept k (failure_for_peer_stop r) (record s { loop = Receiving.over }) f
  on_answer_message_kept index (came (restart_answer a)) s f =
      on_restart_answer_kept index s.pending s f
  on_answer_message_kept index (came m) s f = misplaced_kept s f

  pub on_used_kept : (p : Pending) (s : Session) → P s.link → P (on_used p s).link
  unfolding on_used settle
  on_used_kept p s f = f

  pub stopping_kept : (i : Bool) (s : Session) → P s.link → P (if i then close s else s).link
  stopping_kept true s f = close_kept k s f
  stopping_kept false s f = f

  pub on_stop_kept : (b i : Bool) (s : Session) → P s.link → P (on_stop b i s).link
  unfolding on_stop
  on_stop_kept b i s f = elim (Bool-cases s.finished) [
    | inl t ↦ simp t f
    | inr t ↦ simp t (stopping_kept i _ (k.stopped _ s.link f))
  ]

  pub on_state_kept : (state : Watch.PeerState) (s : Session) → P s.link → P (on_state state s).link
  unfolding on_state
  on_state_kept state s f = elim (Bool-cases (s.peer_made && not s.watch.stopped)) [
    | inl t ↦ simp t (watched_kept k (Watch.evaluate state s.watch) _ f)
    | inr t ↦ simp t f
  ]

  pub watching_kept :
      (w : Watch.Watch) (s : Session) → P s.link → P (if s.peer_made then watched w s else s).link
  watching_kept w s f = elim (Bool-cases s.peer_made) [
    | inl t ↦ simp t (watched_kept k w s f)
    | inr t ↦ simp t f
  ]

  pub on_restart_timer_kept : (s : Session) → P s.link → P (on_restart_timer s).link
  unfolding on_restart_timer
  on_restart_timer_kept s f = ground arith

  pub abandon_kept :
      (s : Session) → P s.link → P (if s.gave_up then leave Failures.connect s else s).link
  abandon_kept s f = elim (Bool-cases s.gave_up) [
    | inl t ↦ simp t (leave_kept k Failures.connect s f)
    | inr t ↦ simp t f
  ]
