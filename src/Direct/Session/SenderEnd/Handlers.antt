-- ===== src/Direct/Session/SenderEnd/Handlers.antt =====
-- What each operation of a link keeps, each method of the sending end keeps (class SenderSession of
-- src/direct/session.ts).
use wildbloom.Prelude.{
  ℕ, Bool, true, false, Option, none, some, Bool-cases, inl, inr, if◌then◌else◌, ◌==◌, ltb,
}
use wildbloom.Prelude.Text.{Text}
use wildbloom.Direct.Transfer.{TransferFailure}
use wildbloom.Direct.Messages.{
  DirectMessage, StopReason, invite, manifest, accept, decline, answer, restart, restart_answer,
  failed_reason, cancelled_reason,
}
use wildbloom.Direct.Messages
use wildbloom.Direct.Session.Failures.{DirectFailure, failure_for_peer_stop}
use wildbloom.Direct.Session.Failures
use wildbloom.Direct.Session.Link
use wildbloom.Direct.Session.Watch
use wildbloom.Direct.Session.Sending
use wildbloom.Direct.Session.Sending.{
  Incoming, came, refused, broke, take_in, Session, Phase, Loop, close, throw, leave, fail,
  no_more_restarts, watched, heard, received, first, read_failure, send_refusal,
}
use wildbloom.Direct.Session.Sending.Order.{
  Kept, throw_kept, leave_kept, close_kept, fail_kept, no_more_restarts_kept, watched_kept,
}
use wildbloom.Direct.Session.SenderEnd.{
  on_invite, send_or, on_offer, on_offer_reply, end_loop, on_read_failure, is_grave,
  on_restart_message, misplaced, on_stop_told, Outcome, good, bad, reply_or, on_restart_answer,
  on_restart_told, on_answer, on_encoded, on_transferred, on_stop,
}

module _ {Q : DirectMessage → Type 0} {P : Link.Link → Type 0} (k : Kept Q P) where
  pub on_invite_kept : (inc : Incoming) (s : Session) → P s.link → P (on_invite inc s).link
  unfolding on_invite
  on_invite_kept (refused r) s f = throw_kept k (read_failure r) s f
  on_invite_kept (broke d) s f = throw_kept k d s f
  on_invite_kept (came (invite a b c d)) s f = f
  on_invite_kept (came m) s f = throw_kept k _ s f

  pub on_offer_reply_kept :
      (inc : Incoming) (s : Session) → P s.link → P (on_offer_reply inc s).link
  unfolding on_offer_reply
  on_offer_reply_kept (refused r) s f = throw_kept k (read_failure r) s f
  on_offer_reply_kept (broke d) s f = throw_kept k d s f
  on_offer_reply_kept (came (accept a)) s f = f
  on_offer_reply_kept (came decline) s f = k.ended s.link f
  on_offer_reply_kept (came m) s f = throw_kept k _ s f

  pub send_or_kept :
      (o : Option DirectFailure) (m : DirectMessage) (refusal : DirectFailure → Session → Session)
      (next : Phase) (s : Session)
      → Q m
      → ((d : DirectFailure) → P (refusal d s).link)
      → P s.link
      → P (send_or o m refusal next s).link
  unfolding send_or
  send_or_kept none m refusal next s q r f = k.sent m s.link q f
  send_or_kept (some d) m refusal next s q r f = r d

  pub on_offer_kept :
      (name : Text) (size : ℕ) (type : Text) (max : Option ℕ) (s : Session)
      → Q (manifest name size type)
      → P s.link
      → P (on_offer name size type max s).link
  unfolding on_offer
  on_offer_kept name size type none s q f = f
  on_offer_kept name size type (some max) s q f = elim (Bool-cases (ltb max size)) [
    | inl t ↦ simp t (throw_kept k _ s f)
    | inr t ↦ simp t (
        send_or_kept (send_refusal s.link) (manifest name size type) throw Sending.offering
          (record s { size = some size }) q (λ d. throw_kept k d (record s { size = some size }) f)
          f)
  ]

  pub end_loop_kept : (d : DirectFailure) (s : Session) → P s.link → P (end_loop d s).link
  unfolding end_loop
  end_loop_kept Failures.network s f = no_more_restarts_kept k (record s { loop = Sending.over }) f
  end_loop_kept Failures.expired s f = no_more_restarts_kept k (record s { loop = Sending.over }) f
  end_loop_kept d s f = fail_kept k d (record s { loop = Sending.over }) f

  pub on_read_failure_kept :
      (d : DirectFailure) (s : Session) → P s.link → P (on_read_failure d s).link
  unfolding on_read_failure
  on_read_failure_kept d s f = elim (Bool-cases (is_grave d)) [
    | inl t ↦ simp t (fail_kept k d (record s { loop = Sending.over }) f)
    | inr t ↦ simp t (no_more_restarts_kept k (record s { loop = Sending.over }) f)
  ]

  pub misplaced_kept : (s : Session) → P s.link → P (misplaced s).link
  unfolding misplaced
  misplaced_kept s f = k.stopped failed_reason s.link f

  pub on_stop_told_kept : (s : Session) → P s.link → P (on_stop_told s).link
  unfolding on_stop_told
  on_stop_told_kept s f = fail_kept k Failures.protocol (record s { loop = Sending.over }) f

  pub on_restart_message_kept :
      (index : ℕ) (inc : Incoming) (s : Session)
      → P s.link
      → P (on_restart_message index inc s).link
  unfolding on_restart_message
  on_restart_message_kept index (refused r) s f = on_read_failure_kept (read_failure r) s f
  on_restart_message_kept index (broke d) s f = on_read_failure_kept d s f
  on_restart_message_kept index (came (Messages.stop r)) s f =
      fail_kept k (failure_for_peer_stop r) (record s { loop = Sending.over }) f
  on_restart_message_kept index (came (restart a)) s f =
      elim (Bool-cases (index == s.link.sent_count)) [
        | inl t ↦ simp t f
        | inr t ↦ simp t (misplaced_kept s f)
      ]
  on_restart_message_kept index (came m) s f = misplaced_kept s f

  pub reply_or_kept :
      (o : Option DirectFailure) (sdp : Text) (s : Session)
      → Q (restart_answer sdp)
      → P s.link
      → P (reply_or o sdp s).link
  unfolding reply_or
  reply_or_kept none sdp s q f = k.sent (restart_answer sdp) s.link q f
  reply_or_kept (some d) sdp s q f = end_loop_kept d s f

  pub on_restart_answer_kept :
      (o : Outcome Text) (s : Session)
      → ((sdp : Text) → Q (restart_answer sdp))
      → P s.link
      → P (on_restart_answer o s).link
  unfolding on_restart_answer
  on_restart_answer_kept (bad d) s q f = end_loop_kept d s f
  on_restart_answer_kept (good sdp) s q f = reply_or_kept (send_refusal s.link) sdp s (q sdp) f

  pub on_restart_told_kept :
      (o : Outcome (Unit {0})) (s : Session) → P s.link → P (on_restart_told o s).link
  unfolding on_restart_told
  on_restart_told_kept (bad d) s f = end_loop_kept d s f
  on_restart_told_kept (good _) s f = f

  pub on_answer_kept :
      (o : Outcome (Text × Text)) (s : Session)
      → ((key sdp : Text) → Q (answer key sdp))
      → P s.link
      → P (on_answer o s).link
  unfolding on_answer
  on_answer_kept (bad d) s q f = leave_kept k d s f
  on_answer_kept (good (key, sdp)) s q f =
      send_or_kept (send_refusal s.link) (answer key sdp) leave Sending.telling s (q key sdp)
        (λ d. leave_kept k d s f) f

  pub on_encoded_kept : (o : Outcome (Unit {0})) (s : Session) → P s.link → P (on_encoded o s).link
  unfolding on_encoded
  on_encoded_kept (bad d) s f = leave_kept k d s f
  on_encoded_kept (good _) s f = f

  pub on_transferred_kept :
      (o : Option TransferFailure) (s : Session) → P s.link → P (on_transferred o s).link
  unfolding on_transferred
  on_transferred_kept none s f = f
  on_transferred_kept (some d) s f = leave_kept k _ s f

  pub stopping_kept : (i : Bool) (s : Session) → P s.link → P (if i then close s else s).link
  stopping_kept true s f = close_kept k s f
  stopping_kept false s f = f

  pub on_stop_kept : (b i : Bool) (s : Session) → P s.link → P (on_stop b i s).link
  unfolding on_stop
  on_stop_kept b i s f = elim (Bool-cases s.finished) [
    | inl t ↦ simp t f
    | inr t ↦ simp t (stopping_kept i _ (k.stopped _ s.link f))
  ]

  pub abandon_kept :
      (s : Session) → P s.link → P (if s.gave_up then leave Failures.connect s else s).link
  abandon_kept s f = elim (Bool-cases s.gave_up) [
    | inl t ↦ simp t (leave_kept k Failures.connect s f)
    | inr t ↦ simp t f
  ]

  pub watching_kept :
      (w : Watch.Watch) (s' : Session) (s : Session)
      → P s'.link
      → P s.link
      → P (if s.peer_made then watched w s' else s).link
  watching_kept w s' s f' f = elim (Bool-cases s.peer_made) [
    | inl t ↦ simp t (watched_kept k w s' f')
    | inr t ↦ simp t f
  ]
