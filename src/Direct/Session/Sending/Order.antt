-- ===== src/Direct/Session/Sending/Order.antt =====
-- What every step of a link keeps, the sending end keeps (class SenderSession of src/direct/session.ts).
use wildbloom.Prelude.{
  false, Option, none, some, Bool-cases, inl, inr, not, ◌||◌, ◌&&◌, ◌==◌, length,
}
use wildbloom.Direct.Messages.{DirectMessage, StopReason}
use wildbloom.Direct.Messages
use wildbloom.Direct.Session.Failures.{DirectFailure}
use wildbloom.Direct.Session.Link
use wildbloom.Direct.Session.Watch
use wildbloom.Direct.Session.Sending.{
  Incoming, came, refused, broke, take_in, Session, close, stop_with, throw, leave, given_up,
  give_up, fail, no_more_restarts, watched, heard, received, first,
}

-- A property of links that each operation keeps, for the messages that are allowed.
pub record Kept (Q : DirectMessage → Type 0) (P : Link.Link → Type 0) : Type 0 where
  pub sent : (m : DirectMessage) (l : Link.Link) → Q m → P l → P (Link.send (Link.body m) l)
  pub stopped : (r : StopReason) (l : Link.Link) → P l → P (Link.send_stop r l)
  pub heard_it : (d : Link.Decoded) (l : Link.Link) → P l → P (Link.read d l)
  pub ended : (l : Link.Link) → P l → P (Link.end_link l)
  pub turned : (l : Link.Link) → P l → P (Link.hand_over l.waiting l.busy l)
  pub settled : (l : Link.Link) → P l → P (Link.settle l.busy l)

module _ {Q : DirectMessage → Type 0} {P : Link.Link → Type 0} (k : Kept Q P) where
  pub take_in_kept : (inc : Incoming) (l : Link.Link) → P l → P (take_in inc l)
  unfolding take_in
  take_in_kept (broke kind) l f = f
  take_in_kept (refused r) l f = f
  take_in_kept (came (Messages.stop r)) l f = k.heard_it Link.good_stop l f
  take_in_kept (came (Messages.invite a b c d)) l f = k.heard_it Link.good_body l f
  take_in_kept (came (Messages.manifest a b c)) l f = k.heard_it Link.good_body l f
  take_in_kept (came (Messages.accept a)) l f = k.heard_it Link.good_body l f
  take_in_kept (came Messages.decline) l f = k.heard_it Link.good_body l f
  take_in_kept (came (Messages.answer a b)) l f = k.heard_it Link.good_body l f
  take_in_kept (came (Messages.restart a)) l f = k.heard_it Link.good_body l f
  take_in_kept (came (Messages.restart_answer a)) l f = k.heard_it Link.good_body l f

  pub received_kept : (inc : Incoming) (s : Session) → P s.link → P (received inc s).link
  received_kept inc s f = take_in_kept (heard inc s) s.link f

  pub stop_with_kept : (o : Option StopReason) (l : Link.Link) → P l → P (stop_with o l)
  stop_with_kept none l f = f
  stop_with_kept (some r) l f = k.stopped r l f

  pub throw_kept : (d : DirectFailure) (s : Session) → P s.link → P (throw d s).link
  unfolding throw
  throw_kept d s f = stop_with_kept _ s.link f

  pub leave_kept : (d : DirectFailure) (s : Session) → P s.link → P (leave d s).link
  unfolding leave
  leave_kept d s f = stop_with_kept _ s.link f

  pub close_kept : (s : Session) → P s.link → P (close s).link
  unfolding close
  close_kept s f = k.ended s.link f

  pub given_up_kept : (w : Watch.Watch) (s : Session) → P s.link → P (given_up w s).link
  unfolding given_up close
  given_up_kept w s f = k.ended s.link f

  pub give_up_kept : (s : Session) → P s.link → P (give_up s).link
  unfolding give_up
  give_up_kept s f = elim (Bool-cases (not s.peer_made || s.watch.stopped)) [
    | inl t ↦ simp t f
    | inr t ↦ simp t (given_up_kept (Watch.give_up s.watch) s f)
  ]

  pub fail_kept : (d : DirectFailure) (s : Session) → P s.link → P (fail d s).link
  unfolding fail
  fail_kept d s f = give_up_kept (record s { failure = first s.failure d }) f

  pub no_more_restarts_kept : (s : Session) → P s.link → P (no_more_restarts s).link
  unfolding no_more_restarts
  no_more_restarts_kept s f = elim (Bool-cases (s.peer_made && s.peer_failed)) [
    | inl t ↦ simp t (give_up_kept (record s { restarts_possible = false }) f)
    | inr t ↦ simp t f
  ]

  pub watched_kept : (w : Watch.Watch) (s : Session) → P s.link → P (watched w s).link
  unfolding watched
  watched_kept w s f = elim (Bool-cases (length w.gave_up == length s.watch.gave_up)) [
    | inl t ↦ simp t f
    | inr t ↦ simp t (given_up_kept w s f)
  ]
