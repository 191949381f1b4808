-- ===== src/Direct/Session/Receiving/Order.antt =====
-- What every step of a link keeps, a receiving session keeps on its way out (class ReceiverSession of src/direct/session.ts).
use wildbloom.Prelude.{Option, none, some, Bool-cases, inl, inr, not, ◌||◌, ◌==◌, length}
use wildbloom.Direct.Messages.{DirectMessage}
use wildbloom.Direct.Session.Failures.{DirectFailure}
use wildbloom.Direct.Session.Link
use wildbloom.Direct.Session.Watch
use wildbloom.Direct.Session.Sending.{Incoming, first}
use wildbloom.Direct.Session.Sending.Order.{Kept, take_in_kept, stop_with_kept}
use wildbloom.Direct.Session.Receiving.{
  Pending, Session, close, throw, leave, left, given_up, give_up, settle, drop_pending, fail,
  watched, heard, received,
}

module _ {Q : DirectMessage → Type 0} {P : Link.Link → Type 0} (k : Kept Q P) where
  pub received_kept : (inc : Incoming) (s : Session) → P s.link → P (received inc s).link
  received_kept inc s f = take_in_kept k (heard inc s) s.link f

  pub throw_kept : (d : DirectFailure) (s : Session) → P s.link → P (throw d s).link
  unfolding throw
  throw_kept d s f = stop_with_kept k _ s.link f

  pub leave_kept : (d : DirectFailure) (s : Session) → P s.link → P (leave d s).link
  unfolding leave
  leave_kept d s f = f

  pub left_kept : (d : DirectFailure) (s : Session) → P s.link → P (left d s).link
  unfolding left
  left_kept d s f = stop_with_kept k _ s.link f

  pub close_kept : (s : Session) → P s.link → P (close s).link
  unfolding close
  close_kept s f = k.ended s.link f

  pub given_up_kept : (w : Watch.Watch) (s : Session) → P s.link → P (given_up w s).link
  unfolding given_up close
  given_up_kept w s f = k.ended s.link f

  pub give_up_kept : (s : Session) → P s.link → P (give_up s).link
  unfolding give_up
  give_up_kept s f = elim (Bool-cases (not s.peer_made || s.watch.stopped)) [
    | inl t ↦ simp t f
    | inr t ↦ simp t (given_up_kept (Watch.give_up s.watch) s f)
  ]

  pub drop_pending_kept : (o : Option Pending) (s : Session) → P s.link → P (drop_pending o s).link
  unfolding drop_pending settle
  drop_pending_kept none s f = f
  drop_pending_kept (some p) s f = f

  pub fail_kept : (d : DirectFailure) (s : Session) → P s.link → P (fail d s).link
  unfolding fail
  fail_kept d s f =
      let s0 = record s { failure = first s.failure d } in
      give_up_kept (drop_pending s0.pending s0) (drop_pending_kept s0.pending s0 f)

  pub watched_kept : (w : Watch.Watch) (s : Session) → P s.link → P (watched w s).link
  unfolding watched
  watched_kept w s f = elim (Bool-cases (length w.gave_up == length s.watch.gave_up)) [
    | inl t ↦ simp t f
    | inr t ↦ simp t (given_up_kept w s f)
  ]
