-- ===== src/Direct/Session/ReceiverEnd/Steady.antt =====
-- Which steps begin no restart (class ReceiverSession of src/direct/session.ts).
use wildbloom.Prelude.{
  ℕ, ◌≡◌, ◌≤◌, refl, subst, Bool, true, false, List, Option, none, some, arith, Bool-cases, inl,
  inr, if◌then◌else◌, not, ◌&&◌,
}
use wildbloom.Prelude.Text.{Text}
use wildbloom.Direct.Messages.{DirectMessage, IceServer, restart_answer, restart}
use wildbloom.Direct.Messages
use wildbloom.Direct.Session.Failures.{DirectFailure, failure_for_peer_stop}
use wildbloom.Direct.Session.Failures
use wildbloom.Direct.Session.Watch
use wildbloom.Direct.Session.Sending.{Incoming, came, refused, broke, read_failure, first}
use wildbloom.Direct.Session.SenderEnd.{Outcome, good, bad, is_grave}
use wildbloom.Direct.Session.Receiving
use wildbloom.Direct.Session.Receiving.{
  Pending, Phase, Turn, Loop, Session, close, throw, leave, left, given_up, give_up, settle,
  drop_pending, fail, watched, heard, received,
}
use wildbloom.Direct.Session.ReceiverEnd
use wildbloom.Direct.Session.ReceiverEnd.{
  send_or, on_invitation, on_manifest, end_declined, on_decline, on_accept, on_offered, on_answer,
  go_on, on_sink, on_transferred, on_turn, restart_or, on_restart_offer, on_restart_told,
  on_read_failure, misplaced, on_stop_told, on_restart_answer, on_answer_message, on_used, on_stop,
  on_state, on_restart_timer, Event, step, run,
}

-- A restart that was counted and has not been sent.
abbrev pub owed : Turn → ℕ
owed Receiving.making = 1
owed _ = 0

-- A step that begins no restart.
pub record Steady (n : ℕ) (t : Turn) (s : Session) : Type 0 where
  pub used : s.restarts_used ≡ n
  pub turn : owed s.turn ≤ owed t

abbrev From : Session → Session → Type 0
From s t = Steady s.restarts_used s.turn t

settle-Steady : (p : Pending) (s : Session) → From s (settle p s)
unfolding settle
settle-Steady p s = ground arith

give_up-Steady : (s : Session) → From s (give_up s)
unfolding give_up given_up close
give_up-Steady s = ground arith

drop_pending-Steady : (o : Option Pending) (s : Session) → From s (drop_pending o s)
unfolding drop_pending
drop_pending-Steady none s = ground arith
drop_pending-Steady (some p) s = settle-Steady p (record s { pending = none })

both-Steady : (n : ℕ) (turn : Turn) (s t : Session) → Steady n turn s → From s t → Steady n turn t
both-Steady n turn s t a b = record {
  used = omega (arith, a.used, b.used);
  turn = omega (arith, a.turn, b.turn);
}

fail-Steady : (d : DirectFailure) (s : Session) → From s (fail d s)
unfolding fail
fail-Steady d s =
    let s1 = drop_pending s.pending (record s { failure = first s.failure d }) in
    let a = drop_pending-Steady s.pending (record s { failure = first s.failure d }) in
    let b = both-Steady s.restarts_used s.turn s1 (give_up s1) a (give_up-Steady s1) in
    record { used = b.used; turn = b.turn }

watched-Steady : (w : Watch.Watch) (s : Session) → From s (watched w s)
unfolding watched given_up close
watched-Steady w s = ground arith

on_read_failure-Steady : (d : DirectFailure) (s : Session) → From s (on_read_failure d s)
unfolding on_read_failure
on_read_failure-Steady d s =
    let s1 = drop_pending s.pending (record s { loop = Receiving.over }) in
    let a = drop_pending-Steady s.pending (record s { loop = Receiving.over }) in
    elim (Bool-cases (is_grave d)) [
      | inl t ↦ simp t (both-Steady s.restarts_used s.turn s1 (fail d s1) a (fail-Steady d s1))
      | inr t ↦ simp t a
    ]

misplaced-Steady : (s : Session) → From s (misplaced s)
unfolding misplaced
misplaced-Steady s = ground arith

on_restart_answer-Steady :
    (i : ℕ) (o : Option Pending) (s : Session) → From s (on_restart_answer i o s)
unfolding on_restart_answer misplaced
on_restart_answer-Steady i o s = ground arith

on_answer_message-Steady :
    (i : ℕ) (inc : Incoming) (s : Session) → From s (on_answer_message i inc s)
unfolding on_answer_message
on_answer_message-Steady i (refused r) s = on_read_failure-Steady (read_failure r) s
on_answer_message-Steady i (broke d) s = on_read_failure-Steady d s
on_answer_message-Steady i (came (Messages.stop r)) s =
    fail-Steady (failure_for_peer_stop r) (record s { loop = Receiving.over })
on_answer_message-Steady i (came (restart_answer a)) s = on_restart_answer-Steady i s.pending s
on_answer_message-Steady i (came m) s = misplaced-Steady s

on_manifest-Steady : (inc : Incoming) (s : Session) → From s (on_manifest inc s)
unfolding on_manifest throw
on_manifest-Steady (came m) s = ground arith
on_manifest-Steady (refused r) s = ground arith
on_manifest-Steady (broke d) s = ground arith

on_answer-Steady : (inc : Incoming) (s : Session) → From s (on_answer inc s)
unfolding on_answer leave
on_answer-Steady (came m) s = ground arith
on_answer-Steady (refused r) s = ground arith
on_answer-Steady (broke d) s = ground arith

on_invitation-Steady :
    (hide : Bool) (ice : List IceServer) (id : Text) (max : ℕ) (s : Session)
    → From s (on_invitation hide ice id max s)
unfolding on_invitation send_or throw
on_invitation-Steady hide ice id max s = ground arith

on_decline-Steady : (s : Session) → From s (on_decline s)
unfolding on_decline send_or end_declined
on_decline-Steady s = ground arith

on_offered-Steady : (o : Outcome Text) (s : Session) → From s (on_offered o s)
unfolding on_offered send_or leave
on_offered-Steady o s = ground arith

on_restart_told-Steady : (o : Outcome (Unit {0})) (s : Session) → From s (on_restart_told o s)
unfolding on_restart_told
on_restart_told-Steady o s = ground arith

on_stop-Steady : (b i : Bool) (s : Session) → From s (on_stop b i s)
unfolding on_stop close
on_stop-Steady b i s = ground arith

on_restart_timer-Steady : (s : Session) → From s (on_restart_timer s)
unfolding on_restart_timer
on_restart_timer-Steady s = ground arith

on_stop_told-Steady : (s : Session) → From s (on_stop_told s)
unfolding on_stop_told
on_stop_told-Steady s = fail-Steady Failures.protocol (record s { loop = Receiving.over })

on_used-Steady : (p : Pending) (s : Session) → From s (on_used p s)
unfolding on_used
on_used-Steady p s = settle-Steady p (record s { loop = Receiving.reading })

on_state-Steady : (state : Watch.PeerState) (s : Session) → From s (on_state state s)
unfolding on_state
on_state-Steady state s = elim (Bool-cases (s.peer_made && not s.watch.stopped)) [
  | inl t ↦ simp t (
      watched-Steady (Watch.evaluate state s.watch)
        (record s { timer = Receiving.schedule state s.timer }))
  | inr t ↦ simp t (ground arith)
]

-- The events that begin a restart or send its offer.
abbrev pub begins : Event → Bool
begins ReceiverEnd.turn_comes = true
begins (ReceiverEnd.restart_offered result) = true
begins _ = false

moved :
    (s : Session) {t : Session} {turn : Turn}
    → s.turn ≡ turn
    → From s t
    → Steady s.restarts_used turn t
moved s {t} p a = subst (λ x. Steady s.restarts_used x t) p a

watching-Steady : (w : Watch.Watch) (s : Session) → From s (if s.peer_made then watched w s else s)
watching-Steady w s = elim (Bool-cases s.peer_made) [
  | inl t ↦ simp t (watched-Steady w s)
  | inr t ↦ simp t (ground arith)
]

pub step-Steady :
    (e : Event) (phase : Phase) (turn : Turn) (loop : Loop) (s : Session)
    → begins e ≡ false
    → s.turn ≡ turn
    → Steady s.restarts_used turn (step e phase turn loop s)
unfolding step throw leave left close go_on on_sink on_accept on_transferred end_declined
step-Steady (ReceiverEnd.invites hide ice id max) Receiving.starting turn loop s b p =
    moved s p (on_invitation-Steady hide ice id max s)
step-Steady (ReceiverEnd.invite_told (good _)) Receiving.inviting turn loop s b p = ground arith
step-Steady (ReceiverEnd.invite_told (bad d)) Receiving.inviting turn loop s b p = ground arith
step-Steady (ReceiverEnd.manifest_read inc) Receiving.invited turn loop s b p =
    moved s p (on_manifest-Steady (heard inc s) (received inc s))
step-Steady ReceiverEnd.declines Receiving.manifested turn loop s b p =
    moved s p (on_decline-Steady s)
step-Steady (ReceiverEnd.decline_told (good _)) Receiving.declining turn loop s b p = ground arith
step-Steady (ReceiverEnd.decline_told (bad d)) Receiving.declining turn loop s b p = ground arith
step-Steady (ReceiverEnd.accepts result) Receiving.manifested turn loop s b p = ground arith
step-Steady (ReceiverEnd.offered result) Receiving.offering turn loop s b p =
    moved s p (on_offered-Steady result s)
step-Steady (ReceiverEnd.accept_told result) Receiving.telling turn loop s b p = ground arith
step-Steady (ReceiverEnd.answer_read inc) Receiving.awaiting turn loop s b p =
    moved s p (on_answer-Steady (heard inc s) (received inc s))
step-Steady (ReceiverEnd.answer_applied result) Receiving.applying turn loop s b p = ground arith
step-Steady (ReceiverEnd.sink_ready result) Receiving.sinking turn loop s b p = ground arith
step-Steady (ReceiverEnd.channel_open result) Receiving.connecting turn loop s b p = ground arith
step-Steady (ReceiverEnd.transferred result) Receiving.transferring turn loop s b p = ground arith
step-Steady ReceiverEnd.watch_failed Receiving.connecting turn loop s b p = ground arith
step-Steady ReceiverEnd.watch_failed Receiving.transferring turn loop s b p = ground arith
step-Steady ReceiverEnd.sink_gone (Receiving.leaving d) turn loop s b p = ground arith
step-Steady ReceiverEnd.drained (Receiving.closing result) turn loop s b p = ground arith
step-Steady ReceiverEnd.restarts phase turn loop s b p = ground arith
step-Steady ReceiverEnd.restart_timeout phase turn loop s b p =
    moved s p (on_restart_timer-Steady s)
step-Steady (ReceiverEnd.restart_told result) phase Receiving.sending loop s b p =
    moved s p (on_restart_told-Steady result s)
step-Steady (ReceiverEnd.message_read inc) phase turn Receiving.reading s b p =
    moved s p (on_answer_message-Steady s.link.received_count (heard inc s) (received inc s))
step-Steady ReceiverEnd.stop_told phase turn Receiving.telling_stop s b p =
    moved s p (on_stop_told-Steady s)
step-Steady ReceiverEnd.answer_used phase turn (Receiving.using q) s b p =
    moved s p (on_used-Steady q s)
step-Steady (ReceiverEnd.peer_reports state) phase turn loop s b p =
    moved s p (on_state-Steady state s)
step-Steady ReceiverEnd.connect_timeout phase turn loop s b p = moved s p (watching-Steady _ s)
step-Steady ReceiverEnd.failed_timeout phase turn loop s b p = moved s p (watching-Steady _ s)
step-Steady (ReceiverEnd.refuses reason) phase turn loop s b p = ground arith
step-Steady (ReceiverEnd.stops by_person immediate) phase turn loop s b p =
    moved s p (on_stop-Steady by_person immediate s)
step-Steady ReceiverEnd.closes phase turn loop s b p = ground arith
step-Steady ReceiverEnd.link_turns phase turn loop s b p = ground arith
step-Steady ReceiverEnd.link_settles phase turn loop s b p = ground arith
step-Steady ReceiverEnd.turn_comes phase turn loop s b p = cc b
step-Steady (ReceiverEnd.restart_offered result) phase turn loop s b p = cc b
step-Steady e phase turn loop s b p = moved s p (record { used = refl; turn = omega arith })
