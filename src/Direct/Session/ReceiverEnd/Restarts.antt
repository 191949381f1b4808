-- ===== src/Direct/Session/ReceiverEnd/Restarts.antt =====
-- How often the receiving end restarts the connection (class ReceiverSession of src/direct/session.ts).
use wildbloom.Prelude.{
  ℕ, ◌≡◌, ◌≤◌, ◌+◌, refl, sym, ap, ◌∙◌, true, false, List, [], ◌∷◌, Option, none, some, arith,
  Bool-cases, inl, inr,
}
use wildbloom.Prelude.Text.{Text}
use wildbloom.Direct.Config.{max_restarts}
use wildbloom.Direct.Messages.{restart}
use wildbloom.Direct.Session.Failures.{DirectFailure}
use wildbloom.Direct.Session.Link.Tally.{
  taken_of, send_tally, send_stop_tally, read_tally, end_link_tally, hand_over_tally, settle_tally,
}
use wildbloom.Direct.Session.Sending.{send_refusal}
use wildbloom.Direct.Session.Sending.Order.{Kept}
use wildbloom.Direct.Session.SenderEnd.{Outcome, good, bad}
use wildbloom.Direct.Session.Receiving
use wildbloom.Direct.Session.Receiving.{
  Pending, Phase, Turn, Loop, Session, close, throw, leave, left, given_up, give_up, settle,
  drop_pending, fail, watched, heard, received,
}
use wildbloom.Direct.Session.ReceiverEnd
use wildbloom.Direct.Session.ReceiverEnd.{
  send_or, on_invitation, on_manifest, end_declined, on_decline, on_accept, on_offered, on_answer,
  go_on, on_sink, on_transferred, on_turn, restart_or, on_restart_offer, on_restart_told,
  on_read_failure, misplaced, on_stop_told, on_restart_answer, on_answer_message, on_used, on_stop,
  on_state, on_restart_timer, Event, step, run,
}
use wildbloom.Direct.Session.ReceiverEnd.Steady.{owed, begins, step-Steady}
use wildbloom.Direct.Session.ReceiverEnd.Order.{is_restart, step_kept}

tally-Kept : (n : ℕ) → Kept (λ m. is_restart m ≡ false) (λ l. taken_of is_restart l ≤ n)
tally-Kept n = record {
  sent = λ m l q f. send_tally is_restart n m l (grind arith);
  stopped = λ r l f. send_stop_tally is_restart n r l f;
  heard_it = λ d l f. read_tally is_restart n d l f;
  ended = λ l f. end_link_tally is_restart n l f;
  turned = λ l f. hand_over_tally is_restart n l f;
  settled = λ l f. settle_tally is_restart n l.busy l f;
}

-- What holds of a session between any two events.
record Count (s : Session) : Type 0 where
  pub used : s.restarts_used ≤ max_restarts
  pub sent : taken_of is_restart s.link + owed s.turn ≤ s.restarts_used

steady-Count :
    (e : Event) (s : Session) → begins e ≡ false → Count s → Count (step e s.phase s.turn s.loop s)
steady-Count e s b c =
    let a = step-Steady e s.phase s.turn s.loop s b refl in
    let k =
      step_kept (tally-Kept (taken_of is_restart s.link)) e s.phase s.turn s.loop s (λ m q. q)
        (λ r q sdp. sym (ap begins q) ∙ b) (omega arith) in
    record { used = omega (arith, a.used, c.used); sent = omega (arith, a.used, a.turn, k, c.sent) }

on_turn-Count : (s : Session) → Count s → Count (on_turn s)
unfolding on_turn
on_turn-Count s c = ground arith

restart_or-Count :
    (o : Option DirectFailure) (sdp : Text) (s : Session)
    → s.restarts_used ≤ max_restarts
    → taken_of is_restart s.link + 1 ≤ s.restarts_used
    → Count (restart_or o sdp s)
unfolding restart_or
restart_or-Count none sdp s u h =
    let q = send_tally is_restart s.restarts_used (restart sdp) s.link h in
    record { used = u; sent = omega (arith, q) }
restart_or-Count (some d) sdp s u h = record { used = u; sent = omega (arith, h) }

on_restart_offer-Count :
    (o : Outcome Text) (s : Session)
    → s.restarts_used ≤ max_restarts
    → taken_of is_restart s.link + 1 ≤ s.restarts_used
    → Count (on_restart_offer o s)
unfolding on_restart_offer
on_restart_offer-Count (bad d) s u h = record { used = u; sent = omega (arith, h) }
on_restart_offer-Count (good sdp) s u h =
    restart_or-Count (send_refusal s.link) sdp
      (record s { pending = some (record { index = s.link.sent_count; number = s.restarts_used }) })
      u h

begin-Count :
    (e : Event) (phase : Phase) (turn : Turn) (loop : Loop) (s : Session)
    → begins e ≡ true
    → s.turn ≡ turn
    → Count s
    → Count (step e phase turn loop s)
unfolding step
begin-Count ReceiverEnd.turn_comes phase Receiving.idle loop s b p c = on_turn-Count s c
begin-Count ReceiverEnd.turn_comes phase Receiving.making loop s b p c = c
begin-Count ReceiverEnd.turn_comes phase Receiving.sending loop s b p c = c
begin-Count ReceiverEnd.turn_comes phase Receiving.waiting loop s b p c = c
begin-Count (ReceiverEnd.restart_offered r) phase Receiving.making loop s b p c =
    on_restart_offer-Count r s c.used (grind arith)
begin-Count (ReceiverEnd.restart_offered r) phase Receiving.idle loop s b p c = c
begin-Count (ReceiverEnd.restart_offered r) phase Receiving.sending loop s b p c = c
begin-Count (ReceiverEnd.restart_offered r) phase Receiving.waiting loop s b p c = c
begin-Count e phase turn loop s b p c = cc b

step-Count : (e : Event) (s : Session) → Count s → Count (step e s.phase s.turn s.loop s)
step-Count e s c = elim (Bool-cases (begins e)) [
  | inl t ↦ begin-Count e s.phase s.turn s.loop s t refl c
  | inr t ↦ steady-Count e s t c
]

run-Count : (es : List Event) (s : Session) → Count s → Count (run es s)
unfolding run
run-Count [] s c = c
run-Count (e ∷ es) s c = run-Count es (step e s.phase s.turn s.loop s) (step-Count e s c)

-- Whatever the page, the timers and the connection do, a receiving session takes at most as many restart offers
-- for the exchange as it has counted restarts, and counts at most five.
pub restarts_bounded :
    (es : List Event)
    → let s = run es Receiving.fresh in
      (taken_of is_restart s.link ≤ s.restarts_used) × (s.restarts_used ≤ max_restarts)
restarts_bounded es =
    let c = run-Count es Receiving.fresh (ground arith) in (omega (arith, c.sent), c.used)
