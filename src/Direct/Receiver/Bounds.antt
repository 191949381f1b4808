-- ===== src/Direct/Receiver/Bounds.antt =====
-- The counts of a receiver after any events.
use wildbloom.Prelude.{ℕ, ◌≤◌, ◌≡◌, refl, ◌∙◌, Bool, List, [], ◌∷◌, Option, none, some, arith}
use wildbloom.Direct.Config.{unacknowledged_bytes}
use wildbloom.Direct.Frames.{Frame, data_frame, Result, ok, err, decode_frame, Role}
use wildbloom.Direct.Receiver.{
  Call, write, finish, discard, Reply, resolved, out_of_room, refused, Receiver, fail, on_data,
  on_end, on_decoded, on_frame, start, acknowledge, settled, answer, clean_up, Event, message,
  channel_closed, aborted, next_step, replied, drained, step, run, init,
}
use wildbloom.Direct.Receiver.Queue.{weight, items}
use wildbloom.Direct.Receiver.Invariant.{init-Inv, run-Inv}

on_decoded-total : (f : Result Frame) (r : Receiver) → (on_decoded f r).total ≡ r.total
unfolding on_decoded on_data on_end fail
on_decoded-total (err e) r = ground arith
on_decoded-total (ok (data_frame o bytes)) r = ground arith
on_decoded-total (ok _) r = ground arith

settled-total : (reply : Reply) (c : Call) (r : Receiver) → (settled reply c r).total ≡ r.total
unfolding settled acknowledge fail
settled-total resolved (write b) r = ground arith
settled-total resolved (finish h n) r = ground arith
settled-total resolved discard r = refl
settled-total out_of_room c r = ground arith
settled-total refused c r = ground arith

start-total : (q : List Call) (o : Option Call) (r : Receiver) → (start q o r).total ≡ r.total
unfolding start
start-total [] none r = refl
start-total [] (some c) r = refl
start-total (c ∷ q) none r = ground arith
start-total (c ∷ q) (some d) r = refl

answer-total : (reply : Reply) (o : Option Call) (r : Receiver) → (answer reply o r).total ≡ r.total
unfolding answer
answer-total reply none r = refl
answer-total reply (some c) r = settled-total reply c (record r { running = none })

-- No event changes the length of the envelope.
pub step-total : (e : Event) (r : Receiver) → (step e r).total ≡ r.total
unfolding step on_frame clean_up fail
step-total (message bytes) r = ground (arith, on_decoded-total (decode_frame Role.sender bytes) r)
step-total channel_closed r = ground arith
step-total aborted r = ground arith
step-total next_step r = start-total r.queue r.running r
step-total (replied reply) r = answer-total reply r.running r
step-total drained r = ground arith

pub run-total : (es : List Event) (r : Receiver) → (run es r).total ≡ r.total
unfolding run
run-total [] r = refl
run-total (e ∷ es) r = run-total es (step e r) ∙ step-total e r

pub init-total :
    (total size : ℕ) (is_open signal_aborted : Bool)
    → (init total size is_open signal_aborted).total ≡ total
unfolding init fail
init-total total size is_open signal_aborted = ground arith

-- Whatever arrives, and however the sink answers, what a receiver has acknowledged is written, what
-- is written has been received, what has been received lies within the envelope, and the bytes that
-- wait for the sink are never more than 8 MiB.
pub receiver_bounds :
    (total size : ℕ) (is_open signal_aborted : Bool) (es : List Event)
    → let r = run es (init total size is_open signal_aborted) in
      (r.last_ack ≤ r.written)
      × (r.written ≤ r.received)
      × (r.received ≤ total)
      × (weight (items r.running r.queue) ≤ unacknowledged_bytes)
receiver_bounds total size is_open signal_aborted es =
    let r = init total size is_open signal_aborted in
    let v = run-Inv es r (init-Inv total size is_open signal_aborted) in
    omega (arith, v, run-total es r, init-total total size is_open signal_aborted)
