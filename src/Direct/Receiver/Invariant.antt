-- ===== src/Direct/Receiver/Invariant.antt =====
-- What holds of a receiver between any two events: its counts, the shape of its queue, and the
-- bound on what it holds for the sink.
use wildbloom.Prelude.{
  ℕ, ◌+◌, ◌≤◌, ◌≡◌, refl, Bool, true, false, List, [], ◌∷◌, Option, none, some, arith,
}
use wildbloom.Direct.Config.{unacknowledged_bytes}
use wildbloom.Direct.Frames.{
  StopCode, failure, person, Frame, data_frame, ack, end_frame, kept, stop, Result, ok, err,
  decode_frame, Role,
}
use wildbloom.Direct.Transfer.{TransferFailure, protocol, verification, closed, cancelled}
use wildbloom.Direct.Receiver.{
  Call, write, finish, discard, Reply, resolved, out_of_room, refused, Receiver, fail, on_data,
  on_end, on_decoded, on_frame, start, acknowledge, settled, answer, clean_up, Event, message,
  channel_closed, aborted, next_step, replied, drained, step, run, init,
}
use wildbloom.Direct.Receiver.Queue.{
  weight, items, Stage, queue_write-weight, queue_write-Stage, queue_finish-weight,
  queue_finish-Stage, weight-cons,
}

pub record Inv (r : Receiver) : Type 0 where
  pub acked : r.last_ack ≤ r.written
  pub within : r.received ≤ r.total
  pub window : r.received ≤ r.last_ack + unacknowledged_bytes
  pub held : r.written + weight (items r.running r.queue) ≤ r.received
  pub exact : r.failed ≡ none → r.written + weight (items r.running r.queue) ≡ r.received
  pub stage : r.failed ≡ none → Stage r.end_seen r.done (items r.running r.queue)
  pub ended : r.failed ≡ none → r.end_seen ≡ true → r.received ≡ r.total

fail-Inv : (k : TransferFailure) (c : Option StopCode) (r : Receiver) → Inv r → Inv (fail k c r)
unfolding fail
fail-Inv k c r v = ground arith

on_data-Inv :
    (o : ℕ) (bytes : List ℕ) (r : Receiver) → r.done ≡ false → Inv r → Inv (on_data o bytes r)
unfolding on_data
on_data-Inv o bytes r d v = ground (
  arith,
  fail-Inv protocol (some failure) r,
  queue_write-weight bytes r.running r.queue,
  queue_write-Stage bytes r.running r.queue,
)

on_end-Inv : (h : List ℕ) (n : ℕ) (r : Receiver) → r.done ≡ false → Inv r → Inv (on_end h n r)
unfolding on_end
on_end-Inv h n r d v = ground (
  arith,
  fail-Inv protocol (some failure) r,
  fail-Inv verification (some failure) r,
  queue_finish-weight h n r.running r.queue,
  queue_finish-Stage h n r.running r.queue,
)

on_decoded-Inv : (f : Result Frame) (r : Receiver) → r.done ≡ false → Inv r → Inv (on_decoded f r)
unfolding on_decoded
on_decoded-Inv (err e) r d v = fail-Inv _ _ r v
on_decoded-Inv (ok (data_frame o bytes)) r d v = on_data-Inv o bytes r d v
on_decoded-Inv (ok (end_frame h n)) r d v = on_end-Inv h n r d v
on_decoded-Inv (ok (stop code)) r d v = fail-Inv _ _ r v
on_decoded-Inv (ok (ack n)) r d v = fail-Inv _ _ r v
on_decoded-Inv (ok kept) r d v = fail-Inv _ _ r v

on_frame-Inv : (bytes : List ℕ) (r : Receiver) → Inv r → Inv (on_frame bytes r)
unfolding on_frame
on_frame-Inv bytes r v = ground (arith, on_decoded-Inv (decode_frame Role.sender bytes) r)

start-Inv : (r : Receiver) → Inv r → Inv (start r.queue r.running r)
unfolding start
start-Inv r v = go r.queue r.running refl refl
  where
    go : (q : List Call) (o : Option Call) → r.queue ≡ q → r.running ≡ o → Inv (start q o r)
    go [] none eq eo = v
    go [] (some c) eq eo = v
    go (c ∷ q) (some d) eq eo = v
    go (c ∷ q) none eq eo = ground (arith, weight-cons c q)

acknowledge-Inv : (r : Receiver) → Inv r → Inv (acknowledge r)
unfolding acknowledge fail
acknowledge-Inv r v = ground arith

settled-Inv :
    (reply : Reply) (c : Call) (r : Receiver)
    → r.running ≡ some c
    → Inv r
    → Inv (settled reply c (record r { running = none }))
unfolding settled fail
settled-Inv resolved (write b) r e v = acknowledge-Inv _ (ground arith)
settled-Inv resolved (finish h n) r e v = ground arith
settled-Inv resolved discard r e v = ground arith
settled-Inv out_of_room c r e v = ground (arith, weight-cons c r.queue)
settled-Inv refused c r e v = ground (arith, weight-cons c r.queue)

answer-Inv : (reply : Reply) (r : Receiver) → Inv r → Inv (answer reply r.running r)
unfolding answer
answer-Inv reply r v = go r.running refl
  where
    go : (o : Option Call) → r.running ≡ o → Inv (answer reply o r)
    go none e = v
    go (some c) e = settled-Inv reply c r e v

clean_up-Inv : (r : Receiver) → Inv r → Inv (clean_up r)
unfolding clean_up
clean_up-Inv r v = ground arith

-- Every event keeps the invariant.
pub step-Inv : (e : Event) (r : Receiver) → Inv r → Inv (step e r)
unfolding step
step-Inv (message bytes) r v = on_frame-Inv bytes r v
step-Inv channel_closed r v = fail-Inv closed none (record r { is_open = false }) (ground arith)
step-Inv aborted r v = fail-Inv cancelled (some person) r v
step-Inv next_step r v = start-Inv r v
step-Inv (replied reply) r v = answer-Inv reply r v
step-Inv drained r v = clean_up-Inv r v

pub run-Inv : (es : List Event) (r : Receiver) → Inv r → Inv (run es r)
unfolding run
run-Inv [] r v = v
run-Inv (e ∷ es) r v = run-Inv es (step e r) (step-Inv e r v)

pub init-Inv :
    (total size : ℕ) (is_open signal_aborted : Bool) → Inv (init total size is_open signal_aborted)
unfolding init fail
init-Inv total size is_open signal_aborted = ground arith
