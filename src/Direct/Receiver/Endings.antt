-- ===== src/Direct/Receiver/Endings.antt =====
-- How a receiver ends: its outcome is final, and after a failure the sink is told to delete.
use wildbloom.Prelude.{
  ℕ, ◌≡◌, ◌≢◌, ◌⊎◌, refl, inl, inr, sym, subst, ap, ap₂, ◌∙◌, true, false, List, [], ◌∷◌, ◌++◌,
  Option, none, some, arith, length, replicate, append-nil,
}
use wildbloom.Direct.Transfer.{TransferFailure}
use wildbloom.Direct.Receiver.{
  Call, write, finish, discard, Reply, resolved, out_of_room, refused, Receiver, fail, on_frame,
  start, acknowledge, settled, answer, clean_up, is_idle, Event, message, channel_closed, aborted,
  next_step, replied, drained, step, run, outcome, pending, resolves, rejects,
}
use wildbloom.Direct.Receiver.Queue.{items}
use wildbloom.Direct.Receiver.Invariant.{Inv}
use wildbloom.Direct.Receiver.Content.{payloads, payloads-append}
use wildbloom.Direct.Receiver.Resolves.{resolves-fields, Stage-done, items-nil}

-- A failure is never replaced, and `done` never taken back.
module _ (k : TransferFailure) (r : Receiver) (f : r.failed ≡ some k) where
  start-failed : (q : List Call) (o : Option Call) → (start q o r).failed ≡ some k
  unfolding start
  start-failed [] none = f
  start-failed [] (some c) = f
  start-failed (c ∷ q) none = ground arith
  start-failed (c ∷ q) (some d) = f

  start-calls : (q : List Call) (o : Option Call) → (start q o r).calls ≡ r.calls
  unfolding start
  start-calls [] none = refl
  start-calls [] (some c) = refl
  start-calls (c ∷ q) none = ground arith
  start-calls (c ∷ q) (some d) = refl

settled-failed :
    (k : TransferFailure) (reply : Reply) (c : Call) (r : Receiver)
    → r.failed ≡ some k
    → ((settled reply c r).failed ≡ some k) × ((settled reply c r).calls ≡ r.calls)
unfolding settled acknowledge fail
settled-failed k resolved (write b) r f = ground arith
settled-failed k resolved (finish h n) r f = ground arith
settled-failed k resolved discard r f = (f, refl)
settled-failed k out_of_room c r f = ground arith
settled-failed k refused c r f = ground arith

answer-failed :
    (k : TransferFailure) (reply : Reply) (o : Option Call) (r : Receiver)
    → r.failed ≡ some k
    → ((answer reply o r).failed ≡ some k) × ((answer reply o r).calls ≡ r.calls)
unfolding answer
answer-failed k reply none r f = (f, refl)
answer-failed k reply (some c) r f = settled-failed k reply c (record r { running = none }) f

-- After a failure no event changes it, and none hands the sink any more bytes.
step-failed :
    (k : TransferFailure) (e : Event) (r : Receiver)
    → r.failed ≡ some k
    → ((step e r).failed ≡ some k) × (payloads (step e r).calls ≡ payloads r.calls)
unfolding step on_frame fail clean_up
step-failed k (message bytes) r f = ground arith
step-failed k channel_closed r f = ground arith
step-failed k aborted r f = ground arith
step-failed k next_step r f =
    (start-failed k r f r.queue r.running, ap payloads (start-calls k r f r.queue r.running))
step-failed k (replied reply) r f =
    let (a, b) = answer-failed k reply r.running r f in (a, ap payloads b)
step-failed k drained r f =
    ground (arith, payloads-append r.calls (discard ∷ []), append-nil (payloads r.calls))

run-failed :
    (k : TransferFailure) (es : List Event) (r : Receiver)
    → r.failed ≡ some k
    → ((run es r).failed ≡ some k) × (payloads (run es r).calls ≡ payloads r.calls)
unfolding run
run-failed k [] r f = (f, refl)
run-failed k (e ∷ es) r f =
    let (g, p) = step-failed k e r f in let (h, q) = run-failed k es (step e r) g in (h, q ∙ p)

-- A resolved receiver, with nothing left to do.
record IsResolved (r : Receiver) : Type 0 where
  idle : r.running ≡ none
  empty : r.queue ≡ []
  no_failure : r.failed ≡ none
  is_done : r.done ≡ true

step-IsResolved : (e : Event) (r : Receiver) → IsResolved r → IsResolved (step e r)
unfolding step on_frame fail clean_up start answer
step-IsResolved (message bytes) r v = ground arith
step-IsResolved channel_closed r v = ground arith
step-IsResolved aborted r v = ground arith
step-IsResolved next_step r v = subst IsResolved (sym same) v
  where
    same : start r.queue r.running r ≡ r
    same = rw (v.empty, v.idle) refl
step-IsResolved (replied reply) r v = subst IsResolved (sym same) v
  where
    same : answer reply r.running r ≡ r
    same = rw (v.idle) refl
step-IsResolved drained r v = ground arith

run-IsResolved : (es : List Event) (r : Receiver) → IsResolved r → IsResolved (run es r)
unfolding run
run-IsResolved [] r v = v
run-IsResolved (e ∷ es) r v = run-IsResolved es (step e r) (step-IsResolved e r v)

resolves-IsResolved : (r : Receiver) → Inv r → outcome r ≡ resolves → IsResolved r
resolves-IsResolved r v h =
    let (f, d) = resolves-fields r h in
    let (e, nothing) = Stage-done r.end_seen r.done (items r.running r.queue) d (v.stage f) in
    let (o, q) = items-nil r.running r.queue nothing in
    record { idle = o; empty = q; no_failure = f; is_done = d }

IsResolved-outcome : (r : Receiver) → IsResolved r → outcome r ≡ resolves
IsResolved-outcome r v = ground arith

failed-outcome : (k : TransferFailure) (r : Receiver) → r.failed ≡ some k → outcome r ≡ rejects k
failed-outcome k r f = ground arith

outcome-cases :
    (r : Receiver)
    → outcome r ≢ pending
    → (outcome r ≡ resolves) ⊎ ((k : TransferFailure) × (r.failed ≡ some k))
outcome-cases r h = ground arith

-- Once the transfer has resolved or rejected, no event changes which of the two it was, or the
-- failure that it rejected with: the first failure stays, and a kept file stays kept.
pub outcome_final :
    (es : List Event) (r : Receiver) → Inv r → outcome r ≢ pending → outcome (run es r) ≡ outcome r
outcome_final es r v h = elim (outcome-cases r h) [
  | inl e ↦ IsResolved-outcome (run es r) (run-IsResolved es r (resolves-IsResolved r v e)) ∙ sym e
  | inr (k, f) ↦ failed-outcome k (run es r) (run-failed k es r f).0 ∙ sym (failed-outcome k r f)
]

-- The events that let a failed receiver come to rest: the sink's answer, if it is at work, a turn
-- for each step that waits, and then the `catch`.
abbrev pub rest_events : Reply → ℕ → List Event
rest_events reply n = replied reply ∷ (replicate n next_step ++ (drained ∷ []))

start_skips :
    (k : TransferFailure) (c : Call) (q : List Call) (r : Receiver)
    → r.failed ≡ some k
    → start (c ∷ q) none r ≡ record r { queue = q }
unfolding start
start_skips k c q r f = ground arith

clean_up_idle :
    (k : TransferFailure) (r : Receiver)
    → r.failed ≡ some k
    → r.cleaned ≡ false
    → r.running ≡ none
    → r.queue ≡ []
    → (clean_up r).calls ≡ r.calls ++ (discard ∷ [])
unfolding clean_up is_idle
clean_up_idle k r f u o e = ground arith

drain_queue :
    (k : TransferFailure) (q : List Call) (r : Receiver)
    → r.failed ≡ some k
    → r.cleaned ≡ false
    → r.running ≡ none
    → r.queue ≡ q
    → (run (replicate (length q) next_step ++ (drained ∷ [])) r).calls ≡ r.calls ++ (discard ∷ [])
unfolding run step
drain_queue k [] r f u o e = clean_up_idle k r f u o e
drain_queue k (c ∷ q) r f u o e =
    let skipped : start r.queue r.running r ≡ record r { queue = q } =
      ap₂ (λ q o. start q o r) e o ∙ start_skips k c q r f in
    subst
      (λ s.
        (run (replicate (length q) next_step ++ (drained ∷ [])) s).calls
        ≡ r.calls ++ (discard ∷ []))
      (sym skipped) (drain_queue k q (record r { queue = q }) f u o refl)

-- What the sink's answer leaves alone after a failure.
record Settles (r r' : Receiver) : Type 0 where
  idle : r'.running ≡ none
  same_queue : r'.queue ≡ r.queue
  same_calls : r'.calls ≡ r.calls
  same_cleaned : r'.cleaned ≡ r.cleaned

settled-Settles :
    (k : TransferFailure) (reply : Reply) (c : Call) (r : Receiver)
    → r.failed ≡ some k
    → Settles r (settled reply c (record r { running = none }))
unfolding settled acknowledge fail
settled-Settles k resolved (write b) r f = ground arith
settled-Settles k resolved (finish h n) r f = ground arith
settled-Settles k resolved discard r f = ground arith
settled-Settles k out_of_room c r f = ground arith
settled-Settles k refused c r f = ground arith

answer-Settles :
    (k : TransferFailure) (reply : Reply) (r : Receiver)
    → r.failed ≡ some k
    → Settles r (answer reply r.running r)
unfolding answer
answer-Settles k reply r f = go r.running refl
  where
    go : (o : Option Call) → r.running ≡ o → Settles r (answer reply o r)
    go none e = record { idle = e; same_queue = refl; same_calls = refl; same_cleaned = refl }
    go (some c) e = settled-Settles k reply c r f

-- After a failure, once the sink has answered the step at work, and each step that waits has had
-- its turn, the one further call that the sink has had is to delete what it holds.
pub failed_cleans_up :
    (k : TransferFailure) (reply : Reply) (r : Receiver)
    → r.failed ≡ some k
    → r.cleaned ≡ false
    → (run (rest_events reply (length r.queue)) r).calls ≡ r.calls ++ (discard ∷ [])
unfolding run step
failed_cleans_up k reply r f u =
    let r' = answer reply r.running r in
    let s = answer-Settles k reply r f in
    subst
      (λ n. (run (replicate n next_step ++ (drained ∷ [])) r').calls ≡ r.calls ++ (discard ∷ []))
      (ap length s.same_queue)
      (drain_queue k r'.queue r' (answer-failed k reply r.running r f).0 (s.same_cleaned ∙ u) s.idle
          refl
        ∙ ap (λ t. t ++ (discard ∷ [])) s.same_calls)
