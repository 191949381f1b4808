-- ===== src/Direct/Receiver/Content.antt =====
-- What the sink is given: the bytes of the envelope in order, and its end only after all of them.
use wildbloom.Prelude.{
  ℕ, ◌+◌, ◌≡◌, refl, sym, ap, ◌∙◌, Bool, true, false, List, [], ◌∷◌, ◌++◌, Option, none, some,
  arith, length, take, drop, append_assoc, append-nil, All, take-append_take, prefix-left,
}
use native.Mathlib.Decide.{ℕ_discrete}
use wildbloom.Direct.Frames.{
  StopCode, failure, person, Frame, data_frame, ack, end_frame, kept, stop, Result, ok, err,
  decode_frame, Role,
}
use wildbloom.Direct.Transfer.{TransferFailure, protocol, verification, closed, cancelled}
use wildbloom.Direct.Receiver.{
  Call, write, finish, discard, Reply, resolved, out_of_room, refused, Receiver, fail, on_data,
  on_end, on_decoded, on_frame, start, acknowledge, settled, answer, clean_up, Event, message,
  channel_closed, aborted, next_step, replied, drained, step, run, init,
}
use wildbloom.Direct.Receiver.Queue.{Writes, Closing, Writes-append, Closing-append}

-- The bytes of the writes, in order.
abbrev pub payloads : List Call → List ℕ
payloads [] = []
payloads (write bytes ∷ q) = bytes ++ payloads q
payloads (finish h n ∷ q) = payloads q
payloads (discard ∷ q) = payloads q

pub payloads-append : (p q : List Call) → payloads (p ++ q) ≡ payloads p ++ payloads q
payloads-append [] q = refl
payloads-append (write b ∷ p) q =
    rw (payloads-append p q) (sym (append_assoc b (payloads p) (payloads q)))
payloads-append (finish h n ∷ p) q = payloads-append p q
payloads-append (discard ∷ p) q = payloads-append p q

-- A DATA frame that the event brings holds the bytes of `env` at its offset.
abbrev pub FromEnvelope : List ℕ → Event → Type 0
FromEnvelope env (message bytes) =
    (offset : ℕ) (payload : List ℕ)
    → decode_frame Role.sender bytes ≡ ok (data_frame offset payload)
    → payload ≡ take (length payload) (drop offset env)
FromEnvelope env _ = Unit {0}

-- Writes only, until END has been read; then an `end` behind them.
abbrev pub Order : Bool → List Call → Type 0
Order false q = Writes q
Order true q = Closing q

pub record Content (env : List ℕ) (r : Receiver) : Type 0 where
  pub given : payloads r.calls ≡ take (length (payloads r.calls)) env
  pub exact : r.failed ≡ none → payloads (r.calls ++ r.queue) ≡ take r.received env
  pub order : r.failed ≡ none → Order r.end_seen (r.calls ++ r.queue)

module _ (env : List ℕ) where
  fail-Content :
      (k : TransferFailure) (c : Option StopCode) (r : Receiver)
      → Content env r
      → Content env (fail k c r)
  unfolding fail
  fail-Content k c r v = ground arith

  queue_write-exact :
      (r : Receiver) (bytes : List ℕ)
      → bytes ≡ take (length bytes) (drop r.received env)
      → payloads (r.calls ++ r.queue) ≡ take r.received env
      → payloads (r.calls ++ (r.queue ++ (write bytes ∷ []))) ≡ take (r.received + length bytes) env
  queue_write-exact r bytes from e =
      rw
        (
          ← append_assoc r.calls r.queue (write bytes ∷ []),
          payloads-append (r.calls ++ r.queue) (write bytes ∷ []),
          append-nil bytes,
          e,
        )
        (ap (λ t. take r.received env ++ t) from ∙ take-append_take r.received (length bytes) env)

  queue_write-Order :
      (r : Receiver) (bytes : List ℕ)
      → Order false (r.calls ++ r.queue)
      → Order false (r.calls ++ (r.queue ++ (write bytes ∷ [])))
  queue_write-Order r bytes h =
      rw (← append_assoc r.calls r.queue (write bytes ∷ []))
        (Writes-append (r.calls ++ r.queue) bytes h)

  queue_finish-exact :
      (r : Receiver) (h : List ℕ) (n : ℕ)
      → payloads (r.calls ++ (r.queue ++ (finish h n ∷ []))) ≡ payloads (r.calls ++ r.queue)
  queue_finish-exact r h n =
      rw
        (
          ← append_assoc r.calls r.queue (finish h n ∷ []),
          payloads-append (r.calls ++ r.queue) (finish h n ∷ []),
        )
        (append-nil _)

  queue_finish-Order :
      (r : Receiver) (h : List ℕ) (n : ℕ)
      → Order false (r.calls ++ r.queue)
      → Order true (r.calls ++ (r.queue ++ (finish h n ∷ [])))
  queue_finish-Order r h n w =
      rw (← append_assoc r.calls r.queue (finish h n ∷ []))
        (Closing-append (r.calls ++ r.queue) h n w)

  on_data-Content :
      (o : ℕ) (bytes : List ℕ) (r : Receiver)
      → bytes ≡ take (length bytes) (drop o env)
      → Content env r
      → Content env (on_data o bytes r)
  unfolding on_data
  on_data-Content o bytes r from v = elim (ℕ_discrete o r.received) [
    | yes e ↦ ground (
      arith,
      fail-Content protocol (some failure) r v,
      queue_write-exact r bytes (rw e at from),
      queue_write-Order r bytes,
    )
    | no ne ↦ ground (arith, fail-Content protocol (some failure) r v)
  ]

  on_end-Content : (h : List ℕ) (n : ℕ) (r : Receiver) → Content env r → Content env (on_end h n r)
  unfolding on_end
  on_end-Content h n r v = ground (
    arith,
    fail-Content protocol (some failure) r v,
    fail-Content verification (some failure) r v,
    queue_finish-exact r h n,
    queue_finish-Order r h n,
  )

  start-Content : (r : Receiver) → Content env r → Content env (start r.queue r.running r)
  unfolding start
  start-Content r v = go r.queue r.running refl
    where
      go : (q : List Call) (o : Option Call) → r.queue ≡ q → Content env (start q o r)
      go [] none e = v
      go [] (some c) e = v
      go (c ∷ q) (some d) e = v
      go (c ∷ q) none e = ground (
        arith,
        append_assoc r.calls (c ∷ []) q,
        payloads-append (r.calls ++ (c ∷ [])) q,
        prefix-left (payloads (r.calls ++ (c ∷ []))) (payloads q) r.received env,
      )

  acknowledge-Content : (r : Receiver) → Content env r → Content env (acknowledge r)
  unfolding acknowledge fail
  acknowledge-Content r v = ground arith

  settled-Content :
      (reply : Reply) (c : Call) (r : Receiver) → Content env r → Content env (settled reply c r)
  unfolding settled fail
  settled-Content resolved (write b) r v = acknowledge-Content _ (ground arith)
  settled-Content resolved (finish h n) r v = ground arith
  settled-Content resolved discard r v = v
  settled-Content out_of_room c r v = ground arith
  settled-Content refused c r v = ground arith

  on_decoded-Content :
      (f : Result Frame) (r : Receiver)
      → ((o : ℕ) (payload : List ℕ)
          → f ≡ ok (data_frame o payload)
          → payload ≡ take (length payload) (drop o env))
      → Content env r
      → Content env (on_decoded f r)
  unfolding on_decoded
  on_decoded-Content (err e) r from v = fail-Content protocol (some failure) r v
  on_decoded-Content (ok (data_frame o bytes)) r from v =
      on_data-Content o bytes r (from o bytes refl) v
  on_decoded-Content (ok (end_frame h n)) r from v = on_end-Content h n r v
  on_decoded-Content (ok (stop code)) r from v = fail-Content _ none r v
  on_decoded-Content (ok (ack n)) r from v = fail-Content protocol (some failure) r v
  on_decoded-Content (ok kept) r from v = fail-Content protocol (some failure) r v

  on_frame-Content :
      (bytes : List ℕ) (r : Receiver)
      → FromEnvelope env (message bytes)
      → Content env r
      → Content env (on_frame bytes r)
  unfolding on_frame
  on_frame-Content bytes r from v =
      ground (arith, on_decoded-Content (decode_frame Role.sender bytes) r from v)

  answer-Content :
      (reply : Reply) (o : Option Call) (r : Receiver)
      → Content env r
      → Content env (answer reply o r)
  unfolding answer
  answer-Content reply none r v = v
  answer-Content reply (some c) r v =
      settled-Content reply c (record r { running = none }) (ground arith)

  clean_up-Content : (r : Receiver) → Content env r → Content env (clean_up r)
  unfolding clean_up
  clean_up-Content r v =
      ground (arith, payloads-append r.calls (discard ∷ []), append-nil (payloads r.calls))

  step-Content :
      (e : Event) (r : Receiver) → FromEnvelope env e → Content env r → Content env (step e r)
  unfolding step
  step-Content (message bytes) r from v = on_frame-Content bytes r from v
  step-Content channel_closed r from v =
      fail-Content closed none (record r { is_open = false }) (ground arith)
  step-Content aborted r from v = fail-Content cancelled (some person) r v
  step-Content next_step r from v = start-Content r v
  step-Content (replied reply) r from v = answer-Content reply r.running r v
  step-Content drained r from v = clean_up-Content r v

  pub run-Content :
      (es : List Event) (r : Receiver)
      → All (FromEnvelope env) es
      → Content env r
      → Content env (run es r)
  unfolding run
  run-Content [] r from v = v
  run-Content (e ∷ es) r from v = run-Content es (step e r) from.1 (step-Content e r from.0 v)

  pub init-Content :
      (total size : ℕ) (is_open signal_aborted : Bool)
      → Content env (init total size is_open signal_aborted)
  unfolding init fail
  init-Content total size is_open signal_aborted = ground arith
