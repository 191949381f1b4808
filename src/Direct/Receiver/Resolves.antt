-- ===== src/Direct/Receiver/Resolves.antt =====
-- What a whole transfer has given the sink, at any time and once it resolves (receiveEnvelope of
-- src/direct/transfer.ts).
use wildbloom.Prelude.{
  ℕ, ◌≤◌, ◌≡◌, refl, subst, sym, ap, ◌∙◌, Bool, true, false, List, [], ◌++◌, Option, none, some,
  arith, length, take, append-nil, All, take-length_le,
}
use wildbloom.Direct.Receiver.{Call, Receiver, Event, run, init, outcome, resolves}
use wildbloom.Direct.Receiver.Queue.{Closing, Stage, items, weight}
use wildbloom.Direct.Receiver.Invariant.{Inv, init-Inv, run-Inv}
use wildbloom.Direct.Receiver.Bounds.{run-total, init-total}
use wildbloom.Direct.Receiver.Content.{
  payloads, FromEnvelope, Order, Content, run-Content, init-Content,
}

module _ (env : List ℕ) (size : ℕ) (is_open signal_aborted : Bool) (es : List Event)
    (from : All (FromEnvelope env) es) where
  ending : Receiver
  ending = run es (init (length env) size is_open signal_aborted)

  ending-Content : Content env ending
  unfolding ending
  ending-Content =
      run-Content env es (init (length env) size is_open signal_aborted) from
        (init-Content env (length env) size is_open signal_aborted)

  ending-Inv : Inv ending
  unfolding ending
  ending-Inv =
      run-Inv es (init (length env) size is_open signal_aborted)
        (init-Inv (length env) size is_open signal_aborted)

  ending-total : ending.total ≡ length env
  unfolding ending
  ending-total =
      run-total es (init (length env) size is_open signal_aborted)
      ∙ init-total (length env) size is_open signal_aborted

pub items-nil : (o : Option Call) (q : List Call) → items o q ≡ [] → (o ≡ none) × (q ≡ [])
items-nil none q h = (refl, h)
items-nil (some c) q h = absurd (cc h)

pub resolves-fields : (r : Receiver) → outcome r ≡ resolves → (r.failed ≡ none) × (r.done ≡ true)
resolves-fields r h = ground arith

pub Stage-done : (e d : Bool) (q : List Call) → d ≡ true → Stage e d q → (e ≡ true) × (q ≡ [])
Stage-done false false q h s = cc h
Stage-done false true q h s = absurd s
Stage-done true false q h s = cc h
Stage-done true true q h s = (refl, s)

given_whole :
    (env : List ℕ) (r : Receiver)
    → Content env r
    → Inv r
    → r.total ≡ length env
    → outcome r ≡ resolves
    → (payloads r.calls ≡ env) × Closing r.calls × (r.written ≡ length env)
given_whole env r c v t h =
    let (f, d) = resolves-fields r h in
    let (e, nothing) = Stage-done r.end_seen r.done (items r.running r.queue) d (v.stage f) in
    let (o, q) = items-nil r.running r.queue nothing in
    let whole : r.calls ++ r.queue ≡ r.calls = rw q (append-nil r.calls) in
    let length_le : length env ≤ r.received = omega (arith, v.ended f e) in
    (
      ap payloads (sym whole) ∙ c.exact f ∙ take-length_le r.received env length_le,
      subst Closing whole (subst (λ b. Order b (r.calls ++ r.queue)) e (c.order f)),
      omega (arith, v.exact f, v.ended f e, ap weight nothing),
    )

-- Whatever arrives and however the sink answers, if every DATA frame is cut from one envelope then
-- what the sink has been given is the beginning of that envelope, in order and without a gap.
pub sink_prefix :
    (env : List ℕ) (size : ℕ) (is_open signal_aborted : Bool) (es : List Event)
    (from : All (FromEnvelope env) es)
    → let r = run es (init (length env) size is_open signal_aborted) in
      payloads r.calls ≡ take (length (payloads r.calls)) env
unfolding ending
sink_prefix env size is_open signal_aborted es from =
    (ending-Content env size is_open signal_aborted es from).given

-- If the DATA frames that arrive are cut from one envelope, and the transfer resolves, then the sink
-- was given exactly that envelope, then END once and nothing else, and all of it was written.
pub receive_resolves :
    (env : List ℕ) (size : ℕ) (is_open signal_aborted : Bool) (es : List Event)
    → All (FromEnvelope env) es
    → outcome (run es (init (length env) size is_open signal_aborted)) ≡ resolves
    → let r = run es (init (length env) size is_open signal_aborted) in
      (payloads r.calls ≡ env) × Closing r.calls × (r.written ≡ length env)
unfolding ending
receive_resolves env size is_open signal_aborted es from h =
    given_whole env (ending env size is_open signal_aborted es from)
      (ending-Content env size is_open signal_aborted es from)
      (ending-Inv env size is_open signal_aborted es from)
      (ending-total env size is_open signal_aborted es from) h
