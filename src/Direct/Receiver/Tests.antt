-- ===== src/Direct/Receiver/Tests.antt =====
-- The receiver's theorems on small transfers (receiveEnvelope of src/direct/transfer.ts).
use wildbloom.Prelude.{
  ◌≡◌, refl, List, [], ◌∷◌, ◌++◌, ℕ, arith, ◌≤◌, true, false, replicate, All, length, take, drop,
  map,
}
use wildbloom.Direct.Config.{unacknowledged_bytes}
use wildbloom.Direct.Frames.{Role, ok, data_frame, end_frame, decode_frame, encode_data, encode_end}
use wildbloom.Direct.Transfer.{cancelled}
use wildbloom.Direct.Receiver.{
  fresh, write, finish, discard, refused, Receiver, Event, message, aborted, channel_closed,
  next_step, run, init, outcome, resolves,
}
use wildbloom.Direct.Receiver.Queue.{weight, items, Closing}
use wildbloom.Direct.Receiver.Invariant.{run-Inv, init-Inv}
use wildbloom.Direct.Receiver.Bounds.{receiver_bounds}
use wildbloom.Direct.Receiver.Content.{payloads, FromEnvelope}
use wildbloom.Direct.Receiver.Resolves.{sink_prefix, receive_resolves}
use wildbloom.Direct.Receiver.Endings.{outcome_final, rest_events, failed_cleans_up}
use wildbloom.Direct.Receiver.Complete.{stream, end_events, receive_completes}

abbrev digest : List ℕ
digest = replicate 32 5

abbrev chunks : List (List ℕ)
chunks = (1 ∷ 2 ∷ []) ∷ (3 ∷ []) ∷ []

abbrev arrivals : List Event
arrivals = stream 0 chunks ++ end_events digest 1

receiver_bounds_example :
    let r = run arrivals (init 3 1 true false) in
    (r.last_ack ≤ r.written)
    × (r.written ≤ r.received)
    × (r.received ≤ 3)
    × (weight (items r.running r.queue) ≤ unacknowledged_bytes)
receiver_bounds_example = receiver_bounds 3 1 true false arrivals

receive_completes_example :
    let r = run arrivals (init 3 1 true false) in
    (outcome r ≡ resolves) × (r.calls ≡ map write chunks ++ (finish digest 1 ∷ []))
receive_completes_example =
    receive_completes chunks digest 1 (ground arith) (omega arith) refl (omega arith)

abbrev env : List ℕ
env = 1 ∷ 2 ∷ 3 ∷ []

message-FromEnvelope :
    (bytes : List ℕ) (o : ℕ) (p : List ℕ)
    → decode_frame Role.sender bytes ≡ ok (data_frame o p)
    → p ≡ take (length p) (drop o env)
    → FromEnvelope env (message bytes)
message-FromEnvelope bytes o p d c = λ o' p' e. grind arith

end-FromEnvelope :
    (bytes : List ℕ) (h : List ℕ) (n : ℕ)
    → decode_frame Role.sender bytes ≡ ok (end_frame h n)
    → FromEnvelope env (message bytes)
end-FromEnvelope bytes h n d = λ o' p' e. grind arith

arrivals-FromEnvelope : All (FromEnvelope env) arrivals
unfolding decode_frame encode_data encode_end
arrivals-FromEnvelope = (
  message-FromEnvelope (1 ∷ 0 ∷ 0 ∷ 0 ∷ 0 ∷ 0 ∷ 0 ∷ 0 ∷ 0 ∷ 1 ∷ 2 ∷ []) 0 (1 ∷ 2 ∷ []) refl refl,
  (
    tt,
    (
      tt,
      (
        message-FromEnvelope (1 ∷ 0 ∷ 0 ∷ 0 ∷ 0 ∷ 0 ∷ 0 ∷ 0 ∷ 2 ∷ 3 ∷ []) 2 (3 ∷ []) refl refl,
        (
          tt,
          (
            tt,
            (
              end-FromEnvelope (3 ∷ (digest ++ (0 ∷ 0 ∷ 0 ∷ 0 ∷ 0 ∷ 0 ∷ 0 ∷ 1 ∷ []))) digest 1 refl,
              (tt, (tt, tt)),
            ),
          ),
        ),
      ),
    ),
  ),
)

sink_prefix_example :
    let r = run arrivals (init 3 1 true false) in
    payloads r.calls ≡ take (length (payloads r.calls)) env
sink_prefix_example = sink_prefix env 1 true false arrivals arrivals-FromEnvelope

arrivals-resolve : outcome (run arrivals (init 3 1 true false)) ≡ resolves
arrivals-resolve =
    (receive_completes chunks digest 1 (ground arith) (omega arith) refl (omega arith)).0

receive_resolves_example :
    let r = run arrivals (init 3 1 true false) in
    (payloads r.calls ≡ env) × Closing r.calls × (r.written ≡ 3)
receive_resolves_example =
    receive_resolves env 1 true false arrivals arrivals-FromEnvelope arrivals-resolve

-- A person cancels with a step still at work and another one waiting.
abbrev cancelled_at : Receiver
cancelled_at =
    run
      (message (1 ∷ 0 ∷ 0 ∷ 0 ∷ 0 ∷ 0 ∷ 0 ∷ 0 ∷ 0 ∷ 1 ∷ [])
        ∷ next_step
        ∷ message (1 ∷ 0 ∷ 0 ∷ 0 ∷ 0 ∷ 0 ∷ 0 ∷ 0 ∷ 1 ∷ 2 ∷ [])
        ∷ aborted
        ∷ [])
      (init 3 1 true false)

outcome_final_example :
    outcome (run (channel_closed ∷ next_step ∷ []) cancelled_at) ≡ outcome cancelled_at
unfolding run init fresh decode_frame
outcome_final_example =
    outcome_final (channel_closed ∷ next_step ∷ []) cancelled_at
      (run-Inv
        (message (1 ∷ 0 ∷ 0 ∷ 0 ∷ 0 ∷ 0 ∷ 0 ∷ 0 ∷ 0 ∷ 1 ∷ [])
          ∷ next_step
          ∷ message (1 ∷ 0 ∷ 0 ∷ 0 ∷ 0 ∷ 0 ∷ 0 ∷ 0 ∷ 1 ∷ 2 ∷ [])
          ∷ aborted
          ∷ [])
        (init 3 1 true false) (init-Inv 3 1 true false))
      (ground arith)

failed_cleans_up_example :
    (run (rest_events refused (length cancelled_at.queue)) cancelled_at).calls
    ≡ cancelled_at.calls ++ (discard ∷ [])
unfolding run init fresh decode_frame
failed_cleans_up_example = failed_cleans_up cancelled refused cancelled_at refl refl
