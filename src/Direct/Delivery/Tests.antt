-- ===== src/Direct/Delivery/Tests.antt =====
-- A small transfer from one end to the other (src/direct/transfer.ts).
use wildbloom.Prelude.{◌≡◌, refl, ◌++◌, arith, true, false, concat}
use wildbloom.Direct.Receiver.{run, init, outcome, resolves}
use wildbloom.Direct.Receiver.Content.{payloads}
use wildbloom.Direct.Sender.Tests.{
  header, records, digest, turns, after_turns, turns-failed, turns-ended,
}
use wildbloom.Direct.Delivery.{deliver, delivery}

delivery_example :
    let r = run (deliver after_turns.wire) (init 5 1 true false) in
    (outcome r ≡ resolves) × (payloads r.calls ≡ header ++ concat records)
delivery_example =
    delivery 5 65536 header records digest 1 true false turns refl (omega arith) (omega arith) refl
      turns-failed turns-ended
