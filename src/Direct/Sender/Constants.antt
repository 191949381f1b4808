-- ===== src/Direct/Sender/Constants.antt =====
-- What no event of a sender changes: the envelope's length, and what END will say.
use wildbloom.Prelude.{
  ℕ, ◌≡◌, refl, ◌∙◌, Bool, List, [], ◌∷◌, Option, none, some, arith, take, min, ltb, ◌||◌,
  Bool-cases, inl, inr, is_some,
}
use wildbloom.Direct.Frames.{
  StopCode, person, failure, decode_frame, Role, Result, ok, err, Frame, ack, data_frame, end_frame,
  stop, encode_data,
}
use wildbloom.Direct.Transfer.{TransferFailure, cancelled, protocol, source, failure_for_stop}
use wildbloom.Direct.Sender.{
  Sender, fail, on_frame, on_ack, on_decoded, on_closed, load, wanted, allowed, transmit,
  transmit_frame, send_chunk, send_record, finish, turn, read_fails, Event, message, low,
  channel_closed, aborted, next_turn, read_failed, step, run, init,
}

-- What no event changes.
pub record Same (s s' : Sender) : Type 0 where
  pub same_total : s'.total ≡ s.total
  pub same_digest : s'.digest ≡ s.digest
  pub same_size : s'.size ≡ s.size

pub Same-trans : {r s t : Sender} → Same r s → Same s t → Same r t
Same-trans a b = record {
  same_total = b.same_total ∙ a.same_total;
  same_digest = b.same_digest ∙ a.same_digest;
  same_size = b.same_size ∙ a.same_size;
}

fail-Same : (k : TransferFailure) (c : Option StopCode) (s : Sender) → Same s (fail k c s)
unfolding fail
fail-Same k c s = ground arith

on_frame-Same : (bytes : List ℕ) (s : Sender) → Same s (on_frame bytes s)
unfolding on_frame on_decoded on_ack fail
on_frame-Same bytes s = elim (Bool-cases (is_some s.failed || s.kept)) [
  | inl p ↦ simp p (record { same_total = refl; same_digest = refl; same_size = refl })
  | inr p ↦ simp p (go (decode_frame Role.receiver bytes))
]
  where
    go : (f : Result Frame) → Same s (on_decoded f s)
    go (err e) = fail-Same protocol (some failure) s
    go (ok (ack n)) = ground arith
    go (ok Frame.kept) = ground arith
    go (ok (stop code)) = fail-Same (failure_for_stop code) none s
    go (ok (data_frame o b)) = fail-Same protocol (some failure) s
    go (ok (end_frame h n)) = fail-Same protocol (some failure) s

transmit-Same : (n buffered : ℕ) (s : Sender) → Same s (transmit n buffered s)
unfolding transmit transmit_frame fail
transmit-Same n buffered s = go (encode_data s.sent (take n s.current))
  where
    go : (r : Result (List ℕ)) → Same s (transmit_frame r n buffered s)
    go (err e) = ground arith
    go (ok frame) = ground arith

load-Same : (s s' : Sender) → load s.current s.upcoming s ≡ some s' → Same s s'
unfolding load
load-Same s s' h = go s.current s.upcoming h
  where
    go : (c : List ℕ) (u : List (List ℕ)) → load c u s ≡ some s' → Same s s'
    go (b ∷ bs) u h = ground arith
    go [] (n ∷ u) h = ground arith
    go [] [] h = cc h

send_chunk-Same : (verdict buffered : ℕ) (s : Sender) → Same s (send_chunk verdict buffered s)
unfolding send_chunk
send_chunk-Same verdict buffered s =
    ground (arith, transmit-Same (min (wanted s) (allowed verdict s)) buffered s)

send_record-Same :
    (verdict buffered : ℕ) (s : Sender)
    → Same s (send_record verdict buffered (load s.current s.upcoming s) s)
unfolding send_record
send_record-Same verdict buffered s = go (load s.current s.upcoming s) refl
  where
    go :
        (o : Option Sender)
        → load s.current s.upcoming s ≡ o
        → Same s (send_record verdict buffered o s)
    go none e = fail-Same source (some failure) s
    go (some s') e = Same-trans (load-Same s s' e) (send_chunk-Same verdict buffered s')

finish-Same : (s : Sender) → Same s (finish s)
unfolding finish
finish-Same s = ground arith

turn-Same : (verdict buffered : ℕ) (s : Sender) → Same s (turn verdict buffered s)
unfolding turn
turn-Same verdict buffered s = elim (Bool-cases (is_some s.failed)) [
  | inl p ↦ simp p (ground arith)
  | inr p ↦ elim (Bool-cases (ltb s.sent s.total)) [
    | inl q ↦
        simp (p, q)
          (Same-trans (send_record-Same verdict buffered s)
            (finish-Same (send_record verdict buffered (load s.current s.upcoming s) s)))
    | inr q ↦ simp (p, q) (finish-Same s)
  ]
]

read_fails-Same : (a : Bool) (bs : List ℕ) (s : Sender) → Same s (read_fails a bs s)
unfolding read_fails fail
read_fails-Same a (b ∷ bs) s = ground arith
read_fails-Same a [] s = ground arith

step-Same : (e : Event) (s : Sender) → Same s (step e s)
unfolding step on_closed fail
step-Same (message bytes) s = on_frame-Same bytes s
step-Same low s = ground arith
step-Same channel_closed s = ground arith
step-Same aborted s = fail-Same cancelled (some person) s
step-Same (next_turn verdict buffered) s = turn-Same verdict buffered s
step-Same (read_failed a) s = read_fails-Same a s.current s

pub run-Same : (es : List Event) (s : Sender) → Same s (run es s)
unfolding run
run-Same [] s = record { same_total = refl; same_digest = refl; same_size = refl }
run-Same (e ∷ es) s = Same-trans (step-Same e s) (run-Same es (step e s))

pub init-Same : (signal_aborted : Bool) (s : Sender) → Same s (init signal_aborted s)
unfolding init fail
init-Same signal_aborted s = ground arith
