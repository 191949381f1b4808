-- ===== src/Direct/Sender/Wire.antt =====
-- What a sender has put on the wire after any events, and when it may say that the file is kept.
use wildbloom.Prelude.{
  ℕ, ◌+◌, ◌≤◌, ◌<◌, ◌≡◌, refl, sym, ap, ap₂, length-append, ◌∙◌, Bool, true, List, [], ◌∷◌, ◌++◌,
  Option, none, some, arith, length, min, concat, All, ltb, ◌==◌, Bool-cases, inl, inr, is_some,
  append-nil,
}
use wildbloom.Direct.Config.{unacknowledged_bytes}
use wildbloom.Direct.Frames.{person, failure}
use wildbloom.Direct.Frames.RoundTrip.{IsChunk, data_frames}
use wildbloom.Direct.Transfer.{cancelled, source}
use wildbloom.Direct.Sender.{
  Sender, fail, load, wanted, allowed, send_chunk, send_record, finish, turn, Event, message, low,
  channel_closed, aborted, next_turn, read_failed, step, run, fresh, init,
}
use wildbloom.Direct.Sender.Constants.{Same, Same-trans, run-Same, init-Same}
use wildbloom.Direct.Sender.Invariant.{
  Sent, end_frames, fail-Sent, on_frame-Sent, on_closed-Sent, read_fails-Sent, finish-Sent,
  load-Sent, transmit-Sent,
}

-- Some chunks have been sent.
abbrev pub Sending : List ℕ → Sender → Type 0
Sending env s = (chunks : List (List ℕ)) × Sent env s chunks

module _ (env : List ℕ) where
  send_chunk-Sending :
      (verdict buffered : ℕ) (s : Sender)
      → s.sent < s.total
      → Sending env s
      → Sending env (send_chunk verdict buffered s)
  unfolding send_chunk
  send_chunk-Sending verdict buffered s more (chunks, v) =
      elim (Bool-cases (allowed verdict s == 0)) [
        | inl p ↦ (chunks, simp p v)
        | inr p ↦ simp p (
            transmit-Sent env chunks (min (wanted s) (allowed verdict s)) buffered s (omega arith)
              (omega (arith, v.within)) (omega (arith, v.window, v.acked)) more v)
      ]

  send_record-Sending :
      (verdict buffered : ℕ) (s : Sender)
      → s.sent < s.total
      → Sending env s
      → Sending env (send_record verdict buffered (load s.current s.upcoming s) s)
  unfolding send_record
  send_record-Sending verdict buffered s more (chunks, v) = go (load s.current s.upcoming s) refl
    where
      go :
          (o : Option Sender)
          → load s.current s.upcoming s ≡ o
          → Sending env (send_record verdict buffered o s)
      go none e = (chunks, fail-Sent env chunks source (some failure) s v)
      go (some s') e =
          let (w, f, t, n) = load-Sent env chunks s v s' e in
          send_chunk-Sending verdict buffered s' (omega arith) (chunks, w)

  finish-Sending : (s : Sender) → Sending env s → Sending env (finish s)
  finish-Sending s (chunks, v) = (chunks, finish-Sent env chunks s v)

  turn-Sending :
      (verdict buffered : ℕ) (s : Sender) → Sending env s → Sending env (turn verdict buffered s)
  unfolding turn
  turn-Sending verdict buffered s v = elim (Bool-cases (is_some s.failed)) [
    | inl p ↦ simp p v
    | inr p ↦ elim (Bool-cases (ltb s.sent s.total)) [
      | inl q ↦
          simp (p, q) (finish-Sending _ (send_record-Sending verdict buffered s (ground arith) v))
      | inr q ↦ simp (p, q) (finish-Sending s v)
    ]
  ]

  step-Sending : (e : Event) (s : Sender) → Sending env s → Sending env (step e s)
  unfolding step
  step-Sending (message bytes) s (chunks, v) = (chunks, on_frame-Sent env chunks bytes s v)
  step-Sending low s (chunks, v) = (chunks, ground arith)
  step-Sending channel_closed s (chunks, v) = (chunks, on_closed-Sent env chunks s v)
  step-Sending aborted s (chunks, v) = (chunks, fail-Sent env chunks cancelled (some person) s v)
  step-Sending (next_turn verdict buffered) s v = turn-Sending verdict buffered s v
  step-Sending (read_failed a) s (chunks, v) = (chunks, read_fails-Sent env chunks a s.current s v)

  pub run-Sending : (es : List Event) (s : Sender) → Sending env s → Sending env (run es s)
  unfolding run
  run-Sending [] s v = v
  run-Sending (e ∷ es) s v = run-Sending es (step e s) (step-Sending e s v)

-- A transfer from its start: the encoder gives `header` and then `records`.
abbrev pub sender_after :
    ℕ → ℕ → List ℕ → List (List ℕ) → List ℕ → ℕ → Bool → Bool → List Event → Sender
sender_after total max_message_size header records digest size is_open signal_aborted es =
    run es (init signal_aborted (fresh total max_message_size header records digest size is_open))

init-Sent :
    (total max_message_size : ℕ) (header : List ℕ) (records : List (List ℕ)) (digest : List ℕ)
    (size : ℕ) (is_open signal_aborted : Bool)
    → Sent
        (header ++ concat records)
        (init signal_aborted (fresh total max_message_size header records digest size is_open))
        []
unfolding init fresh fail
init-Sent total max_message_size header records digest size is_open signal_aborted = ground arith

module _ (total max_message_size : ℕ) (header : List ℕ) (records : List (List ℕ)) (digest : List ℕ)
    (size : ℕ) (is_open signal_aborted : Bool) (es : List Event) where
  start : Sender
  start = init signal_aborted (fresh total max_message_size header records digest size is_open)

  run-start-Sending : Sending (header ++ concat records) (run es start)
  unfolding start
  run-start-Sending =
      run-Sending (header ++ concat records) es start
        ([], init-Sent total max_message_size header records digest size is_open signal_aborted)

  run-start-Same :
      Same (fresh total max_message_size header records digest size is_open) (run es start)
  unfolding start
  run-start-Same =
      Same-trans
        (init-Same signal_aborted (fresh total max_message_size header records digest size is_open))
        (run-Same es start)

-- Whatever arrives, and whatever the pacing rule allows, a sender sends no more than the envelope,
-- takes no ACK beyond what it sent, and has at most 8 MiB that is not acknowledged.
pub sender_bounds :
    (total max_message_size : ℕ) (header : List ℕ) (records : List (List ℕ)) (digest : List ℕ)
    (size : ℕ) (is_open signal_aborted : Bool) (es : List Event)
    → let s =
        sender_after total max_message_size header records digest size is_open signal_aborted es in
      (s.acknowledged ≤ s.sent)
      × (s.sent ≤ total)
      × (s.sent ≤ s.acknowledged + unacknowledged_bytes)
unfolding start fresh
sender_bounds total max_message_size header records digest size is_open signal_aborted es =
    let (chunks, v) =
      run-start-Sending total max_message_size header records digest size is_open signal_aborted
        es in
    let t =
      (run-start-Same total max_message_size header records digest size is_open signal_aborted
        es).same_total in
    (v.acked, omega (arith, v.within, t), v.window)

-- While no failure has stopped the transfer, what has gone out is the beginning of the envelope, cut
-- into DATA frames without a gap or an overlap, as many bytes as are counted, and END behind them
-- once it is sent; what is still at hand is the rest of the envelope.
pub sender_wire :
    (total max_message_size : ℕ) (header : List ℕ) (records : List (List ℕ)) (digest : List ℕ)
    (size : ℕ) (is_open signal_aborted : Bool) (es : List Event)
    → (sender_after total max_message_size header records digest size is_open signal_aborted
        es).failed
      ≡ none
    → let s =
        sender_after total max_message_size header records digest size is_open signal_aborted es in
      (chunks : List (List ℕ)) × All IsChunk chunks
      × (length (concat chunks) ≡ s.sent)
      × (concat chunks ++ (s.current ++ concat s.upcoming) ≡ header ++ concat records)
      × (s.wire ≡ data_frames 0 chunks ++ end_frames s.ended digest size)
unfolding start fresh
sender_wire total max_message_size header records digest size is_open signal_aborted es f =
    let (chunks, v) =
      run-start-Sending total max_message_size header records digest size is_open signal_aborted
        es in
    let same =
      run-start-Same total max_message_size header records digest size is_open signal_aborted es in
    let s =
      sender_after total max_message_size header records digest size is_open signal_aborted es in
    (
      chunks,
      v.fits,
      v.count,
      v.whole,
      v.on_wire f
          ∙ ap₂ (λ h n. data_frames 0 chunks ++ end_frames s.ended h n) same.same_digest
              same.same_size,
    )

append-whole : (xs ys zs : List ℕ) → xs ++ ys ≡ zs → length zs ≤ length xs → xs ≡ zs
append-whole xs [] zs h le = sym (append-nil xs) ∙ h
append-whole xs (y ∷ ys) zs h le =
    absurd (omega (arith, ap (length {0}) h, length-append xs (y ∷ ys)))

-- END goes out only behind the whole envelope: if it has been sent, and no failure stopped the
-- transfer, then the wire holds DATA frames that make up the encoder's envelope exactly, then END.
pub sender_end :
    (total max_message_size : ℕ) (header : List ℕ) (records : List (List ℕ)) (digest : List ℕ)
    (size : ℕ) (is_open signal_aborted : Bool) (es : List Event)
    → length (header ++ concat records) ≡ total
    → (sender_after total max_message_size header records digest size is_open signal_aborted
        es).failed
      ≡ none
    → (sender_after total max_message_size header records digest size is_open signal_aborted
        es).ended
      ≡ true
    → let s =
        sender_after total max_message_size header records digest size is_open signal_aborted es in
      (chunks : List (List ℕ)) × All IsChunk chunks
      × (concat chunks ≡ header ++ concat records)
      × (s.wire ≡ data_frames 0 chunks ++ end_frames true digest size)
unfolding start fresh
sender_end total max_message_size header records digest size is_open signal_aborted es l f e =
    let (chunks, v) =
      run-start-Sending total max_message_size header records digest size is_open signal_aborted
        es in
    let same =
      run-start-Same total max_message_size header records digest size is_open signal_aborted es in
    let s =
      sender_after total max_message_size header records digest size is_open signal_aborted es in
    (
      chunks,
      v.fits,
      append-whole (concat chunks) (s.current ++ concat s.upcoming) (header ++ concat records)
          v.whole (omega (arith, v.all_sent e, v.count, same.same_total)),
      v.on_wire f
          ∙ ap₂ (λ h n. data_frames 0 chunks ++ end_frames s.ended h n) same.same_digest
              same.same_size
          ∙ ap (λ b. data_frames 0 chunks ++ end_frames b digest size) e,
    )
