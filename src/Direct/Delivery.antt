-- ===== src/Direct/Delivery.antt =====
-- The two ends together: what a sender puts on the wire, a receiver takes to the last byte.
mod Tests
use wildbloom.Prelude.{
  ℕ, ◌+◌, ◌≤◌, ◌≡◌, refl, sym, ap, ap₂, subst, ◌∙◌, Bool, true, false, List, [], ◌∷◌, ◌++◌, Option,
  none, some, map, arith, length, concat, All, append-nil,
}
use wildbloom.Direct.Frames.{encode_data, max_safe_integer}
use wildbloom.Direct.Frames.RoundTrip.{encoded, data_frames, IsChunk}
use wildbloom.Direct.Sender.Invariant.{end_frames}
use wildbloom.Direct.Sender.Wire.{sender_after, sender_end}
use wildbloom.Direct.Sender
use wildbloom.Direct.Receiver
use wildbloom.Direct.Receiver.{
  Call, write, finish, message, next_step, replied, resolved, run, init, outcome, resolves,
}
use wildbloom.Direct.Receiver.Content.{payloads, payloads-append}
use wildbloom.Direct.Receiver.Complete.{stream, end_events, receive_completes}

-- Each message arrives, its step is started, and the sink answers that it is done.
abbrev pub deliver : List (List ℕ) → List Receiver.Event
deliver [] = []
deliver (bytes ∷ wire) = message bytes ∷ next_step ∷ replied resolved ∷ deliver wire

deliver-data_frames :
    (o : ℕ) (chunks : List (List ℕ)) (digest : List ℕ) (size : ℕ)
    → deliver (data_frames o chunks ++ end_frames true digest size)
      ≡ stream o chunks ++ end_events digest size
deliver-data_frames o [] digest size = refl
deliver-data_frames o (chunk ∷ chunks) digest size =
    ap (λ t. message (encoded (encode_data o chunk)) ∷ next_step ∷ replied resolved ∷ t)
      (deliver-data_frames (o + length chunk) chunks digest size)

payloads-map-write : (chunks : List (List ℕ)) → payloads (map write chunks) ≡ concat chunks
payloads-map-write [] = refl
payloads-map-write (chunk ∷ chunks) = ap (λ t. chunk ++ t) (payloads-map-write chunks)

-- If a sender has sent END and no failure stopped it, then a receiver that is told the same sizes,
-- and that is given the sender's messages in order, each handled before the next one comes, resolves,
-- and its sink was given the encoder's envelope to the byte.
pub delivery :
    (total max_message_size : ℕ) (header : List ℕ) (records : List (List ℕ)) (digest : List ℕ)
    (size : ℕ) (is_open signal_aborted : Bool) (es : List Sender.Event)
    → length (header ++ concat records) ≡ total
    → total ≤ max_safe_integer
    → size ≤ max_safe_integer
    → length digest ≡ 32
    → (sender_after total max_message_size header records digest size is_open signal_aborted
        es).failed
      ≡ none
    → (sender_after total max_message_size header records digest size is_open signal_aborted
        es).ended
      ≡ true
    → let s =
        sender_after total max_message_size header records digest size is_open signal_aborted es in
      let r = run (deliver s.wire) (init total size true false) in
      (outcome r ≡ resolves) × (payloads r.calls ≡ header ++ concat records)
delivery total max_message_size header records digest size is_open signal_aborted es l small
      small_size d f e =
    let (chunks, fits, whole, wire) =
      sender_end total max_message_size header records digest size is_open signal_aborted es l f
        e in
    let n : length (concat chunks) ≡ total = ap (length {0}) whole ∙ l in
    let (kept, calls) = receive_completes chunks digest size fits (omega arith) d small_size in
    let s =
      sender_after total max_message_size header records digest size is_open signal_aborted es in
    let same : run (stream 0 chunks ++ end_events digest size)
          (init (length (concat chunks)) size true false)
        ≡ run (deliver s.wire) (init total size true false) =
      ap₂ (λ m k. run m (init k size true false))
        (sym (deliver-data_frames 0 chunks digest size) ∙ ap deliver (sym wire)) n in
    let given : payloads
          (run (stream 0 chunks ++ end_events digest size)
            (init (length (concat chunks)) size true false)).calls
        ≡ header ++ concat records =
      ap payloads calls
      ∙ payloads-append (map write chunks) (finish digest size ∷ [])
      ∙ append-nil (payloads (map write chunks))
      ∙ payloads-map-write chunks
      ∙ whole in
    subst (λ r. (outcome r ≡ resolves) × (payloads r.calls ≡ header ++ concat records)) same
      (kept, given)
