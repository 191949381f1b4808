-- ===== src/Direct/Receiver/Complete.antt =====
-- A sender that keeps to the protocol is served to the end: its chunks are written one after the
-- other, acknowledged, and the file is kept.
use wildbloom.Prelude.{
  ℕ, ◌+◌, ◌≤◌, ◌<◌, ◌≡◌, refl, sym, ap, ◌∙◌, true, false, List, [], ◌∷◌, ◌++◌, none, some, arith,
  map, subst, length, concat, All, length-append, append_assoc, append-nil,
}
use wildbloom.Direct.Config.{ack_every_bytes}
use wildbloom.Direct.Frames.{
  data_frame, end_frame, ok, decode_frame, Role, encode_data, encode_end, encode_ack,
  max_safe_integer,
}
use wildbloom.Direct.Frames.RoundTrip.{encoded, IsChunk, decode-encode, high, low, write_u64_ok}
use wildbloom.Direct.Receiver.{
  Call, write, finish, resolved, Receiver, fail, on_data, on_end, on_decoded, on_frame, start,
  acknowledge, settled, answer, Event, message, next_step, replied, step, run, init, outcome,
  resolves,
}

-- One chunk arrives, its step is started, and the sink writes it.
abbrev pub chunk_events : ℕ → List ℕ → List Event
chunk_events offset chunk =
    message (encoded (encode_data offset chunk)) ∷ next_step ∷ replied resolved ∷ []

abbrev pub stream : ℕ → List (List ℕ) → List Event
stream offset [] = []
stream offset (chunk ∷ chunks) = chunk_events offset chunk ++ stream (offset + length chunk) chunks

abbrev pub end_events : List ℕ → ℕ → List Event
end_events sha256 size =
    message (encoded (encode_end sha256 size)) ∷ next_step ∷ replied resolved ∷ []

-- Between two chunks: all that arrived is written, and less than 1 MiB of it is not acknowledged,
-- or all of the envelope is.
pub record Ready (total size offset : ℕ) (r : Receiver) : Type 0 where
  pub whole : r.total ≡ total
  pub file : r.plaintext_bytes ≡ size
  pub all_received : r.received ≡ offset
  pub all_written : r.written ≡ offset
  pub acked : r.last_ack ≤ offset
  pub recent : offset < r.last_ack + ack_every_bytes
  pub going : (r.end_seen ≡ false) × (r.done ≡ false) × (r.failed ≡ none)
  pub idle : (r.queue ≡ []) × (r.running ≡ none) × (r.is_open ≡ true)

decode-data :
    (o : ℕ) (chunk : List ℕ)
    → o ≤ max_safe_integer
    → 1 ≤ length chunk
    → length chunk ≤ 65527
    → decode_frame Role.sender (encoded (encode_data o chunk)) ≡ ok (data_frame o chunk)
decode-data o chunk h lo hi =
    let (bytes, e, d) = decode-encode Role.sender (data_frame o chunk) (refl, h, lo, hi) in rw e d

decode-end :
    (sha256 : List ℕ) (n : ℕ)
    → length sha256 ≡ 32
    → n ≤ max_safe_integer
    → decode_frame Role.sender (encoded (encode_end sha256 n)) ≡ ok (end_frame sha256 n)
decode-end sha256 n l h =
    let (bytes, e, d) = decode-encode Role.sender (end_frame sha256 n) (refl, l, h) in rw e d

on_frame-Ready :
    (total size o : ℕ) (chunk : List ℕ) (r : Receiver)
    → Ready total size o r
    → o + length chunk ≤ total
    → total ≤ max_safe_integer
    → 1 ≤ length chunk
    → length chunk ≤ 65527
    → on_frame (encoded (encode_data o chunk)) r
      ≡ record r { received = o + length chunk; queue = write chunk ∷ [] }
unfolding on_frame on_decoded on_data fail
on_frame-Ready total size o chunk r v fits small lo hi = ground (arith, decode-data o chunk)

encode_ack_ok : (n : ℕ) → n ≤ max_safe_integer → encode_ack n ≡ ok (2 ∷ (high n ++ low n))
unfolding encode_ack
encode_ack_ok n h = rw (write_u64_ok n h)

start_one :
    (c : Call) (r : Receiver)
    → r.running ≡ none
    → r.failed ≡ none
    → start (c ∷ []) r.running r
      ≡ record r { queue = []; running = some c; calls = r.calls ++ (c ∷ []) }
unfolding start
start_one c r o f = ground arith

acknowledge-Ready :
    (total size o : ℕ) (r : Receiver)
    → r.total ≡ total
    → r.plaintext_bytes ≡ size
    → r.received ≡ o
    → r.written ≡ o
    → r.last_ack ≤ o
    → o ≤ max_safe_integer
    → (r.end_seen ≡ false) × (r.done ≡ false) × (r.failed ≡ none)
    → (r.queue ≡ []) × (r.running ≡ none) × (r.is_open ≡ true)
    → Ready total size o (acknowledge r)
unfolding acknowledge
acknowledge-Ready total size o r t s rec w a small g i = ground (arith, encode_ack_ok o small)

module _ (total size o : ℕ) (chunk : List ℕ) (r : Receiver) (v : Ready total size o r)
    (fits : o + length chunk ≤ total) (small : total ≤ max_safe_integer) (lo : 1 ≤ length chunk)
    (hi : length chunk ≤ 65527) where
  -- The receiver when the sink is at work on the chunk.
  at_work : Receiver
  at_work = record r {
    received = o + length chunk;
    queue = [];
    running = some (write chunk);
    calls = r.calls ++ (write chunk ∷ []);
  }

  begin-chunk : run (message (encoded (encode_data o chunk)) ∷ next_step ∷ []) r ≡ at_work
  unfolding run step at_work
  begin-chunk =
      rw
        (
          on_frame-Ready total size o chunk r v fits small lo hi,
          start_one (write chunk)
              (record r { received = o + length chunk; queue = write chunk ∷ [] }) v.idle.1
              v.going.2,
        )
        refl

  pub chunk-running :
      (run (message (encoded (encode_data o chunk)) ∷ next_step ∷ []) r).running
      ≡ some (write chunk)
  unfolding at_work
  chunk-running = ap (λ r'. r'.running) begin-chunk

  run-chunk_events :
      run (chunk_events o chunk) r
      ≡ settled resolved (write chunk) (record at_work { running = none })
  unfolding run step answer at_work
  run-chunk_events = ap (λ r'. answer resolved r'.running r') begin-chunk

  pub chunk_events-Ready : Ready total size (o + length chunk) (run (chunk_events o chunk) r)
  unfolding settled at_work
  chunk_events-Ready = rw run-chunk_events (
      acknowledge-Ready total size (o + length chunk) _ v.whole v.file refl
        (ap (λ n. n + length chunk) v.all_written) (omega (arith, v)) (omega arith) v.going
        (refl, refl, v.idle.2))

  chunk_events-calls : (run (chunk_events o chunk) r).calls ≡ r.calls ++ (write chunk ∷ [])
  unfolding settled acknowledge fail at_work
  chunk_events-calls = rw run-chunk_events (ground arith)

stream-Ready :
    (total size o : ℕ) (chunks : List (List ℕ)) (r : Receiver)
    → Ready total size o r
    → All IsChunk chunks
    → o + length (concat chunks) ≤ total
    → total ≤ max_safe_integer
    → Ready total size (o + length (concat chunks)) (run (stream o chunks) r)
      × ((run (stream o chunks) r).calls ≡ r.calls ++ map write chunks)
unfolding run
stream-Ready total size o [] r v all fits small =
    (subst (λ n. Ready total size n r) (omega arith) v, sym (append-nil r.calls))
stream-Ready total size o (chunk ∷ chunks) r v all fits small =
    let more = length-append chunk (concat chunks) in
    let fits_first : o + length chunk ≤ total = omega arith in
    let r' = run (chunk_events o chunk) r in
    let next = chunk_events-Ready total size o chunk r v fits_first small all.0.0 all.0.1 in
    let (ready, calls) =
      stream-Ready total size (o + length chunk) chunks r' next all.1 (omega arith) small in
    (
      subst (λ n. Ready total size n (run (stream (o + length chunk) chunks) r')) (omega arith)
          ready,
      calls
          ∙ ap (λ t. t ++ map write chunks)
              (chunk_events-calls total size o chunk r v fits_first small all.0.0 all.0.1)
          ∙ append_assoc r.calls (write chunk ∷ []) (map write chunks),
    )

pub end-resolves :
    (total size : ℕ) (sha256 : List ℕ) (r : Receiver)
    → Ready total size total r
    → length sha256 ≡ 32
    → size ≤ max_safe_integer
    → let r' = run (end_events sha256 size) r in
      (outcome r' ≡ resolves) × (r'.calls ≡ r.calls ++ (finish sha256 size ∷ []))
unfolding run step answer on_frame on_decoded on_end settled fail start
end-resolves total size sha256 r v l small = ground (arith, decode-end sha256 size l small)

pub end-running :
    (total size : ℕ) (sha256 : List ℕ) (r : Receiver)
    → Ready total size total r
    → length sha256 ≡ 32
    → size ≤ max_safe_integer
    → (run (message (encoded (encode_end sha256 size)) ∷ next_step ∷ []) r).running
      ≡ some (finish sha256 size)
unfolding run step on_frame on_decoded on_end fail start
end-running total size sha256 r v l small = ground (arith, decode-end sha256 size l small)

pub init-Ready : (total size : ℕ) → Ready total size 0 (init total size true false)
unfolding init
init-Ready total size = ground arith

pub run-append : (es fs : List Event) (r : Receiver) → run (es ++ fs) r ≡ run fs (run es r)
unfolding run
run-append [] fs r = refl
run-append (e ∷ es) fs r = run-append es fs (step e r)

-- An envelope that arrives in order, in any chunks that DATA frames can carry, each written before
-- the next one comes, and then its END, is accepted to the last byte: the transfer resolves, and the
-- sink was given exactly those chunks in order and then END.
pub receive_completes :
    (chunks : List (List ℕ)) (sha256 : List ℕ) (size : ℕ)
    → All IsChunk chunks
    → length (concat chunks) ≤ max_safe_integer
    → length sha256 ≡ 32
    → size ≤ max_safe_integer
    → let r =
        run
          (stream 0 chunks ++ end_events sha256 size)
          (init (length (concat chunks)) size true false) in
      (outcome r ≡ resolves) × (r.calls ≡ map write chunks ++ (finish sha256 size ∷ []))
unfolding init
receive_completes chunks sha256 size all small l small_size =
    let total = length (concat chunks) in
    let r = init total size true false in
    let (ready, calls) =
      stream-Ready total size 0 chunks r (init-Ready total size) all (omega arith) small in
    let (resolved_end, last) =
      end-resolves total size sha256 (run (stream 0 chunks) r)
        (subst (λ n. Ready total size n (run (stream 0 chunks) r)) (omega arith) ready) l
        small_size in
    rw (run-append (stream 0 chunks) (end_events sha256 size) r)
      (resolved_end, last ∙ ap (λ t. t ++ (finish sha256 size ∷ [])) calls)
