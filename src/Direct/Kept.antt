-- ===== src/Direct/Kept.antt =====
-- The receiver with a memory sink: each call that the transfer makes on its sink (receiveEnvelope of
-- src/direct/transfer.ts) is carried out by createMemorySink (src/direct/sink.ts), and settles as that does.
mod Tests
use wildbloom.Prelude.{
  ℕ, ◌+◌, ◌≤◌, ◌≡◌, refl, sym, subst, ap, ◌∙◌, true, false, List, [], ◌∷◌, ◌++◌, Option, none, some,
  length, concat, All, ◌==◌, if◌then◌else◌, length-append, append_assoc, append-nil, arith,
}
use wildbloom.Direct.Frames.{encode_data, encode_end, max_safe_integer}
use wildbloom.Direct.Frames.RoundTrip.{encoded, IsChunk}
use wildbloom.Direct.Receiver.{
  Call, write, finish, discard, Reply, resolved, refused, Receiver, message, next_step, replied,
  init, outcome, resolves,
}
use wildbloom.Direct.Receiver
use wildbloom.Direct.Receiver.Complete.{
  Ready, chunk_events, end_events, chunk_events-Ready, run-append, chunk-running, end-resolves,
  end-running, init-Ready,
}
use wildbloom.Direct.Sink.{
  File, Options, Opening, Sink, writes, ends, opens, aborts, fresh, check_opened,
}
use wildbloom.Direct.Sink
use wildbloom.Direct.Sink.Opens.{holding, write-fits, begin_end-whole, check_opened-good}

-- The receiver and its sink.
pub record Pair : Type 0 where
  pub receiver : Receiver
  pub sink : Sink

-- How a call settled on a sink that was `before` and is now `after`.
abbrev pub reply_of : Sink → Sink → Reply
reply_of before after = if after.refusals == before.refusals then resolved else refused

-- The frames of an envelope from an offset on, in these chunks, with END behind them.
abbrev pub frames : ℕ → List (List ℕ) → List ℕ → ℕ → List (List ℕ)
frames offset [] sha256 size = encoded (encode_end sha256 size) ∷ []
frames offset (c ∷ chunks) sha256 size =
    encoded (encode_data offset c) ∷ frames (offset + length c) chunks sha256 size

module _ (decrypt : List ℕ → Option File) (hash : List ℕ → List ℕ) where
  -- The sink carries out one call; nothing comes between END and the opening.
  unfoldable pub perform : Call → Sink → Sink
  perform (write bytes) s = Sink.step decrypt hash (writes bytes) s
  perform (finish sha256 size) s =
      Sink.step decrypt hash opens (Sink.step decrypt hash (ends sha256 size) s)
  perform discard s = Sink.step decrypt hash aborts s

  -- The call that runs is carried out, and the transfer goes on from what it gave.
  unfoldable pub serve : Option Call → Pair → Pair
  serve none p = p
  serve (some c) p =
      let s = perform c p.sink in
      record { receiver = Receiver.run (replied (reply_of p.sink s) ∷ []) p.receiver; sink = s }

  -- A frame arrives, and the step that it queued is run.
  unfoldable pub deliver : List ℕ → Pair → Pair
  deliver frame p =
      let r = Receiver.run (message frame ∷ next_step ∷ []) p.receiver in
      serve r.running (record p { receiver = r })

  unfoldable pub deliver_all : List (List ℕ) → Pair → Pair
  deliver_all [] p = p
  deliver_all (frame ∷ frames) p = deliver_all frames (deliver frame p)

  perform-write :
      (o : Options) (held c : List ℕ)
      → length held + length c ≤ o.envelope_bytes
      → perform (write c) (holding o held) ≡ holding o (held ++ c)
  unfolding perform Sink.step
  perform-write o held c l =
      write-fits c held (holding o held) l
      ∙ ap (λ n. record (holding o (held ++ c)) { held = n }) (sym (length-append held c))

  perform-finish :
      (o : Options) (envelope sha256 : List ℕ) (f : File)
      → length envelope ≡ o.envelope_bytes
      → decrypt envelope ≡ some f
      → f.name ≡ o.name
      → f.media_type ≡ o.media_type
      → length f.bytes ≡ o.size
      → hash f.bytes ≡ sha256
      → perform (finish sha256 o.size) (holding o envelope)
        ≡ record (holding o envelope) { parts = none; file = some f }
  unfolding perform Sink.step Sink.finish_end
  perform-finish o envelope sha256 f l d a b c e =
      let q : Opening = record { envelope = envelope; sha256 = sha256; size = o.size } in
      let s' = record (holding o envelope) { parts = none } in
      ap (Sink.step decrypt hash opens)
        (begin_end-whole sha256 envelope o.size (holding o envelope) l)
      ∙ ap (λ x. check_opened decrypt hash x q s') d
      ∙ check_opened-good decrypt hash f q s' a b c c e

  module _ (o : Options) (total : ℕ) (small : total ≤ max_safe_integer)
      (whole : total ≡ o.envelope_bytes) where
    deliver-chunk :
        (offset : ℕ) (c held : List ℕ) (r : Receiver)
        → Ready total o.size offset r
        → length held ≡ offset
        → IsChunk c
        → offset + length c ≤ total
        → deliver (encoded (encode_data offset c)) (record { receiver = r; sink = holding o held })
          ≡ record {
            receiver = Receiver.run (chunk_events offset c) r;
            sink = holding o (held ++ c);
          }
    unfolding deliver serve
    deliver-chunk offset c held r v l is fits =
        let before = message (encoded (encode_data offset c)) ∷ next_step ∷ [] in
        let r' = Receiver.run before r in
        let p : Pair = record { receiver = r'; sink = holding o held } in
        ap (λ running. serve running p)
          (chunk-running total o.size offset c r v fits small is.0 is.1)
        ∙ ap
            (λ s. record {
              receiver = Receiver.run (replied (reply_of p.sink s) ∷ []) r';
              sink = s;
            })
            (perform-write o held c (omega (arith, l, fits, whole)))
        ∙ ap (λ r''. record { receiver = r''; sink = holding o (held ++ c) })
            (sym (run-append before (replied resolved ∷ []) r))

    deliver-end :
        (envelope sha256 : List ℕ) (f : File) (r : Receiver)
        → Ready total o.size total r
        → length envelope ≡ total
        → length sha256 ≡ 32
        → o.size ≤ max_safe_integer
        → decrypt envelope ≡ some f
        → f.name ≡ o.name
        → f.media_type ≡ o.media_type
        → length f.bytes ≡ o.size
        → hash f.bytes ≡ sha256
        → deliver
            (encoded (encode_end sha256 o.size))
            (record { receiver = r; sink = holding o envelope })
          ≡ record {
            receiver = Receiver.run (end_events sha256 o.size) r;
            sink = record (holding o envelope) { parts = none; file = some f };
          }
    unfolding deliver serve
    deliver-end envelope sha256 f r v l digest size d a b c e =
        let before = message (encoded (encode_end sha256 o.size)) ∷ next_step ∷ [] in
        let r' = Receiver.run before r in
        let p : Pair = record { receiver = r'; sink = holding o envelope } in
        ap (λ running. serve running p) (end-running total o.size sha256 r v digest size)
        ∙ ap
            (λ s. record {
              receiver = Receiver.run (replied (reply_of p.sink s) ∷ []) r';
              sink = s;
            })
            (perform-finish o envelope sha256 f (l ∙ whole) d a b c e)
        ∙ ap
            (λ r''. record {
              receiver = r'';
              sink = record (holding o envelope) { parts = none; file = some f };
            })
            (sym (run-append before (replied resolved ∷ []) r))

    deliver_all-file :
        (offset : ℕ) (chunks : List (List ℕ)) (held : List ℕ) (f : File) (r : Receiver)
        → Ready total o.size offset r
        → length held ≡ offset
        → All IsChunk chunks
        → offset + length (concat chunks) ≡ total
        → length (hash f.bytes) ≡ 32
        → o.size ≤ max_safe_integer
        → decrypt (held ++ concat chunks) ≡ some f
        → f.name ≡ o.name
        → f.media_type ≡ o.media_type
        → length f.bytes ≡ o.size
        → let p =
            deliver_all
              (frames offset chunks (hash f.bytes) o.size)
              (record { receiver = r; sink = holding o held }) in
          (outcome p.receiver ≡ resolves) × (p.sink.file ≡ some f)
    unfolding deliver_all
    deliver_all-file offset [] held f r v l all fits digest size d a b c =
        let at : offset ≡ total = omega (arith, fits) in
        let ready = subst (λ n. Ready total o.size n r) at v in
        let opened = subst (λ x. decrypt x ≡ some f) (append-nil held) d in
        let done =
          deliver-end held (hash f.bytes) f r ready (l ∙ at) digest size opened a b c refl in
        let (resolved_end, calls) = end-resolves total o.size (hash f.bytes) r ready digest size in
        (ap (λ p. outcome p.receiver) done ∙ resolved_end, ap (λ p. p.sink.file) done)
    deliver_all-file offset (x ∷ chunks) held f r v l all fits digest size d a b c =
        let m = length-append x (concat chunks) in
        let n = length-append held x in
        let fits_first : offset + length x ≤ total = omega (arith, m, fits) in
        let next = chunk_events-Ready total o.size offset x r v fits_first small all.0.0 all.0.1 in
        let rest =
          deliver_all-file (offset + length x) chunks (held ++ x) f
            (Receiver.run (chunk_events offset x) r) next (omega (arith, n, l)) all.1
            (omega (arith, m, fits)) digest size
            (subst (λ y. decrypt y ≡ some f) (sym (append_assoc held x (concat chunks))) d) a b c in
        subst
          (λ p.
            let q = deliver_all (frames (offset + length x) chunks (hash f.bytes) o.size) p in
            (outcome q.receiver ≡ resolves) × (q.sink.file ≡ some f))
          (sym (deliver-chunk offset x held r v l all.0 fits_first)) rest

-- A receiver and a memory sink, at the start of a transfer.
abbrev pub begun : Options → Pair
begun o = record { receiver = init o.envelope_bytes o.size true false; sink = fresh o }

-- An envelope of the length that the manifest implies, whose DATA frames arrive in order with END behind them,
-- and which opens to a file that the manifest and END name: with each call on the sink carried out, and
-- answered, by the memory sink, the transfer resolves and the sink offers that file.
pub kept_file :
    (decrypt : List ℕ → Option File) (hash : List ℕ → List ℕ) (o : Options) (chunks : List (List ℕ))
    (f : File)
    → All IsChunk chunks
    → length (concat chunks) ≡ o.envelope_bytes
    → o.envelope_bytes ≤ max_safe_integer
    → length (hash f.bytes) ≡ 32
    → o.size ≤ max_safe_integer
    → decrypt (concat chunks) ≡ some f
    → f.name ≡ o.name
    → f.media_type ≡ o.media_type
    → length f.bytes ≡ o.size
    → let p = deliver_all decrypt hash (frames 0 chunks (hash f.bytes) o.size) (begun o) in
      (outcome p.receiver ≡ resolves) × (p.sink.file ≡ some f)
kept_file decrypt hash o chunks f fits whole safe digest size opened named typed sized =
    deliver_all-file decrypt hash o o.envelope_bytes safe refl 0 chunks [] f
      (init o.envelope_bytes o.size true false) (init-Ready o.envelope_bytes o.size) refl fits
      (omega (arith, whole)) digest size opened named typed sized
