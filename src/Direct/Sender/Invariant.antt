-- ===== src/Direct/Sender/Invariant.antt =====
-- What holds of a sender between any two events: its counts, and what it has put on the wire.
use wildbloom.Prelude.{
  ℕ, ◌+◌, ◌≤◌, ◌<◌, ◌≡◌, refl, sym, ap, subst, ◌∙◌, Bool, true, false, List, [], ◌∷◌, ◌++◌, Option,
  none, some, arith, length, take, drop, concat, All, length-append, length-take, take-append-drop,
  append_assoc, append-nil, Bool-cases, inl, inr,
}
use wildbloom.Direct.Config.{unacknowledged_bytes}
use wildbloom.Direct.Frames.{
  StopCode, person, failure, Frame, data_frame, ack, end_frame, stop, Result, ok, err, decode_frame,
  Role, encode_data, encode_end,
}
use wildbloom.Direct.Frames.RoundTrip.{encoded, IsChunk, data_frames}
use wildbloom.Direct.Transfer.{
  TransferFailure, cancelled, protocol, closed, source, failure_for_stop,
}
use wildbloom.Direct.Sender.{
  Sender, fail, on_ack, on_decoded, on_frame, on_closed, load, transmit, transmit_frame, finish,
  read_fails,
}

abbrev pub end_frames : Bool → List ℕ → ℕ → List (List ℕ)
end_frames false sha256 size = []
end_frames true sha256 size = encoded (encode_end sha256 size) ∷ []

-- `chunks` have been sent of the envelope `env`.
pub record Sent (env : List ℕ) (s : Sender) (chunks : List (List ℕ)) : Type 0 where
  pub whole : concat chunks ++ (s.current ++ concat s.upcoming) ≡ env
  pub count : length (concat chunks) ≡ s.sent
  pub fits : All IsChunk chunks
  pub acked : s.acknowledged ≤ s.sent
  pub within : s.sent ≤ s.total
  pub window : s.sent ≤ s.acknowledged + unacknowledged_bytes
  pub all_sent : s.ended ≡ true → s.sent ≡ s.total
  pub kept_late : s.kept ≡ true → s.ended ≡ true
  pub reachable : s.failed ≡ none → s.kept ≡ false → s.is_open ≡ true
  pub on_wire :
      s.failed ≡ none → s.wire ≡ data_frames 0 chunks ++ end_frames s.ended s.digest s.size

concat-append : (xss yss : List (List ℕ)) → concat (xss ++ yss) ≡ concat xss ++ concat yss
concat-append [] yss = refl
concat-append (xs ∷ xss) yss =
    rw (concat-append xss yss) (sym (append_assoc xs (concat xss) (concat yss)))

data_frames-append :
    (o : ℕ) (chunks : List (List ℕ)) (c : List ℕ)
    → data_frames o (chunks ++ (c ∷ []))
      ≡ data_frames o chunks ++ (encoded (encode_data (o + length (concat chunks)) c) ∷ [])
data_frames-append o [] c = ap (λ n. encoded (encode_data n c) ∷ []) (omega arith)
data_frames-append o (d ∷ chunks) c =
    ap (λ t. encoded (encode_data o d) ∷ t)
      (data_frames-append (o + length d) chunks c
        ∙ ap (λ n. data_frames (o + length d) chunks ++ (encoded (encode_data n c) ∷ []))
            (omega (arith, length-append d (concat chunks))))

All-snoc :
    {A : Type 0} (P : A → Type 0) (xs : List A) (last : A)
    → P last
    → All P xs
    → All P (xs ++ (last ∷ []))
All-snoc P [] last p h = (p, tt)
All-snoc P (x ∷ xs) last p (q, h) = (q, All-snoc P xs last p h)

encode_data-ok : (o : ℕ) (c f : List ℕ) → encode_data o c ≡ ok f → IsChunk c
unfolding encode_data
encode_data-ok o c f h = ground arith

injective : {A : Type 0} {a b : A} → some a ≡ some b → a ≡ b
injective h = cc h

module _ (env : List ℕ) (chunks : List (List ℕ)) where
  pub fail-Sent :
      (k : TransferFailure) (c : Option StopCode) (s : Sender)
      → Sent env s chunks
      → Sent env (fail k c s) chunks
  unfolding fail
  fail-Sent k c s v = ground arith

  on_ack-Sent : (n : ℕ) (s : Sender) → Sent env s chunks → Sent env (on_ack n s) chunks
  unfolding on_ack
  on_ack-Sent n s v = ground (arith, fail-Sent protocol (some failure) s v)

  on_decoded-Sent :
      (f : Result Frame) (s : Sender) → Sent env s chunks → Sent env (on_decoded f s) chunks
  unfolding on_decoded
  on_decoded-Sent (err e) s v = fail-Sent protocol (some failure) s v
  on_decoded-Sent (ok (ack n)) s v = on_ack-Sent n s v
  on_decoded-Sent (ok Frame.kept) s v = ground (arith, fail-Sent protocol (some failure) s v)
  on_decoded-Sent (ok (stop code)) s v = fail-Sent (failure_for_stop code) none s v
  on_decoded-Sent (ok (data_frame o b)) s v = fail-Sent protocol (some failure) s v
  on_decoded-Sent (ok (end_frame h n)) s v = fail-Sent protocol (some failure) s v

  pub on_frame-Sent :
      (bytes : List ℕ) (s : Sender) → Sent env s chunks → Sent env (on_frame bytes s) chunks
  unfolding on_frame
  on_frame-Sent bytes s v = ground (arith, on_decoded-Sent (decode_frame Role.receiver bytes) s v)

  pub on_closed-Sent : (s : Sender) → Sent env s chunks → Sent env (on_closed s) chunks
  unfolding on_closed fail
  on_closed-Sent s v = ground arith

  pub read_fails-Sent :
      (a : Bool) (bs : List ℕ) (s : Sender)
      → Sent env s chunks
      → Sent env (read_fails a bs s) chunks
  unfolding read_fails
  read_fails-Sent a (b ∷ bs) s v = v
  read_fails-Sent a [] s v =
      ground (arith, fail-Sent cancelled (some person) s v, fail-Sent source (some failure) s v)

  pub finish-Sent : (s : Sender) → Sent env s chunks → Sent env (finish s) chunks
  unfolding finish
  finish-Sent s v = ground (arith, append-nil (data_frames 0 chunks))

  pub load-Sent :
      (s : Sender)
      → Sent env s chunks
      → (s' : Sender) → load s.current s.upcoming s ≡ some s'
      → Sent env s' chunks × (s'.failed ≡ s.failed) × (s'.total ≡ s.total) × (s'.sent ≡ s.sent)
  unfolding load
  load-Sent s v s' h = go s.current s.upcoming refl refl h
    where
      Loaded : Sender → Type 0
      Loaded t = Sent env t chunks × (t.failed ≡ s.failed) × (t.total ≡ s.total) × (t.sent ≡ s.sent)

      go :
          (c : List ℕ) (u : List (List ℕ))
          → s.current ≡ c
          → s.upcoming ≡ u
          → load c u s ≡ some s'
          → Sent env s' chunks × (s'.failed ≡ s.failed) × (s'.total ≡ s.total) × (s'.sent ≡ s.sent)
      go (b ∷ bs) u ec eu h = subst Loaded (injective h) (v, refl, refl, refl)
      go [] (n ∷ u) ec eu h = subst Loaded (injective h) (ground arith, refl, refl, refl)
      go [] [] ec eu h = cc h

-- A send of the next `n` bytes adds one chunk.
module _ (env : List ℕ) (chunks : List (List ℕ)) (n buffered : ℕ) (s : Sender)
    (fits_record : n ≤ length s.current) (fits_total : s.sent + n ≤ s.total)
    (fits_window : s.sent + n ≤ s.acknowledged + unacknowledged_bytes) (more : s.sent < s.total)
    (v : Sent env s chunks) where
  pub next_chunk : List ℕ
  next_chunk = take n s.current

  next-whole : concat (chunks ++ (next_chunk ∷ [])) ++ (drop n s.current ++ concat s.upcoming) ≡ env
  unfolding next_chunk
  next-whole =
      rw
        (
          concat-append chunks (take n s.current ∷ []),
          append-nil (take n s.current),
          append_assoc (concat chunks) (take n s.current) (drop n s.current ++ concat s.upcoming),
          ← append_assoc (take n s.current) (drop n s.current) (concat s.upcoming),
          take-append-drop n s.current,
        )
        v.whole

  next-count : length (concat (chunks ++ (next_chunk ∷ []))) ≡ s.sent + n
  unfolding next_chunk
  next-count =
      rw (concat-append chunks (take n s.current ∷ []), append-nil (take n s.current))
        (omega (
          arith,
          v.count,
          length-append (concat chunks) (take n s.current),
          length-take n s.current,
        ))

  next-wire :
      (frame : List ℕ)
      → encode_data s.sent next_chunk ≡ ok frame
      → s.failed ≡ none
      → s.wire ++ (frame ∷ [])
        ≡ data_frames 0 (chunks ++ (next_chunk ∷ [])) ++ end_frames s.ended s.digest s.size
  next-wire frame e f =
      let not_ended : s.ended ≡ false = ground (arith, v.all_sent) in
      let e' : encode_data (0 + length (concat chunks)) next_chunk ≡ ok frame =
        subst (λ k. encode_data k next_chunk ≡ ok frame) (omega (arith, v.count)) e in
      cc (
        not_ended,
        v.on_wire f,
        append-nil (data_frames 0 chunks),
        append-nil (data_frames 0 (chunks ++ (next_chunk ∷ []))),
        data_frames-append 0 chunks next_chunk,
        e',
      )

  transmit_frame-Sent :
      (frame : List ℕ)
      → encode_data s.sent next_chunk ≡ ok frame
      → s.is_open ≡ true
      → Sent env (transmit_frame (ok frame) n buffered s) (chunks ++ (next_chunk ∷ []))
  unfolding transmit_frame
  transmit_frame-Sent frame e p = simp p (record {
    whole = next-whole;
    count = next-count;
    fits = All-snoc IsChunk chunks next_chunk (encode_data-ok s.sent next_chunk frame e) v.fits;
    acked = omega (arith, v.acked);
    within = fits_total;
    window = fits_window;
    all_sent = λ h. absurd (omega (arith, v.all_sent h));
    kept_late = v.kept_late;
    reachable = λ _ _. refl;
    on_wire = next-wire frame e;
  })

  pub transmit-Sent : (chunks' : List (List ℕ)) × Sent env (transmit n buffered s) chunks'
  unfolding transmit transmit_frame next_chunk
  transmit-Sent = go (encode_data s.sent next_chunk) refl
    where
      go :
          (r : Result (List ℕ))
          → encode_data s.sent next_chunk ≡ r
          → (chunks' : List (List ℕ)) × Sent env (transmit_frame r n buffered s) chunks'
      go (err x) e = (chunks, fail-Sent env chunks closed none s v)
      go (ok frame) e = elim (Bool-cases s.is_open) [
        | inl p ↦ (chunks ++ (next_chunk ∷ []), transmit_frame-Sent frame e p)
        | inr p ↦ (chunks, simp p (fail-Sent env chunks closed none s v))
      ]
