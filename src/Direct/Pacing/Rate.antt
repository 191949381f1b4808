-- ===== src/Direct/Pacing/Rate.antt =====
-- The token bucket: what a sender that obeys it sends over any stretch, and that it is never starved.
use wildbloom.Prelude.{
  ℕ, ◌+◌, ◌-◌, ◌*◌, ◌/◌, ◌≤◌, ◌<◌, ◌≡◌, refl, List, [], ◌∷◌, none, some, arith, min, subst, sym, ap,
  ◌∙◌,
}
use wildbloom.Prelude.Int.{ℤ, pos, pos_part, neg_part, sub_ℕ, ◌+ℤ◌}
use native.Mathlib.Nat.{div-add-mod', mod-lt}
use wildbloom.Direct.Pacing.{
  PacingState, Verdict, Bucket, min_ℤ, refill, verdict_of, wait_ms, rate_pacing,
}

-- The bytes of a verdict of the bucket, which are never infinite.
abbrev pub bytes_of : Verdict → ℕ
bytes_of v = elim v.bytes [ none ↦ 0 | some n ↦ n ]

mul_mono : (a b r : ℕ) → a ≤ b → a * r ≤ b * r
mul_mono a b r h = grind arith

-- What is allowed is in the bucket.
spend :
    (rate burst wanted t : ℕ)
    → 0 < burst
    → min wanted (bytes_of (verdict_of rate (min wanted burst) (pos t))) * 1000 ≤ t
unfolding verdict_of
spend rate burst wanted t h = ground arith

-- After an obedient stretch the bucket holds what is left, and never more than its size.
refill_parts :
    (time sent last t : ℕ) (b : Bucket)
    → b.tokens ≡ pos t
    → b.last_time ≤ time
    → sent * 1000 ≤ last * 1000 + t
    → (t' : ℕ) × (refill time sent (some last) b ≡ pos t')
      × (t' + sent * 1000 + b.last_time * b.rate ≤ t + last * 1000 + time * b.rate)
unfolding refill ◌+ℤ◌
refill_parts time sent last t b e later obeys =
    let m = mul_mono b.last_time time b.rate later in
    (
      min (b.burst * 1000) (t + last * 1000 + time * b.rate - (sent * 1000 + b.last_time * b.rate)),
      ground (arith, m),
      ground (arith, m),
    )

-- Asks at later and later times, where between two asks no more is sent than the first one wanted
-- and was allowed.
abbrev pub Obedient : Bucket → ℕ → PacingState → List (ℕ × PacingState) → Type 0
Obedient b time s [] = Unit
Obedient b time s ((time', s') ∷ rest) =
    (time ≤ time')
    × (s'.sent ≤ s.sent + min s.wanted (bytes_of (rate_pacing time s b).1))
    × Obedient (rate_pacing time s b).0 time' s' rest

-- The last of the asks.
abbrev pub last_ask : ℕ → PacingState → List (ℕ × PacingState) → ℕ × PacingState
last_ask time s [] = (time, s)
last_ask time s ((time', s') ∷ rest) = last_ask time' s' rest

-- After an ask the bucket holds `t`.
record Holds (b : Bucket) (time sent t : ℕ) : Type 0 where
  some_burst : 0 < b.burst
  tokens_now : b.tokens ≡ pos t
  sent_now : b.last_sent ≡ some sent
  time_now : b.last_time ≡ time

rate_pacing-parts :
    (b : Bucket) (time : ℕ) (s : PacingState)
    → let b' = (rate_pacing time s b).0 in
      (b'.rate ≡ b.rate)
      × ((rate_pacing time s b).1 ≡ verdict_of b'.rate (min s.wanted b'.burst) b'.tokens)
      × (b'.tokens ≡ refill time s.sent b.last_sent b)
      × (b'.burst ≡ b.burst)
      × (b'.last_sent ≡ some s.sent)
      × (b'.last_time ≡ time)
unfolding rate_pacing
rate_pacing-parts b time s = (refl, refl, refl, refl, refl, refl)

-- What an obedient sender sends between two asks is in the bucket.
obedient-le :
    (b : Bucket) (time : ℕ) (s : PacingState) (t n : ℕ)
    → Holds (rate_pacing time s b).0 time s.sent t
    → n ≤ s.sent + min s.wanted (bytes_of (rate_pacing time s b).1)
    → n * 1000 ≤ s.sent * 1000 + t
obedient-le b time s t n h o =
    let b' = (rate_pacing time s b).0 in
    let same : (rate_pacing time s b).1 ≡ verdict_of b'.rate (min s.wanted b'.burst) (pos t) =
      (rate_pacing-parts b time s).1
      ∙ ap (λ k. verdict_of b'.rate (min s.wanted b'.burst) k) h.tokens_now in
    let le = spend b'.rate b'.burst s.wanted t h.some_burst in
    omega (arith, subst (λ v. n ≤ s.sent + min s.wanted (bytes_of v)) same o)

next_ask :
    (b : Bucket) (time' : ℕ) (s' : PacingState) (time last t : ℕ)
    → Holds b time last t
    → time ≤ time'
    → s'.sent * 1000 ≤ last * 1000 + t
    → (t' : ℕ) × Holds (rate_pacing time' s' b).0 time' s'.sent t'
      × (t' + s'.sent * 1000 + time * b.rate ≤ t + last * 1000 + time' * b.rate)
next_ask b time' s' time last t h later le =
    let (t', e, le') =
      refill_parts time' s'.sent last t b h.tokens_now (omega (arith, h.time_now)) le in
    let p = rate_pacing-parts b time' s' in
    (
      t',
      record {
        some_burst = subst (λ n. 0 < n) (sym p.3) h.some_burst;
        tokens_now = p.2 ∙ ap (λ o. refill time' s'.sent o b) h.sent_now ∙ e;
        sent_now = p.4;
        time_now = p.5;
      },
      subst (λ k. t' + s'.sent * 1000 + k * b.rate ≤ t + last * 1000 + time' * b.rate) h.time_now
          le',
    )

stretch_bound :
    (b : Bucket) (time : ℕ) (s : PacingState) (rest : List (ℕ × PacingState)) (t : ℕ)
    → Holds (rate_pacing time s b).0 time s.sent t
    → Obedient b time s rest
    → let (time', s') = last_ask time s rest in
      s'.sent * 1000 + time * b.rate ≤ s.sent * 1000 + t + time' * b.rate
stretch_bound b time s [] t h o = omega arith
stretch_bound b time s ((time', s') ∷ rest) t h o =
    let b' = (rate_pacing time s b).0 in
    let (t', h', le) =
      next_ask b' time' s' time s.sent t h o.0 (obedient-le b time s t s'.sent h o.1) in
    let same : b'.rate ≡ b.rate = (rate_pacing-parts b time s).0 in
    let ih = stretch_bound b' time' s' rest t' h' o.2 in
    subst
      (λ r.
        (last_ask time' s' rest).1.sent * 1000 + time * r
        ≤ s.sent * 1000 + t + (last_ask time' s' rest).0 * r)
      same (omega (arith, ih, le))

-- From a bucket that has just been made or reset, a sender that obeys it has sent, by any later ask,
-- at most the bucket's size and the rate times the time that has passed (in thousandths of a byte).
pub rate_bound :
    (b : Bucket) (time : ℕ) (s : PacingState) (rest : List (ℕ × PacingState))
    → 0 < b.burst
    → b.last_sent ≡ none
    → Obedient b time s rest
    → let (time', s') = last_ask time s rest in
      s'.sent * 1000 + time * b.rate ≤ s.sent * 1000 + b.burst * 1000 + time' * b.rate
unfolding refill
rate_bound b time s rest some_burst new o = stretch_bound b time s rest (b.burst * 1000) first o
  where
    first : Holds (rate_pacing time s b).0 time s.sent (b.burst * 1000)
    first =
        let p = rate_pacing-parts b time s in
        record {
          some_burst = subst (λ n. 0 < n) (sym p.3) some_burst;
          tokens_now = p.2 ∙ ap (λ o. refill time s.sent o b) new;
          sent_now = p.4;
          time_now = p.5;
        }

-- What a wait means: the tokens are too few, and the time is that of the missing ones.
told_to_wait :
    (rate need : ℕ) (tokens : ℤ) (retry : ℕ)
    → (verdict_of rate need tokens).retry_ms ≡ some retry
    → (pos_part tokens < need * 1000 + neg_part tokens) × (wait_ms rate need tokens ≤ retry)
unfolding verdict_of
told_to_wait rate need tokens retry e = ground arith

div_covers : (x rate : ℕ) → 0 < rate → x ≤ (x + rate - 1) / rate * rate
div_covers x rate h = omega (arith, div-add-mod' (x + rate - 1) rate, mod-lt (x + rate - 1) h)

waited :
    (burst need sent time retry rate : ℕ) (tokens : ℤ)
    → need ≤ burst
    → need * 1000 + neg_part tokens ≤ pos_part tokens + retry * rate
    → let tokens' =
        min_ℤ
          (pos (burst * 1000))
          (tokens +ℤ sub_ℕ (sent * 1000 + (time + retry) * rate) (sent * 1000 + time * rate)) in
      need * 1000 + neg_part tokens' ≤ pos_part tokens'
unfolding ◌+ℤ◌
waited burst need sent time retry rate tokens h le = ground arith

enough :
    (rate need : ℕ) (tokens : ℤ)
    → need * 1000 + neg_part tokens ≤ pos_part tokens
    → need ≤ bytes_of (verdict_of rate need tokens)
unfolding verdict_of
enough rate need tokens h = ground arith

-- A sender that is told to wait, and asks again after that time for as much, having sent nothing, is
-- allowed all of it, or as much as the bucket holds.
pub wait_suffices :
    (b : Bucket) (time : ℕ) (s s' : PacingState) (retry : ℕ)
    → 0 < b.rate
    → (rate_pacing time s b).1.retry_ms ≡ some retry
    → s'.sent ≡ s.sent
    → s'.wanted ≡ s.wanted
    → min s.wanted b.burst ≤ bytes_of (rate_pacing (time + retry) s' (rate_pacing time s b).0).1
unfolding rate_pacing refill
wait_suffices b time s s' retry some_rate e sent wanted =
    let tokens = refill time s.sent b.last_sent b in
    let need = min s.wanted b.burst in
    let (few, long) = told_to_wait b.rate need tokens retry e in
    let covers = div_covers (need * 1000 + neg_part tokens - pos_part tokens) b.rate some_rate in
    let long_enough = mul_mono (wait_ms b.rate need tokens) retry b.rate long in
    rw (sent, wanted)
      (enough b.rate need _ (
        waited b.burst need s.sent time retry b.rate tokens (omega arith)
          (omega (arith, covers, long_enough))))
