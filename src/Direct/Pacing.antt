-- ===== src/Direct/Pacing.antt =====
-- What a sender may put on the wire (`protocolPacing` of src/direct/transfer.ts, and
-- src/direct/pacing.ts). A rule's verdict is a value; a rule with a state gives its next state too.
-- `none` as a number of bytes is `Number.POSITIVE_INFINITY`. The bucket's tokens are fractions of a
-- byte, and are counted here in thousandths, for whole milliseconds; the rate is not 0.
pub mod Verdicts
pub mod Rate
mod Tests
use wildbloom.Prelude.{
  ℕ, ◌+◌, ◌-◌, ◌*◌, ◌/◌, Bool, true, false, List, [], ◌∷◌, Option, none, some, ltb, leb, ◌==◌,
  if◌then◌else◌, min, max,
}
use wildbloom.Prelude.Int.{ℤ, pos, pos_part, neg_part, sub_ℕ, ltb_ℤ, ◌+ℤ◌}
use wildbloom.Direct.Config.{unacknowledged_bytes}

-- `PacingState`.
pub record PacingState : Type 0 where
  pub in_flight : ℕ
  pub buffered : ℕ
  pub paused : Bool
  pub sent : ℕ
  pub wanted : ℕ

pub record Verdict : Type 0 where
  pub bytes : Option ℕ
  pub retry_ms : Option ℕ

abbrev pub finite : ℕ → Verdict
finite n = record { bytes = some n; retry_ms = none }

-- `protocolPacing`.
unfoldable pub protocol_pacing : PacingState → Verdict
protocol_pacing s = finite (if s.paused then 0 else unacknowledged_bytes - s.in_flight)

-- `Math.min`, where `none` is infinity.
abbrev pub min_bytes : Option ℕ → Option ℕ → Option ℕ
min_bytes none b = b
min_bytes (some a) none = some a
min_bytes (some a) (some b) = some (min a b)

-- Infinity is not `<= 0`.
abbrev pub is_nothing : Option ℕ → Bool
is_nothing none = false
is_nothing (some n) = n == 0

-- The earlier of the retry times so far and the one of a rule that allows nothing.
abbrev pub sooner : Option ℕ → Verdict → Option ℕ
sooner retry v = if is_nothing v.bytes then min_bytes retry v.retry_ms else retry

-- The loop of `stricter` over the verdicts of its rules.
stricter_loop : Option ℕ → Option ℕ → List Verdict → Verdict
stricter_loop bytes retry [] =
    if is_nothing bytes
    then record { bytes = some 0; retry_ms = retry }
    else record { bytes = bytes; retry_ms = none }
stricter_loop bytes retry (v ∷ vs) = stricter_loop (min_bytes bytes v.bytes) (sooner retry v) vs

-- `stricter(...rules)`, from what each rule says.
unfoldable pub stricter : List Verdict → Verdict
unfolding stricter_loop
stricter vs = stricter_loop none none vs

-- The variables of `createRatePacer`; `tokens` in thousandths of a byte.
pub record Bucket : Type 0 where
  pub rate : ℕ
  pub burst : ℕ
  pub tokens : ℤ
  pub last_sent : Option ℕ
  pub last_time : ℕ

unfoldable pub create_rate_pacer : ℕ → ℕ → Bucket
create_rate_pacer rate burst = record {
  rate = rate;
  burst = burst;
  tokens = pos (burst * 1000);
  last_sent = none;
  last_time = 0;
}

abbrev pub min_ℤ : ℤ → ℤ → ℤ
min_ℤ a b = if ltb_ℤ b a then b else a

-- `tokens - (sent - lastSent) + ((time - lastTime) / 1000) * rate`, and no more than the bucket.
refill : ℕ → ℕ → Option ℕ → Bucket → ℤ
refill time sent none b = pos (b.burst * 1000)
refill time sent (some last) b =
    min_ℤ (pos (b.burst * 1000))
      (b.tokens +ℤ sub_ℕ (last * 1000 + time * b.rate) (sent * 1000 + b.last_time * b.rate))

-- `Math.ceil(((need - tokens) / rate) * 1000)`.
abbrev pub wait_ms : ℕ → ℕ → ℤ → ℕ
wait_ms rate need tokens = (need * 1000 + neg_part tokens - pos_part tokens + rate - 1) / rate

verdict_of : ℕ → ℕ → ℤ → Verdict
verdict_of rate need tokens =
    if ltb_ℤ tokens (pos (need * 1000))
    then record { bytes = some 0; retry_ms = some (max 1 (wait_ms rate need tokens)) }
    else finite (max 1 (pos_part tokens / 1000))

-- `pacing({ sent, wanted })` at a time.
unfoldable pub rate_pacing : ℕ → PacingState → Bucket → Bucket × Verdict
unfolding refill verdict_of
rate_pacing time s b =
    let tokens = refill time s.sent b.last_sent b in
    (
      record b { tokens = tokens; last_sent = some s.sent; last_time = time },
      verdict_of b.rate (min s.wanted b.burst) tokens,
    )

-- `reset()`.
unfoldable pub reset : Bucket → Bucket
reset b = record b { last_sent = none }

-- The variables of `createPathPacing`.
pub record PathPacing : Type 0 where
  pub relayed : Option Bool
  pub bucket : Bucket

abbrev is_direct : Option Bool → Bool
is_direct (some false) = true
is_direct _ = false

-- `setRelayed(next)`.
unfoldable pub set_relayed : Option Bool → PathPacing → PathPacing
set_relayed next p = record {
  relayed = next;
  bucket =
      if is_direct next
      then (if is_direct p.relayed then p.bucket else reset p.bucket)
      else p.bucket;
}

abbrev pub unknown_retry_ms : ℕ
unknown_retry_ms = 250

abbrev pub retry_soon : Option ℕ → ℕ
retry_soon none = unknown_retry_ms
retry_soon (some n) = min n unknown_retry_ms

-- The verdict while the pair is relayed or not known: an unknown pair is asked about again soon.
relayed_verdict : Option Bool → Verdict → Verdict
relayed_verdict none v =
    if is_nothing v.bytes
    then record { bytes = some 0; retry_ms = some (retry_soon v.retry_ms) }
    else v
relayed_verdict (some known) v = v

-- `pacing(state)` of the path, at a time.
unfoldable pub path_pacing : ℕ → PacingState → PathPacing → PathPacing × Verdict
unfolding relayed_verdict
path_pacing time s p =
    if is_direct p.relayed
    then (p, protocol_pacing s)
    else (let (bucket, rated) = rate_pacing time s p.bucket in
        (
          record p { bucket = bucket },
          relayed_verdict p.relayed (stricter (protocol_pacing s ∷ rated ∷ [])),
        ))
