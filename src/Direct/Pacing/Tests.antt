-- ===== src/Direct/Pacing/Tests.antt =====
-- The pacing theorems at concrete states (src/direct/pacing.ts).
use wildbloom.Prelude.{◌≤◌, refl, ℕ, ◌+◌, ◌*◌, [], ◌∷◌, false, none, arith}
use wildbloom.Prelude.Int.{◌+ℤ◌}
use wildbloom.Direct.Config.{relay_bytes_per_second, relay_burst_bytes}
use wildbloom.Direct.Pacing.{
  PacingState, create_rate_pacer, Bucket, rate_pacing, PathPacing, path_pacing, protocol_pacing,
}
use wildbloom.Direct.Pacing.Verdicts.{AtMost, path_ceiling}
use wildbloom.Direct.Pacing.Rate.{rate_bound}

-- What a sender asks when it has sent so much.
abbrev asking : ℕ → PacingState
asking sent = record { in_flight = sent; buffered = 0; paused = false; sent = sent; wanted = 65527 }

abbrev full : Bucket
full = create_rate_pacer relay_bytes_per_second relay_burst_bytes

abbrev unknown : PathPacing
unknown = record { relayed = none; bucket = full }

path_ceiling_example :
    let v = (path_pacing 10 (asking 0) unknown).1 in
    AtMost v.bytes (protocol_pacing (asking 0)).bytes
    × AtMost v.bytes (rate_pacing 10 (asking 0) full).1.bytes
path_ceiling_example = path_ceiling 10 (asking 0) unknown (ground arith)

-- One frame goes out, and the next ask comes 50 ms later.
rate_bound_example :
    65527 * 1000 + 10 * relay_bytes_per_second
    ≤ 0 * 1000 + relay_burst_bytes * 1000 + 60 * relay_bytes_per_second
unfolding create_rate_pacer rate_pacing ◌+ℤ◌
rate_bound_example =
    rate_bound full 10 (asking 0) ((60, asking 65527) ∷ []) (omega arith) refl
      (omega arith, omega arith, tt)

abbrev spent : Bucket
spent = (rate_pacing 10 (asking 0) full).0
