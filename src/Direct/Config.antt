-- ===== src/Direct/Config.antt =====
-- The limits of direct send (src/direct/config.ts).
use wildbloom.Prelude.{ℕ}

-- `LIMITS.frameBytes`: no frame is longer.
abbrev pub frame_bytes : ℕ
frame_bytes = 65536

-- `LIMITS.minFrameBytes`: a connection that carries less is refused.
abbrev pub min_frame_bytes : ℕ
min_frame_bytes = 16384

-- `LIMITS.unacknowledgedBytes`, 8 MiB.
abbrev pub unacknowledged_bytes : ℕ
unacknowledged_bytes = 8388608

-- `LIMITS.ackEveryBytes`, 1 MiB.
abbrev pub ack_every_bytes : ℕ
ack_every_bytes = 1048576

-- `LIMITS.highWaterBytes`, 1 MiB.
abbrev pub high_water_bytes : ℕ
high_water_bytes = 1048576

-- `LIMITS.relayBytesPerSecond` and `LIMITS.relayBurstBytes`.
abbrev pub relay_bytes_per_second : ℕ
relay_bytes_per_second = 400000

abbrev pub relay_burst_bytes : ℕ
relay_burst_bytes = 65536

-- `LIMITS.messagesPerSide`.
abbrev pub messages_per_side : ℕ
messages_per_side = 8

-- `LIMITS.messageBytes`, `sdpBytes`, `iceServers`, `urlsPerServer`, `urlBytes`, `credentialBytes`,
-- `maxPlaintextBytes` and `restarts`.
abbrev pub message_bytes : ℕ
message_bytes = 16379

abbrev pub sdp_bytes : ℕ
sdp_bytes = 8000

abbrev pub ice_servers : ℕ
ice_servers = 4

abbrev pub urls_per_server : ℕ
urls_per_server = 4

abbrev pub url_bytes : ℕ
url_bytes = 256

abbrev pub credential_bytes : ℕ
credential_bytes = 256

abbrev pub max_plaintext_bytes : ℕ
max_plaintext_bytes = 250000000

abbrev pub max_restarts : ℕ
max_restarts = 5
