-- ===== src/Direct/Session/Failures.antt =====
-- How a session names what went wrong, and what it tells the other end (src/direct/session.ts).
use wildbloom.Prelude.{◌≡◌, Bool, true, false, Option, none, some, ◌↔◌, arith}
use wildbloom.Direct.Transfer.{TransferFailure}
use wildbloom.Direct.Messages.{StopReason, cancelled_reason, failed_reason, unsupported_reason}
use wildbloom.GetPage.Failure.{PairingError, PairingFailure, classify_pairing_failure}

-- `DirectFailure`.
pub data DirectFailure : Type 0 where
  cancelled peer_cancelled declined unsupported peer_unsupported protocol peer_failed peer_storage
        no_relay connect lost expired network source too_big verification storage :
      DirectFailure

-- An error that a session meets: a DirectError, a TransferError, or one of the exchange.
pub data SessionError : Type 0 where
  direct : DirectFailure → SessionError
  transfer : TransferFailure → SessionError
  outside : PairingError → SessionError

by_pairing : PairingFailure → DirectFailure
by_pairing PairingFailure.expired = expired
by_pairing PairingFailure.cancelled = cancelled
by_pairing _ = network

-- `exchangeFailure`, for an error that is a DirectError or one of the exchange.
pub exchange_failure : SessionError → DirectFailure
unfolding by_pairing
exchange_failure (direct kind) = kind
exchange_failure (transfer kind) = network
exchange_failure (outside error) = by_pairing (classify_pairing_failure error true)

-- `failureForPeerStop`.
pub failure_for_peer_stop : StopReason → DirectFailure
failure_for_peer_stop cancelled_reason = peer_cancelled
failure_for_peer_stop unsupported_reason = peer_unsupported
failure_for_peer_stop failed_reason = peer_failed

-- The switch of `failureForTransfer`.
by_transfer : TransferFailure → DirectFailure
by_transfer TransferFailure.cancelled = cancelled
by_transfer TransferFailure.peer_cancelled = peer_cancelled
by_transfer TransferFailure.peer_failed = peer_failed
by_transfer TransferFailure.peer_storage = peer_storage
by_transfer TransferFailure.protocol = protocol
by_transfer TransferFailure.closed = lost
by_transfer TransferFailure.frame_size = unsupported
by_transfer TransferFailure.source = source
by_transfer TransferFailure.verification = verification
by_transfer TransferFailure.storage = storage

-- `failureForTransfer`.
unfoldable pub failure_for_transfer : SessionError → DirectFailure
unfolding by_transfer
failure_for_transfer (direct kind) = kind
failure_for_transfer (transfer kind) = by_transfer kind
failure_for_transfer (outside error) = protocol

-- The stop that `SenderSession.end` sends on the exchange.
abbrev pub sender_end_stop : DirectFailure → Option StopReason
sender_end_stop cancelled = some cancelled_reason
sender_end_stop too_big = some cancelled_reason
sender_end_stop protocol = some failed_reason
sender_end_stop source = some failed_reason
sender_end_stop lost = some failed_reason
sender_end_stop _ = none

-- The stop that `ReceiverSession.end` sends on the exchange.
abbrev pub receiver_end_stop : DirectFailure → Option StopReason
receiver_end_stop cancelled = some cancelled_reason
receiver_end_stop protocol = some failed_reason
receiver_end_stop verification = some failed_reason
receiver_end_stop storage = some failed_reason
receiver_end_stop _ = none

-- The other end began it.
abbrev pub is_of_peer : TransferFailure → Bool
is_of_peer TransferFailure.peer_cancelled = true
is_of_peer TransferFailure.peer_failed = true
is_of_peer TransferFailure.peer_storage = true
is_of_peer _ = false

-- A transfer that the other end stopped is named so, and neither end answers it with a stop of its
-- own; one that a person cancelled goes out as `cancelled` from both.
pub peer_stop_unanswered :
    (kind : TransferFailure)
    → let named = failure_for_transfer (transfer kind) in
      (is_of_peer kind ≡ true → (sender_end_stop named ≡ none) × (receiver_end_stop named ≡ none))
      × ((sender_end_stop named ≡ some cancelled_reason) ↔ (kind ≡ TransferFailure.cancelled))
      × ((receiver_end_stop named ≡ some cancelled_reason) ↔ (kind ≡ TransferFailure.cancelled))
unfolding failure_for_transfer
peer_stop_unanswered kind = ground arith
