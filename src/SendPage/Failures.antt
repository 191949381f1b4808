-- ===== src/SendPage/Failures.antt =====
-- What the sender page shows when its session fails (src/send/main.ts).
use wildbloom.Prelude.{◌≡◌, true, false, Option, none, some, if◌then◌else◌, arith}
use wildbloom.Direct.Transfer.{TransferFailure}
use wildbloom.Direct.Session.Failures.{
  DirectFailure, cancelled, peer_cancelled, declined, unsupported, peer_unsupported, protocol,
  peer_failed, peer_storage, no_relay, connect, lost, expired, network, source, too_big,
  verification, storage, transfer, failure_for_transfer,
}
use wildbloom.SendPage.{
  View, Event, reduce, screen_text, says_nothing_kept, is_confirming, is_finishing, got_declined,
  got_no_relay, got_no_room, got_connect_failed, got_lost, got_expired, got_they_stopped,
  got_failed, invalid_invitation,
}

-- `SCREEN_FOR_FAILURE`; `none` is `ignore`.
abbrev pub screen_for_failure : DirectFailure → Option Event
screen_for_failure cancelled = none
screen_for_failure peer_cancelled = some got_they_stopped
screen_for_failure declined = some got_declined
screen_for_failure unsupported = some got_failed
screen_for_failure peer_unsupported = some got_failed
screen_for_failure protocol = some got_failed
screen_for_failure peer_failed = some got_failed
screen_for_failure peer_storage = some got_no_room
screen_for_failure no_relay = some got_no_relay
screen_for_failure connect = some got_connect_failed
screen_for_failure lost = some got_lost
screen_for_failure expired = some got_expired
screen_for_failure network = some got_lost
screen_for_failure source = some got_failed
screen_for_failure too_big = some got_failed
screen_for_failure verification = some got_failed
screen_for_failure storage = some got_failed

-- An invitation that the page cannot use is told apart from a session that failed later.
abbrev pub event_for_failure : DirectFailure → View → Option Event
event_for_failure unsupported s =
    if is_confirming s.screen then some invalid_invitation else some got_failed
event_for_failure kind s = screen_for_failure kind

-- `showFailure`, as far as the page's state goes.
pub show_failure : DirectFailure → View → View
show_failure kind s = elim (event_for_failure kind s) [ none ↦ s | some event ↦ reduce s event ]

-- Once the end of the file has gone out and the page waits for the receiver to keep it, whatever
-- the transfer fails with, the page does not say that nothing was sent or kept.
pub late_failure_text :
    (kind : TransferFailure) (s : View)
    → is_finishing s.screen ≡ true
    → s.end_sent ≡ true
    → says_nothing_kept (screen_text (show_failure (failure_for_transfer (transfer kind)) s))
      ≡ false
unfolding show_failure failure_for_transfer reduce screen_text
late_failure_text kind s p q = ground arith
