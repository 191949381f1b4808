-- ===== src/SendPage/Laws.antt =====
-- What the sender page (src/send/state.ts, src/send/screens.ts) never shows.
use wildbloom.Prelude.{◌≡◌, Bool, true, false, not, ◌&&◌, ◌||◌, arith, ◌⊎◌}
use wildbloom.SendPage.{
  View, Event, Screen, reduce, is_pairing, is_picking, is_before_file, is_after_offer, is_asking,
}
use wildbloom.SendPage.Event.{answer_yes, got_unsupported, got_sent}
use wildbloom.SendPage.Screen.{
  check, confirming, choose, too_big, empty, unreadable, asking, declined, linking, sending,
  invalid, finishing, sent, no_relay, no_room, connect_failed, connect_failed_direct, lost,
  they_stopped, failed, cancelled, unsupported,
}

-- The hidden address needs an offered relay.
abbrev pub hides_soundly : View → Bool
hides_soundly s = not s.hide || s.relay_offered

pub reduce-hides_soundly :
    (s : View) (e : Event) → hides_soundly s ≡ true → hides_soundly (reduce s e) ≡ true
unfolding reduce
reduce-hides_soundly s e p = ground arith

abbrev pub is_late : Screen → Bool
is_late finishing = true
is_late sent = true
is_late no_relay = true
is_late no_room = true
is_late connect_failed = true
is_late connect_failed_direct = true
is_late lost = true
is_late they_stopped = true
is_late failed = true
is_late cancelled = true
is_late unsupported = true
is_late _ = false

abbrev pub ends_soundly : View → Bool
ends_soundly s = not s.end_sent || is_late s.screen

pub reduce-ends_soundly :
    (s : View) (e : Event) → ends_soundly s ≡ true → ends_soundly (reduce s e) ≡ true
unfolding reduce
reduce-ends_soundly s e p = ground arith

-- The check words are off every other screen.
abbrev pub compares : Screen → Bool
compares check = true
compares confirming = true
compares unsupported = true
compares _ = false

abbrev pub WordsSoundly : View → Type 0
WordsSoundly s = compares s.screen ≡ false → s.check_words ≡ ""

pub reduce-WordsSoundly : (s : View) (e : Event) → WordsSoundly s → WordsSoundly (reduce s e)
unfolding reduce
reduce-WordsSoundly s e p = ground arith

-- The screens that are shown only after the person said that the words match.
abbrev pub is_trusted : Screen → Bool
is_trusted confirming = true
is_trusted choose = true
is_trusted too_big = true
is_trusted empty = true
is_trusted unreadable = true
is_trusted asking = true
is_trusted declined = true
is_trusted linking = true
is_trusted sending = true
is_trusted finishing = true
is_trusted sent = true
is_trusted no_relay = true
is_trusted no_room = true
is_trusted connect_failed = true
is_trusted connect_failed_direct = true
is_trusted lost = true
is_trusted they_stopped = true
is_trusted failed = true
is_trusted invalid = true
is_trusted _ = false

pub reduce-is_trusted :
    (s : View) (e : Event)
    → is_trusted (reduce s e).screen ≡ true
    → (is_trusted s.screen ≡ true) ⊎ (e ≡ answer_yes)
unfolding reduce
reduce-is_trusted s e p = ground arith

-- The screens that end the session.
abbrev pub is_ending : Screen → Bool
is_ending at = not (is_pairing at || is_picking at || is_before_file at || is_after_offer at)

pub reduce-is_ending :
    (s : View) (e : Event)
    → is_ending s.screen ≡ true
    → ((reduce s e).screen ≡ s.screen) ⊎ (e ≡ got_unsupported)
unfolding reduce
reduce-is_ending s e p = ground arith

-- `got_sent` alone leads to `sent`, and only from a file the receiver accepted.
pub reduce-sent :
    (s : View) (e : Event)
    → (reduce s e).screen ≡ sent
    → (s.screen ≡ sent)
      ⊎ ((e ≡ got_sent) × (is_after_offer s.screen && not (is_asking s.screen)) ≡ true)
unfolding reduce
reduce-sent s e p = ground arith
