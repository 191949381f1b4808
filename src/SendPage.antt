-- ===== src/SendPage.antt =====
-- The sender page's screens (src/send/state.ts and src/send/screens.ts): a pure reducer.
pub mod Laws
pub mod History
pub mod Failures
mod Tests
use Prim.Native.String.{String}
use wildbloom.Prelude.{ℕ, List, [], ◌∷◌, Bool, true, false, not, ◌&&◌, ◌||◌, if◌then◌else◌}

-- `LinkProblem | "ok"` of src/get/link.ts.
pub data Link : Type 0 where
  ok missing_link invalid_link expired_link : Link

-- `ScreenId`.
pub data Screen : Type 0 where
  unsupported incomplete expired words connecting waiting wrong_words used network check mismatch
        confirming choose too_big empty unreadable asking declined linking sending finishing sent
        no_relay no_room connect_failed connect_failed_direct lost they_stopped failed cancelled
        invalid :
      Screen

-- `ViewState`.
pub record View : Type 0 where
  pub screen : Screen
  pub offline : Bool
  pub check_words : String
  pub file_name : String
  pub file_size : ℕ
  pub max_bytes : ℕ
  pub sent : ℕ
  pub total : ℕ
  pub reconnecting : Bool
  pub hide : Bool
  pub their_hidden : Bool
  pub relay_offered : Bool
  pub end_sent : Bool

-- `ViewEvent`. The events with the name of a screen are written `got_…`.
pub data Event : Type 0 where
  start : Link → Event
  got_unsupported : Event
  online : Bool → Event
  continue slow claim_refused got_network got_wrong_words : Event
  paired : String → Event
  answer_yes answer_no : Event
  invitation : ℕ → Bool → Bool → Event
  invalid_invitation got_expired : Event
  set_hide : Bool → Event
  got_too_big got_empty got_unreadable : Event
  got_asking : String → ℕ → Event
  got_declined got_linking : Event
  got_sending : ℕ → Event
  got_end_sent : Event
  progress : ℕ → Event
  got_reconnecting : Bool → Event
  got_sent got_no_relay got_no_room got_connect_failed got_lost got_they_stopped got_failed : Event
  back cancel : Event

-- `INITIAL_STATE`.
abbrev pub initial : View
initial = record {
  screen = words;
  offline = false;
  check_words = "";
  file_name = "";
  file_size = 0;
  max_bytes = 0;
  sent = 0;
  total = 0;
  reconnecting = false;
  hide = false;
  their_hidden = false;
  relay_offered = false;
  end_sent = false;
}

-- `PAIRING`.
abbrev pub is_pairing : Screen → Bool
is_pairing connecting = true
is_pairing waiting = true
is_pairing _ = false

-- `PICKING`.
abbrev pub is_picking : Screen → Bool
is_picking choose = true
is_picking too_big = true
is_picking empty = true
is_picking unreadable = true
is_picking _ = false

-- `BEFORE_FILE`.
abbrev pub is_before_file : Screen → Bool
is_before_file words = true
is_before_file connecting = true
is_before_file waiting = true
is_before_file network = true
is_before_file check = true
is_before_file confirming = true
is_before_file choose = true
is_before_file too_big = true
is_before_file empty = true
is_before_file unreadable = true
is_before_file _ = false

-- `AFTER_OFFER`.
abbrev pub is_after_offer : Screen → Bool
is_after_offer asking = true
is_after_offer linking = true
is_after_offer sending = true
is_after_offer finishing = true
is_after_offer _ = false

abbrev pub is_words : Screen → Bool
is_words words = true
is_words _ = false

abbrev pub is_network : Screen → Bool
is_network network = true
is_network _ = false

abbrev pub is_connecting : Screen → Bool
is_connecting connecting = true
is_connecting _ = false

abbrev pub is_check : Screen → Bool
is_check check = true
is_check _ = false

abbrev pub is_confirming : Screen → Bool
is_confirming confirming = true
is_confirming _ = false

abbrev pub is_choose : Screen → Bool
is_choose choose = true
is_choose _ = false

abbrev pub is_asking : Screen → Bool
is_asking asking = true
is_asking _ = false

abbrev pub is_linking : Screen → Bool
is_linking linking = true
is_linking _ = false

abbrev pub is_sending : Screen → Bool
is_sending sending = true
is_sending _ = false

abbrev pub is_finishing : Screen → Bool
is_finishing finishing = true
is_finishing _ = false

abbrev pub is_expired_link : Link → Bool
is_expired_link expired_link = true
is_expired_link _ = false

abbrev pub is_ok_link : Link → Bool
is_ok_link ok = true
is_ok_link _ = false

abbrev pub go : View → Screen → View
go s screen = record s { screen = screen }

-- A state goes to a screen if the test passes, and else stays.
abbrev on : Bool → View → View → View
on test next s = if test then next else s

-- The endings that can come while the receiver may still be asked or is receiving.
abbrev is_under_way : Screen → Bool
is_under_way at = is_after_offer at || is_choose at || is_confirming at

-- `reduce`.
pub reduce : View → Event → View
reduce s (start link) =
    on (is_words s.screen && not (is_ok_link link))
      (go s (if is_expired_link link then expired else incomplete)) s
reduce s got_unsupported = go s unsupported
reduce s (online up) = record s { offline = not up }
reduce s continue = on (is_words s.screen || is_network s.screen) (go s connecting) s
reduce s slow = on (is_connecting s.screen) (go s waiting) s
reduce s claim_refused = on (is_pairing s.screen) (go s used) s
reduce s got_network = on (is_pairing s.screen) (go s network) s
reduce s got_wrong_words = on (is_pairing s.screen) (go s wrong_words) s
reduce s (paired three) =
    on (is_pairing s.screen) (record s { screen = check; check_words = three }) s
reduce s answer_yes = on (is_check s.screen) (go s confirming) s
reduce s answer_no = on (is_check s.screen) (record s { screen = mismatch; check_words = "" }) s
reduce s (invitation max_bytes their_hidden relay_offered) =
    on (is_confirming s.screen)
      (record s {
        screen = choose;
        max_bytes = max_bytes;
        their_hidden = their_hidden;
        relay_offered = relay_offered;
        hide = relay_offered && s.hide;
        check_words = "";
      })
      s
reduce s invalid_invitation =
    on (is_confirming s.screen) (record s { screen = invalid; check_words = "" }) s
reduce s got_expired =
    on (is_before_file s.screen || is_asking s.screen)
      (record s { screen = expired; check_words = "" }) s
reduce s (set_hide choice) = record s { hide = choice && s.relay_offered }
reduce s got_too_big = on (is_picking s.screen) (go s too_big) s
reduce s got_empty = on (is_picking s.screen) (go s empty) s
reduce s got_unreadable = on (is_picking s.screen) (go s unreadable) s
reduce s (got_asking name size) =
    on (is_picking s.screen)
      (record s {
        screen = asking;
        file_name = name;
        file_size = size;
        sent = 0;
        total = 0;
        reconnecting = false;
        end_sent = false;
      })
      s
reduce s got_declined = on (is_asking s.screen) (go s declined) s
reduce s got_linking = on (is_asking s.screen) (go s linking) s
reduce s (got_sending total) =
    on (is_asking s.screen || is_linking s.screen)
      (record s { screen = sending; total = total; sent = 0; reconnecting = false }) s
reduce s (progress bytes) = on (is_sending s.screen) (record s { sent = bytes }) s
reduce s got_end_sent =
    on (is_sending s.screen) (record s { screen = finishing; end_sent = true }) s
reduce s (got_reconnecting now) =
    on (is_sending s.screen || is_linking s.screen || is_finishing s.screen)
      (record s { reconnecting = now }) s
reduce s got_sent =
    on (is_sending s.screen || is_linking s.screen || is_finishing s.screen)
      (record s { screen = sent; reconnecting = false }) s
reduce s got_no_relay =
    on (is_after_offer s.screen) (record s { screen = no_relay; reconnecting = false }) s
reduce s got_no_room =
    on (is_after_offer s.screen) (record s { screen = no_room; reconnecting = false }) s
reduce s got_connect_failed =
    on (is_after_offer s.screen)
      (record s {
        screen = if s.relay_offered then connect_failed else connect_failed_direct;
        reconnecting = false;
      })
      s
reduce s got_lost =
    on (is_under_way s.screen) (record s { screen = lost; reconnecting = false; check_words = "" })
      s
reduce s got_they_stopped =
    on (is_under_way s.screen)
      (record s { screen = they_stopped; reconnecting = false; check_words = "" }) s
reduce s got_failed =
    on (is_under_way s.screen)
      (record s { screen = failed; reconnecting = false; check_words = "" }) s
reduce s back = on (is_connecting s.screen) (go s words) s
reduce s cancel =
    on
      (is_pairing s.screen
        || is_confirming s.screen
        || is_picking s.screen
        || is_after_offer s.screen)
      (record s { screen = cancelled; check_words = ""; reconnecting = false }) s

-- `COPY.screens`: which of its texts is shown. A text `late_…` is one of `afterEnd`.
pub data Copy : Type 0 where
  plain : Screen → Copy
  late_no_room late_lost late_they_stopped late_failed late_cancelled : Copy

-- `screenText`.
pub screen_text : View → Copy
screen_text s = by_end s.end_sent s.screen
  where
    by_end : Bool → Screen → Copy
    by_end true no_room = late_no_room
    by_end true lost = late_lost
    by_end true they_stopped = late_they_stopped
    by_end true failed = late_failed
    by_end true cancelled = late_cancelled
    by_end _ at = plain at

-- The copy whose text says that nothing was sent or kept (src/send/copy.ts).
abbrev pub says_nothing_kept : Copy → Bool
says_nothing_kept (plain mismatch) = true
says_nothing_kept (plain declined) = true
says_nothing_kept (plain no_relay) = true
says_nothing_kept (plain no_room) = true
says_nothing_kept (plain connect_failed) = true
says_nothing_kept (plain connect_failed_direct) = true
says_nothing_kept (plain lost) = true
says_nothing_kept (plain they_stopped) = true
says_nothing_kept (plain failed) = true
says_nothing_kept (plain cancelled) = true
says_nothing_kept _ = false

-- The page after the events so far.
pub run : View → List Event → View
run s [] = s
run s (e ∷ es) = run (reduce s e) es
