-- ===== src/GetPage.antt =====
-- The page that receives a file from storage (src/get/state.ts): a pure reducer.
pub mod Laws
pub mod Reply
pub mod Failure
mod Tests
use Prim.Native.String.{String}
use wildbloom.Prelude.{ℕ, List, [], ◌∷◌, Bool, true, false, not, ◌||◌, ◌&&◌, ◌==◌, if◌then◌else◌}
use wildbloom.SendPage.{Link, is_expired_link, is_ok_link}

-- `ScreenId`.
pub data Screen : Type 0 where
  r2 r3 r4 r5 r6 r7 r8 r9 r10 r11 r12 r13 r14 r15 r16 r17 r18 r19 r20 r21 r22 r23 : Screen
  cancelled invalid : Screen

-- What Try again repeats.
pub data Retry : Type 0 where
  by_connect by_download : Retry

-- `ViewState`.
pub record View : Type 0 where
  pub screen : Screen
  pub offline : Bool
  pub check_words : String
  pub file_name : String
  pub file_size : ℕ
  pub received : ℕ
  pub retry : Retry

-- `ViewEvent`.
pub data Event : Type 0 where
  start : Link → Event
  unsupported continue slow claim_refused network wrong_words : Event
  paired : String → Event
  answer_yes answer_no : Event
  details : String → ℕ → Event
  invalid_details too_big expired download : Event
  progress : ℕ → Event
  checking saved save_failed save_again missing unavailable damaged back cancel : Event
  online : Bool → Event

-- `INITIAL_STATE`.
abbrev pub initial : View
initial = record {
  screen = r5;
  offline = false;
  check_words = "";
  file_name = "";
  file_size = 0;
  received = 0;
  retry = by_connect;
}

-- The screens by number, and 0 and 1 for the two without one.
abbrev pub number : Screen → ℕ
number cancelled = 0
number invalid = 1
number r2 = 2
number r3 = 3
number r4 = 4
number r5 = 5
number r6 = 6
number r7 = 7
number r8 = 8
number r9 = 9
number r10 = 10
number r11 = 11
number r12 = 12
number r13 = 13
number r14 = 14
number r15 = 15
number r16 = 16
number r17 = 17
number r18 = 18
number r19 = 19
number r20 = 20
number r21 = 21
number r22 = 22
number r23 = 23

abbrev pub is_at : ℕ → View → Bool
is_at n s = number s.screen == n

-- `PAIRING`.
abbrev pub is_pairing : View → Bool
is_pairing s = is_at 6 s || is_at 7 s

-- `BEFORE_FILE`.
abbrev pub is_before_file : View → Bool
is_before_file s = is_at 5 s || is_at 6 s || is_at 7 s || is_at 10 s || is_at 12 s || is_at 14 s

abbrev pub go : View → Screen → View
go s screen = record s { screen = screen }

-- The next state if the event applies, and else the same one.
abbrev when : Bool → View → View → View
when applies s next = if applies then next else s

-- `reduce`.
pub reduce : View → Event → View
reduce s (start link) =
    when (is_at 5 s && not (is_ok_link link)) s (go s (if is_expired_link link then r4 else r3))
reduce s unsupported = go s r2
reduce s (online up) = record s { offline = not up }
reduce s continue = when (is_at 5 s || is_at 10 s) s (record s { screen = r6; retry = by_connect })
reduce s slow = when (is_at 6 s) s (go s r7)
reduce s claim_refused = when (is_pairing s) s (go s r9)
reduce s network =
    when (is_pairing s || is_at 12 s || is_at 14 s) s
      (record s { screen = r10; retry = by_connect })
reduce s wrong_words = when (is_pairing s) s (go s r8)
reduce s (paired three) = when (is_pairing s) s (record s { screen = r12; check_words = three })
reduce s answer_yes = when (is_at 12 s) s (go s r14)
reduce s answer_no = when (is_at 12 s) s (record s { screen = r13; check_words = "" })
reduce s (details name size) =
    when (is_at 14 s) s
      (record s { screen = r15; file_name = name; file_size = size; check_words = "" })
reduce s invalid_details = when (is_at 14 s) s (go s invalid)
reduce s too_big = when (is_at 14 s) s (go s r22)
reduce s expired = when (is_before_file s) s (record s { screen = r4; check_words = "" })
reduce s download =
    when (is_at 15 s || is_at 19 s || is_at 21 s) s
      (record s { screen = r16; received = 0; retry = by_download })
reduce s (progress bytes) = when (is_at 16 s) s (record s { received = bytes })
reduce s checking = when (is_at 16 s) s (go s r17)
reduce s saved = when (is_at 17 s) s (go s r18)
reduce s save_failed = when (is_at 17 s || is_at 18 s || is_at 23 s) s (go s r23)
reduce s save_again = when (is_at 23 s) s (go s r18)
reduce s missing = when (is_at 16 s || is_at 17 s) s (go s r20)
reduce s unavailable = when (is_at 16 s || is_at 17 s) s (go s r19)
reduce s damaged = when (is_at 16 s || is_at 17 s) s (go s r21)
reduce s back = when (is_at 6 s) s (go s r5)
reduce s cancel =
    if is_at 16 s
    then record s { screen = r15; received = 0 }
    else when (is_pairing s || is_at 14 s) s (record s { screen = cancelled; check_words = "" })

-- The page after the events so far.
pub run : View → List Event → View
run s [] = s
run s (e ∷ es) = run (reduce s e) es
