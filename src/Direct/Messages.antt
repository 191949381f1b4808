-- ===== src/Direct/Messages.antt =====
-- The messages of a session (src/direct/messages.ts): their types. What JavaScript does with UTF-8, JSON,
-- letter case and NFC is a parameter, the platform.
pub mod Json
pub mod Syntax
pub mod Check
pub mod Invite
pub mod Decode
pub mod Encode
pub mod Grammar
pub mod Ordered
pub mod RoundTrip
pub mod InviteSound
pub mod Sound
pub mod Tests
use wildbloom.Prelude.{
  ℕ, ◌+◌, Bool, true, false, not, ◌&&◌, ◌||◌, if◌then◌else◌, List, [], ◌∷◌, Option, none, some, ltb,
  leb, ◌==◌, length, map,
}
use wildbloom.Prelude.Text.{Text, codes, eq_text, every, some_of, includes, is_control, utf8_length}
use wildbloom.Core.Names.{sanitise_file_name}
use wildbloom.Direct.Config.{
  message_bytes, ice_servers, urls_per_server, url_bytes, credential_bytes, max_plaintext_bytes,
  messages_per_side, max_restarts,
}
use Json.{Value, Printer}

pub data Side : Type 0 where
  drop page : Side

pub data StopReason : Type 0 where
  cancelled_reason unsupported_reason failed_reason : StopReason

pub record IceServer : Type 0 where
  pub credential : Text
  pub urls : List Text
  pub username : Text

-- `DirectMessage`.
pub data DirectMessage : Type 0 where
  invite : Bool → List IceServer → Text → ℕ → DirectMessage
  manifest : Text → ℕ → Text → DirectMessage
  accept : Text → DirectMessage
  decline : DirectMessage
  answer : Text → Text → DirectMessage
  restart : Text → DirectMessage
  restart_answer : Text → DirectMessage
  stop : StopReason → DirectMessage

-- `DecodeResult`, without the detail, which is for logs only.
pub data Decoded {ℓ} (A : Type ℓ) : Type ℓ where
  read : A → Decoded A
  refused_failed refused_unsupported : Decoded A

pub record DecodeContext : Type 0 where
  pub from : Side
  pub index : ℕ
  pub ice_allowlist : List Text
  pub max : Option ℕ

-- What the code relies on of JavaScript: `TextEncoder` and `TextDecoder`, `JSON.parse`, one string and one
-- number of `JSON.stringify`, `toLowerCase` and `normalize("NFC")`.
pub record Platform : Type 0 where
  pub utf8_encode : Text → List ℕ
  pub utf8_decode : List ℕ → Option Text
  pub json_parse : Text → Option Value
  pub printer : Printer
  pub to_lower_case : Text → Text
  pub nfc : Text → Text

-- The names of events.
pub data EventName : Type 0 where
  invite_name manifest_name accept_name decline_name answer_name restart_name restart_answer_name
        stop_name :
      EventName

abbrev pub event_text : EventName → Text
event_text invite_name = codes "invite"
event_text manifest_name = codes "manifest"
event_text accept_name = codes "accept"
event_text decline_name = codes "decline"
event_text answer_name = codes "answer"
event_text restart_name = codes "restart"
event_text restart_answer_name = codes "restart-answer"
event_text stop_name = codes "stop"
