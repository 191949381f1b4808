-- ===== src/Direct/Messages/Encode.antt =====
-- The encoder of messages (encodeMessage of src/direct/messages.ts).
use wildbloom.Prelude.{ℕ, if◌then◌else◌, List, [], ◌∷◌, Option, none, some, leb, length}
use wildbloom.Prelude.Text.{Text, codes}
use wildbloom.Direct.Config.{message_bytes}
use wildbloom.Direct.Messages.Json.{
  Value, Items, Fields, boolean, number, string, array, object, nil, item, end, field,
  canonical_json,
}
use wildbloom.Direct.Messages.{
  StopReason, cancelled_reason, unsupported_reason, failed_reason, IceServer, DirectMessage, invite,
  manifest, accept, decline, answer, restart, restart_answer, stop, Platform, EventName,
  invite_name, manifest_name, accept_name, decline_name, answer_name, restart_name,
  restart_answer_name, stop_name, event_text,
}

-- The object of a message, in the order in which `canonicalJson` writes its members.
abbrev pub url_items : List Text → Items
url_items [] = nil
url_items (url ∷ urls) = item (string url) (url_items urls)

abbrev pub server_items : List IceServer → Items
server_items [] = nil
server_items (s ∷ servers) =
    item
      (object (
        field (codes "credential") (string s.credential) (
          field (codes "urls") (array (url_items s.urls))
            (field (codes "username") (string s.username) end))))
      (server_items servers)

abbrev pub reason_text : StopReason → Text
reason_text cancelled_reason = codes "cancelled"
reason_text unsupported_reason = codes "unsupported"
reason_text failed_reason = codes "failed"

abbrev pub named : EventName → Value
named name = string (event_text name)

abbrev pub version_1 : Fields
version_1 = field (codes "v") (number 1) end

-- `{ ...message, v: 1 }`.
unfoldable pub message_fields : DirectMessage → Fields
message_fields (invite hide ice id max) = field (codes "dir") (string (codes "to-drop")) (
    field (codes "event") (named invite_name) (
      field (codes "hide") (boolean hide) (
        field (codes "ice") (array (server_items ice))
          (field (codes "id") (string id) (field (codes "max") (number max) version_1)))))
message_fields (manifest name size type) = field (codes "event") (named manifest_name) (
    field (codes "name") (string name)
      (field (codes "size") (number size) (field (codes "type") (string type) version_1)))
message_fields (accept sdp) =
    field (codes "event") (named accept_name) (field (codes "sdp") (string sdp) version_1)
message_fields decline = field (codes "event") (named decline_name) version_1
message_fields (answer key sdp) =
    field (codes "event") (named answer_name)
      (field (codes "key") (string key) (field (codes "sdp") (string sdp) version_1))
message_fields (restart sdp) =
    field (codes "event") (named restart_name) (field (codes "sdp") (string sdp) version_1)
message_fields (restart_answer sdp) =
    field (codes "event") (named restart_answer_name) (field (codes "sdp") (string sdp) version_1)
message_fields (stop reason) =
    field (codes "event") (named stop_name)
      (field (codes "reason") (string (reason_text reason)) version_1)

-- `encodeMessage`; `none` is its TypeError or RangeError.
unfoldable pub encode_message : Platform → DirectMessage → Option (List ℕ)
encode_message platform message =
    elim (canonical_json platform.printer (object (message_fields message))) [
      | none ↦ none
      | some text ↦
          if leb (length (platform.utf8_encode text)) message_bytes
          then some (platform.utf8_encode text)
          else none
    ]
