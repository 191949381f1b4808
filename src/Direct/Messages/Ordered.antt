-- ===== src/Direct/Messages/Ordered.antt =====
-- The members of a message's object stand in the order of their names, so that the canonical text of a message
-- is a text of its object in JSON's grammar (encodeMessage of src/direct/messages.ts).
use wildbloom.Prelude.{◌≡◌, refl, true, List, [], ◌∷◌, some}
use wildbloom.Prelude.Text.{Text}
use wildbloom.Direct.Messages.{
  cancelled_reason, unsupported_reason, failed_reason, IceServer, DirectMessage, invite, manifest,
  accept, decline, answer, restart, restart_answer, stop,
}
use wildbloom.Direct.Messages.Json.{object, Printer, canonical_json}
use wildbloom.Direct.Messages.Grammar.{Spells, is_ordered, are_ordered, has_order, canonical-Spells}
use wildbloom.Direct.Messages.Encode.{message_fields, server_items, url_items}

url_items-ordered : (urls : List Text) → are_ordered (url_items urls) ≡ true
unfolding is_ordered
url_items-ordered [] = refl
url_items-ordered (url ∷ urls) = url_items-ordered urls

server_items-ordered : (servers : List IceServer) → are_ordered (server_items servers) ≡ true
unfolding is_ordered
server_items-ordered [] = refl
server_items-ordered (s ∷ servers) =
    rw (url_items-ordered s.urls, server_items-ordered servers) refl

message_fields-ordered : (m : DirectMessage) → has_order (message_fields m) ≡ true
unfolding is_ordered message_fields
message_fields-ordered (invite hide ice id max) = rw (server_items-ordered ice) refl
message_fields-ordered (manifest name size type) = refl
message_fields-ordered (accept sdp) = refl
message_fields-ordered decline = refl
message_fields-ordered (answer key sdp) = refl
message_fields-ordered (restart sdp) = refl
message_fields-ordered (restart_answer sdp) = refl
message_fields-ordered (stop cancelled_reason) = refl
message_fields-ordered (stop unsupported_reason) = refl
message_fields-ordered (stop failed_reason) = refl

pub message-Spells :
    (printer : Printer) (m : DirectMessage) (text : Text)
    → canonical_json printer (object (message_fields m)) ≡ some text
    → Spells printer (object (message_fields m)) text
unfolding is_ordered
message-Spells printer m text h =
    canonical-Spells printer (object (message_fields m)) text h (message_fields-ordered m)
