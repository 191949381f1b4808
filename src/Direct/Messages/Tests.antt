-- ===== src/Direct/Messages/Tests.antt =====
-- The messages on concrete inputs (src/direct/messages.ts).
use wildbloom.Prelude.{◌+◌, ◌≤◌, ◌≡◌, refl, true, [], ◌∷◌, ◌++◌, some, length}
use wildbloom.Prelude.Text.{Text, codes}
use wildbloom.Direct.Config.{message_bytes}
use wildbloom.Direct.Messages.{
  page, DirectMessage, manifest, DecodeContext, Platform, read, event_text,
}
use wildbloom.Direct.Messages.Json.{object, canonical_json}
use wildbloom.Core.Names.{sanitise_file_name}
use wildbloom.Direct.Messages.Syntax.{is_disguised, is_media_type}
use wildbloom.Direct.Messages.Decode.{decode_message, find_event, allowed_events}
use wildbloom.Direct.Messages.Encode.{encode_message, message_fields}
use wildbloom.Direct.Messages.RoundTrip.{name_of, is_well_formed, decode_message-encode_message}
use wildbloom.Direct.Messages.Sound.{decode_message_sound}

-- A platform on which every text is ASCII, and every JSON text is the object of one message.
abbrev platform_for : DirectMessage → Platform
platform_for m = record {
  utf8_encode = λ text. text;
  utf8_decode = λ bytes. some bytes;
  json_parse = λ text. some (object (message_fields m));
  printer = record { quote = λ text. b'"' ∷ (text ++ (b'"' ∷ [])); decimal = λ n. (n + b'0') ∷ [] };
  to_lower_case = λ text. text;
  nfc = λ text. text;
}

abbrev offered : DirectMessage
offered = manifest (codes "a.txt") 7 (codes "text/plain")

abbrev to_drop : DecodeContext
to_drop = record { from = page; index = 0; ice_allowlist = []; max = some 9 }

abbrev offered_text : Text
offered_text =
    codes "{\"event\":\"manifest\",\"name\":\"a.txt\",\"size\":7,\"type\":\"text/plain\",\"v\":1}"

decode_message-encode_message_example :
    decode_message (platform_for offered) to_drop offered_text ≡ read offered
unfolding message_fields encode_message canonical_json sanitise_file_name is_disguised is_media_type
decode_message-encode_message_example =
    decode_message-encode_message (platform_for offered) to_drop offered offered_text refl refl
      (λ t s. (refl, refl)) refl

decode_message_sound_example :
    (find_event (event_text (name_of offered)) (allowed_events page 0) ≡ some (name_of offered))
    × (is_well_formed (platform_for offered) to_drop offered ≡ true)
    × (length offered_text ≤ message_bytes)
decode_message_sound_example =
    decode_message_sound (platform_for offered) to_drop offered_text offered
      decode_message-encode_message_example
