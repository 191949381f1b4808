-- ===== src/Direct/Messages/Decode.antt =====
-- The strict decoder of messages (decodeMessage of src/direct/messages.ts).
use wildbloom.Prelude.{
  ℕ, ◌+◌, Bool, false, not, ◌&&◌, if◌then◌else◌, List, [], ◌∷◌, Option, none, some, ltb, leb, ◌==◌,
  length, map,
}
use wildbloom.Prelude.Text.{Text, codes, eq_text}
use wildbloom.Core.Names.{sanitise_file_name}
use wildbloom.Direct.Config.{message_bytes, messages_per_side, max_restarts}
use wildbloom.Direct.Messages.Json.{Value, Fields, member, canonical_json}
use wildbloom.Direct.Messages.Syntax.{check_sdp, is_canonical_key, is_disguised, is_media_type}
use wildbloom.Direct.Messages.{
  drop, page, StopReason, cancelled_reason, unsupported_reason, failed_reason, DirectMessage,
  manifest, accept, decline, answer, restart, restart_answer, stop, Decoded, read, refused_failed,
  refused_unsupported, DecodeContext, Platform, Side, EventName, invite_name, manifest_name,
  accept_name, decline_name, answer_name, restart_name, restart_answer_name, stop_name, event_text,
}
use wildbloom.Direct.Messages.Check.{
  as_fields, as_number, as_text, check, has_exactly, or_failed, ◌then_read◌,
}
use wildbloom.Direct.Messages.Invite.{read_invite}

abbrev pub is_over : ℕ → Option ℕ → Bool
is_over size none = false
is_over size (some max) = ltb max size

-- `readManifest`.
abbrev pub read_manifest : Platform → DecodeContext → Fields → Decoded DirectMessage
read_manifest platform context fs =
    check (has_exactly (map codes ("event" ∷ "name" ∷ "size" ∷ "type" ∷ "v" ∷ [])) fs)
    then_read λ _. as_text (member (codes "name") fs) then_read λ name.
        check (eq_text (sanitise_file_name platform.nfc name) name && not (is_disguised name))
        then_read λ _. as_text (member (codes "type") fs) then_read λ type.
            check (is_media_type platform.to_lower_case type) then_read λ _.
            as_number (member (codes "size") fs) then_read λ size.
            if is_over size context.max then refused_unsupported else read (manifest name size type)

-- `readSdpMessage`, with the message that it makes.
abbrev pub read_sdp_message : (Text → DirectMessage) → Fields → Decoded DirectMessage
read_sdp_message make fs =
    check (has_exactly (map codes ("event" ∷ "sdp" ∷ "v" ∷ [])) fs) then_read λ _.
    as_text (member (codes "sdp") fs) then_read λ sdp.
    check (check_sdp sdp) then_read λ _. read (make sdp)

-- `readAnswer`.
abbrev pub read_answer : Fields → Decoded DirectMessage
read_answer fs =
    check (has_exactly (map codes ("event" ∷ "key" ∷ "sdp" ∷ "v" ∷ [])) fs) then_read λ _.
    as_text (member (codes "key") fs) then_read λ key. check (is_canonical_key key) then_read λ _.
    as_text (member (codes "sdp") fs) then_read λ sdp.
    check (check_sdp sdp) then_read λ _. read (answer key sdp)

abbrev pub read_reason : Text → Decoded StopReason
read_reason reason =
    if eq_text reason (codes "cancelled")
    then read cancelled_reason
    else if eq_text reason (codes "unsupported")
    then read unsupported_reason
    else if eq_text reason (codes "failed")
    then read failed_reason
    else refused_failed

-- `readStop`.
abbrev pub read_stop : Fields → Decoded DirectMessage
read_stop fs = check (has_exactly (map codes ("event" ∷ "reason" ∷ "v" ∷ [])) fs) then_read λ _.
    as_text (member (codes "reason") fs) then_read λ text.
    read_reason text then_read λ reason. read (stop reason)

-- `allowedEvents`; the index is a natural number.
abbrev pub allowed_events : Side → ℕ → List EventName
allowed_events drop index =
    if leb messages_per_side index
    then []
    else if index == 0
    then invite_name ∷ []
    else if index == 1
    then accept_name ∷ decline_name ∷ stop_name ∷ []
    else if leb index (1 + max_restarts)
    then restart_name ∷ stop_name ∷ []
    else stop_name ∷ []
allowed_events page index =
    if leb messages_per_side index
    then []
    else if index == 0
    then manifest_name ∷ stop_name ∷ []
    else if index == 1
    then answer_name ∷ stop_name ∷ []
    else if leb index (1 + max_restarts)
    then restart_answer_name ∷ stop_name ∷ []
    else stop_name ∷ []

-- The first of the names that the text is.
abbrev pub find_event : Text → List EventName → Option EventName
find_event text [] = none
find_event text (name ∷ names) =
    if eq_text text (event_text name) then some name else find_event text names

-- The switch on the event.
abbrev pub read_body : Platform → DecodeContext → EventName → Fields → Decoded DirectMessage
read_body platform context invite_name fs = read_invite context fs
read_body platform context manifest_name fs = read_manifest platform context fs
read_body platform context accept_name fs = read_sdp_message accept fs
read_body platform context restart_name fs = read_sdp_message restart fs
read_body platform context restart_answer_name fs = read_sdp_message restart_answer fs
read_body platform context decline_name fs =
    check (has_exactly (map codes ("event" ∷ "v" ∷ [])) fs) then_read λ _. read decline
read_body platform context answer_name fs = read_answer fs
read_body platform context stop_name fs = read_stop fs

abbrev pub check_version : ℕ → Decoded (Unit {0})
check_version version = if version == 1 then read tt else refused_unsupported

abbrev pub read_event : Platform → DecodeContext → Fields → Text → Decoded DirectMessage
read_event platform context fs text =
    or_failed (find_event text (allowed_events context.from context.index)) then_read λ name.
    read_body platform context name fs

abbrev pub read_versioned : Platform → DecodeContext → Fields → ℕ → Decoded DirectMessage
read_versioned platform context fs version = check_version version then_read λ _.
    as_text (member (codes "event") fs) then_read read_event platform context fs

-- What `decodeMessage` does with the members of the object.
unfoldable pub read_message : Platform → DecodeContext → Fields → Decoded DirectMessage
read_message platform context fs =
    as_number (member (codes "v") fs) then_read read_versioned platform context fs

abbrev pub decode_canonical :
    Platform → DecodeContext → Text → Value → Fields → Decoded DirectMessage
decode_canonical platform context text parsed fs =
    or_failed (canonical_json platform.printer parsed) then_read λ canonical.
    check (eq_text canonical text) then_read λ _. read_message platform context fs

abbrev pub decode_parsed : Platform → DecodeContext → Text → Value → Decoded DirectMessage
decode_parsed platform context text parsed =
    as_fields parsed then_read decode_canonical platform context text parsed

abbrev pub decode_text : Platform → DecodeContext → Text → Decoded DirectMessage
decode_text platform context text =
    or_failed (platform.json_parse text) then_read decode_parsed platform context text

-- `decodeMessage`.
unfoldable pub decode_message : Platform → DecodeContext → List ℕ → Decoded DirectMessage
decode_message platform context bytes = check (leb (length bytes) message_bytes) then_read λ _.
    or_failed (platform.utf8_decode bytes) then_read decode_text platform context
