-- ===== src/Direct/Messages/RoundTrip.antt =====
-- What one end encodes, the other end decodes (encodeMessage and decodeMessage of src/direct/messages.ts).
use wildbloom.Prelude.{
  ℕ, ◌≡◌, refl, subst, Bool, true, false, not, ◌&&◌, List, [], ◌∷◌, some, ltb, leb, length, arith,
  inl, inr, Option-cases,
}
use wildbloom.Prelude.Text.{both_hold, Text, eq_text, eq_text_refl, every, some_of, utf8_length}
use wildbloom.Core.Names.{sanitise_file_name}
use wildbloom.Direct.Config.{
  message_bytes, ice_servers, urls_per_server, url_bytes, max_plaintext_bytes,
}
use wildbloom.Direct.Messages.Json.{object, canonical_json}
use wildbloom.Direct.Messages.Syntax.{
  check_sdp, is_canonical_id, is_canonical_key, is_ice_url, is_relay_url, is_disguised,
  is_media_type,
}
use wildbloom.Direct.Messages.{
  cancelled_reason, unsupported_reason, failed_reason, IceServer, DirectMessage, invite, manifest,
  accept, decline, answer, restart, restart_answer, stop, read, DecodeContext, Platform, EventName,
  invite_name, manifest_name, accept_name, decline_name, answer_name, restart_name,
  restart_answer_name, stop_name, event_text,
}
use wildbloom.Direct.Messages.Check.{count}
use wildbloom.Direct.Messages.Grammar.{Spells}
use wildbloom.Direct.Messages.Ordered.{message-Spells}
use wildbloom.Direct.Messages.Invite.{is_few, is_listed, is_secret, read_servers, read_urls}
use wildbloom.Direct.Messages.Decode.{
  allowed_events, decode_message, find_event, is_over, read_message,
}
use wildbloom.Direct.Messages.Encode.{
  encode_message, message_fields, named, server_items, url_items,
}

abbrev pub name_of : DirectMessage → EventName
name_of (invite hide ice id max) = invite_name
name_of (manifest name size type) = manifest_name
name_of (accept sdp) = accept_name
name_of decline = decline_name
name_of (answer key sdp) = answer_name
name_of (restart sdp) = restart_name
name_of (restart_answer sdp) = restart_answer_name
name_of (stop reason) = stop_name

-- A server that the protocol's syntax allows.
abbrev pub is_server : IceServer → Bool
is_server s =
    is_few urls_per_server (length s.urls)
    && every (λ url. is_ice_url url && leb (utf8_length url) url_bytes) s.urls
    && is_secret (some_of is_relay_url s.urls) s.username
    && is_secret (some_of is_relay_url s.urls) s.credential

-- What the protocol asks of a message beside its place in the exchange.
abbrev pub is_well_formed : Platform → DecodeContext → DirectMessage → Bool
is_well_formed platform context (invite hide ice id max) =
    is_canonical_id id
    && leb 1 max
    && leb max max_plaintext_bytes
    && is_few ice_servers (length ice)
    && every is_server ice
    && every (is_listed context.ice_allowlist) ice
is_well_formed platform context (manifest name size type) =
    eq_text (sanitise_file_name platform.nfc name) name
    && not (is_disguised name)
    && is_media_type platform.to_lower_case type
    && not (is_over size context.max)
is_well_formed platform context (accept sdp) = check_sdp sdp
is_well_formed platform context decline = true
is_well_formed platform context (answer key sdp) = is_canonical_key key && check_sdp sdp
is_well_formed platform context (restart sdp) = check_sdp sdp
is_well_formed platform context (restart_answer sdp) = check_sdp sdp
is_well_formed platform context (stop reason) = true

read_urls-items :
    (urls : List Text)
    → every (λ url. is_ice_url url && leb (utf8_length url) url_bytes) urls ≡ true
    → read_urls (url_items urls) ≡ read urls
read_urls-items [] h = refl
read_urls-items (url ∷ urls) h = ground (arith, read_urls-items urls)

count-url_items : (urls : List Text) → count (url_items urls) ≡ length urls
count-url_items [] = refl
count-url_items (url ∷ urls) = omega (arith, count-url_items urls)

count-server_items : (servers : List IceServer) → count (server_items servers) ≡ length servers
count-server_items [] = refl
count-server_items (s ∷ servers) = omega (arith, count-server_items servers)

read_servers-items :
    (servers : List IceServer)
    → every is_server servers ≡ true
    → read_servers (server_items servers) ≡ read servers
read_servers-items [] h = refl
read_servers-items (s ∷ servers) h =
    let (first, others) = both_hold (is_server s) (every is_server servers) h in
    let (a, secret) = both_hold _ (is_secret (some_of is_relay_url s.urls) s.credential) first in
    let (b, name) = both_hold _ (is_secret (some_of is_relay_url s.urls) s.username) a in
    let (few, urls) = both_hold (is_few urls_per_server (length s.urls)) _ b in
    simp (
      count-url_items s.urls,
      few,
      read_urls-items s.urls urls,
      name,
      secret,
      read_servers-items servers others,
    )

-- The message may stand here.
abbrev IsPlaced : DecodeContext → DirectMessage → Type 0
IsPlaced context m =
    find_event (event_text (name_of m)) (allowed_events context.from context.index)
    ≡ some (name_of m)

read_message-fields :
    (platform : Platform) (context : DecodeContext) (m : DirectMessage)
    → IsPlaced context m
    → is_well_formed platform context m ≡ true
    → read_message platform context (message_fields m) ≡ read m
unfolding read_message message_fields
read_message-fields platform context (invite hide ice id max) a h =
    let (b, listed) = both_hold _ (every (is_listed context.ice_allowlist) ice) h in
    let (c, servers) = both_hold _ (every is_server ice) b in
    let (d, few) = both_hold _ (is_few ice_servers (length ice)) c in
    let (e, capped) = both_hold _ (leb max max_plaintext_bytes) d in
    let (named, least) = both_hold (is_canonical_id id) (leb 1 max) e in
    let within : ltb max_plaintext_bytes max ≡ false = ground arith in
    simp
      (a, named, least, count-server_items ice, few, read_servers-items ice servers, listed, within)
read_message-fields platform context (manifest name size type) a h =
    let (b, within) = both_hold _ (not (is_over size context.max)) h in
    let (c, typed) = both_hold _ (is_media_type platform.to_lower_case type) b in
    let over : is_over size context.max ≡ false = ground arith in simp (a, c, typed, over)
read_message-fields platform context (accept sdp) a h = simp (a, h)
read_message-fields platform context decline a h = simp a
read_message-fields platform context (answer key sdp) a h =
    let (k, d) = both_hold (is_canonical_key key) (check_sdp sdp) h in simp (a, k, d)
read_message-fields platform context (restart sdp) a h = simp (a, h)
read_message-fields platform context (restart_answer sdp) a h = simp (a, h)
read_message-fields platform context (stop cancelled_reason) a h = simp a
read_message-fields platform context (stop unsupported_reason) a h = simp a
read_message-fields platform context (stop failed_reason) a h = simp a

-- A message that may stand at this place and has the protocol's form is decoded to itself by the other end
-- from the bytes that the encoder made of it, if, for every text that JSON's grammar has for the message's
-- object, TextDecoder reads back what TextEncoder wrote of it, and JSON.parse gives that object.
pub decode_message-encode_message :
    (platform : Platform) (context : DecodeContext) (m : DirectMessage) (bytes : List ℕ)
    → find_event (event_text (name_of m)) (allowed_events context.from context.index)
      ≡ some (name_of m)
    → is_well_formed platform context m ≡ true
    → ((t : Text)
        → Spells platform.printer (object (message_fields m)) t
        → (platform.utf8_decode (platform.utf8_encode t) ≡ some t)
          × (platform.json_parse t ≡ some (object (message_fields m))))
    → encode_message platform m ≡ some bytes
    → decode_message platform context bytes ≡ read m
unfolding encode_message decode_message
decode_message-encode_message platform context m bytes a h reads e =
    elim (Option-cases (canonical_json platform.printer (object (message_fields m)))) [
      | inr n ↦ grind (arith, n, e)
      | inl (text, c) ↦
          let (u, j) = reads text (message-Spells platform.printer m text c) in
          let p : (leb (length (platform.utf8_encode text)) message_bytes ≡ true)
              × (platform.utf8_encode text ≡ bytes) =
            grind arith in
          subst (λ b. decode_message platform context b ≡ read m) p.1
            (simp (p.0, u, j, c, eq_text_refl text, read_message-fields platform context m a h))
    ]
