-- ===== src/Direct/Messages/Sound.antt =====
-- What the decoder lets through (decodeMessage of src/direct/messages.ts).
use wildbloom.Prelude.{
  ℕ, ◌≡◌, sym, ap, subst, ◌∙◌, ◌≤◌, inl, inr, Bool-cases, true, List, [], ◌∷◌, some, leb, length,
  arith,
}
use wildbloom.Prelude.Text.{Text, codes, eq_text, eq_text-eq}
use wildbloom.Direct.Config.{message_bytes}
use wildbloom.Direct.Messages.Json.{Fields, canonical_json, member}
use wildbloom.Direct.Messages.{
  DirectMessage, accept, read, DecodeContext, Platform, EventName, invite_name, manifest_name,
  accept_name, decline_name, answer_name, restart_name, restart_answer_name, stop_name, event_text,
}
use wildbloom.Direct.Messages.Check.{as_fields, as_number, as_text, check, or_failed, ◌then_read◌}
use wildbloom.Direct.Messages.Decode.{
  allowed_events, check_version, decode_canonical, decode_message, decode_parsed, decode_text,
  find_event, read_answer, read_body, read_event, read_manifest, read_message, read_sdp_message,
  read_versioned,
}
use wildbloom.Direct.Messages.Encode.{named}
use wildbloom.Direct.Messages.RoundTrip.{name_of, is_well_formed}
use wildbloom.Direct.Messages.InviteSound.{bound, checked, read_invite_sound}

read_sdp_sound :
    (platform : Platform) (context : DecodeContext) (fs : Fields) (m : DirectMessage)
    → read_sdp_message accept fs ≡ read m
    → is_well_formed platform context m ≡ true
read_sdp_sound platform context fs m h = grind arith

read_answer_sound :
    (platform : Platform) (context : DecodeContext) (fs : Fields) (m : DirectMessage)
    → read_answer fs ≡ read m
    → is_well_formed platform context m ≡ true
read_answer_sound platform context fs m h = grind arith

read_manifest_sound :
    (platform : Platform) (context : DecodeContext) (fs : Fields) (m : DirectMessage)
    → read_manifest platform context fs ≡ read m
    → is_well_formed platform context m ≡ true
read_manifest_sound platform context fs m h = grind arith

-- The body of an event is a message of that name.
read_body_sound :
    (platform : Platform) (context : DecodeContext) (name : EventName) (fs : Fields)
    (m : DirectMessage)
    → read_body platform context name fs ≡ read m
    → (name_of m ≡ name) × (is_well_formed platform context m ≡ true)
read_body_sound platform context invite_name fs m h = read_invite_sound platform context fs m h
read_body_sound platform context manifest_name fs m h =
    (grind arith, read_manifest_sound platform context fs m h)
read_body_sound platform context accept_name fs m h = grind arith
read_body_sound platform context restart_name fs m h = grind arith
read_body_sound platform context restart_answer_name fs m h = grind arith
read_body_sound platform context decline_name fs m h = grind arith
read_body_sound platform context answer_name fs m h =
    (grind arith, read_answer_sound platform context fs m h)
read_body_sound platform context stop_name fs m h = grind arith

find_event-text :
    (text : Text) (names : List EventName) (name : EventName)
    → find_event text names ≡ some name
    → text ≡ event_text name
find_event-text text [] name h = absurd (cc h)
find_event-text text (n ∷ names) name h = elim (Bool-cases (eq_text text (event_text n))) [
  | inl p ↦ let e : n ≡ name = grind arith in eq_text-eq text (event_text n) p ∙ ap event_text e
  | inr p ↦ find_event-text text names name (grind arith)
]

abbrev IsExpected : Platform → DecodeContext → DirectMessage → Type 0
IsExpected platform context m =
    (find_event (event_text (name_of m)) (allowed_events context.from context.index)
      ≡ some (name_of m))
    × (is_well_formed platform context m ≡ true)

read_event-IsExpected :
    (platform : Platform) (context : DecodeContext) (fs : Fields) (text : Text) (m : DirectMessage)
    → read_event platform context fs text ≡ read m
    → IsExpected platform context m
read_event-IsExpected platform context fs text m h =
    let events = allowed_events context.from context.index in
    let (name, f, h1) =
      bound (or_failed (find_event text events)) (λ name. read_body platform context name fs) h in
    let found : find_event text events ≡ some name = grind arith in
    let (named, formed) = read_body_sound platform context name fs m h1 in
    (
      subst (λ n. find_event (event_text n) events ≡ some n) (sym named)
          (subst (λ t. find_event t events ≡ some name) (find_event-text text events name found)
            found),
      formed,
    )

read_message-IsExpected :
    (platform : Platform) (context : DecodeContext) (fs : Fields) (m : DirectMessage)
    → read_message platform context fs ≡ read m
    → IsExpected platform context m
unfolding read_message
read_message-IsExpected platform context fs m h =
    let (version, _, h1) =
      bound (as_number (member (codes "v") fs)) (read_versioned platform context fs) h in
    let (_, _, h2) =
      bound (check_version version)
        (λ _. as_text (member (codes "event") fs) then_read read_event platform context fs) h1 in
    let (text, _, h3) =
      bound (as_text (member (codes "event") fs)) (read_event platform context fs) h2 in
    read_event-IsExpected platform context fs text m h3

-- Whatever bytes arrive, a message that the decoder lets through may stand at this place of the exchange, has the
-- protocol's form (its ICE URLs on the allowlist, its sizes within the caps, its name a fixed point of the name
-- rule), and came in no more bytes than the exchange allows.
pub decode_message_sound :
    (platform : Platform) (context : DecodeContext) (bytes : List ℕ) (m : DirectMessage)
    → decode_message platform context bytes ≡ read m
    → (find_event (event_text (name_of m)) (allowed_events context.from context.index)
        ≡ some (name_of m))
      × (is_well_formed platform context m ≡ true)
      × (length bytes ≤ message_bytes)
unfolding decode_message
decode_message_sound platform context bytes m h =
    let (_, short, h1) =
      bound (check (leb (length bytes) message_bytes))
        (λ _. or_failed (platform.utf8_decode bytes) then_read decode_text platform context) h in
    let (text, _, h2) =
      bound (or_failed (platform.utf8_decode bytes)) (decode_text platform context) h1 in
    let (parsed, _, h3) =
      bound (or_failed (platform.json_parse text)) (decode_parsed platform context text) h2 in
    let (fs, _, h4) = bound (as_fields parsed) (decode_canonical platform context text parsed) h3 in
    let (canonical, _, h5) =
      bound (or_failed (canonical_json platform.printer parsed))
        (λ canonical.
          check (eq_text canonical text) then_read λ _. read_message platform context fs)
        h4 in
    let (_, _, h6) =
      bound (check (eq_text canonical text)) (λ _. read_message platform context fs) h5 in
    let e = read_message-IsExpected platform context fs m h6 in
    let l = checked short in (e.0, e.1, ground arith)
