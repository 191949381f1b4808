-- ===== src/Direct/Messages/Invite.antt =====
-- The reader of invitations (readIce and readInvite of src/direct/messages.ts).
use wildbloom.Prelude.{
  ℕ, Bool, true, false, not, ◌&&◌, if◌then◌else◌, List, [], ◌∷◌, Option, some, ltb, leb, length,
  map,
}
use wildbloom.Prelude.Text.{Text, codes, eq_text, every, some_of, includes, is_control, utf8_length}
use wildbloom.Direct.Config.{
  ice_servers, urls_per_server, url_bytes, credential_bytes, max_plaintext_bytes,
}
use wildbloom.Direct.Messages.Json.{Value, Items, Fields, nil, item, member}
use wildbloom.Direct.Messages.Syntax.{is_canonical_id, is_ice_url, is_relay_url}
use wildbloom.Direct.Messages.{
  IceServer, DirectMessage, invite, Decoded, read, refused_failed, refused_unsupported,
  DecodeContext,
}
use wildbloom.Direct.Messages.Check.{
  as_boolean, as_fields, as_items, as_number, as_text, check, count, has_exactly, ◌then_read◌,
}

-- The URLs of a server, each a string of the right form.
abbrev pub read_urls : Items → Decoded (List Text)
read_urls nil = read []
read_urls (item v xs) = as_text (some v) then_read λ url.
    check (is_ice_url url && leb (utf8_length url) url_bytes) then_read λ _.
    read_urls xs then_read λ urls. read (url ∷ urls)

-- A secret of an entry with a TURN URL, or the empty one of any other.
abbrev pub is_secret : Bool → Text → Bool
is_secret relay secret =
    if relay
    then ltb 0 (length secret)
      && leb (utf8_length secret) credential_bytes
      && not (some_of is_control secret)
    else eq_text secret []

abbrev pub is_few : ℕ → ℕ → Bool
is_few most n = leb 1 n && leb n most

-- The user name and the credential of a server with these URLs.
abbrev pub read_secrets : List Text → Fields → Decoded IceServer
read_secrets urls fs = as_text (member (codes "username") fs) then_read λ username.
    check (is_secret (some_of is_relay_url urls) username) then_read λ _.
    as_text (member (codes "credential") fs) then_read λ credential.
    check (is_secret (some_of is_relay_url urls) credential) then_read λ _.
    read (record { credential = credential; urls = urls; username = username })

abbrev pub read_server_urls : Items → Fields → Decoded IceServer
read_server_urls xs fs = check (is_few urls_per_server (count xs)) then_read λ _.
    read_urls xs then_read λ urls. read_secrets urls fs

abbrev pub read_members : Fields → Decoded IceServer
read_members fs =
    check (has_exactly (codes "credential" ∷ codes "urls" ∷ codes "username" ∷ []) fs)
    then_read λ _. as_items (member (codes "urls") fs) then_read λ xs. read_server_urls xs fs

-- An entry of `ice`.
abbrev pub read_server : Value → Decoded IceServer
read_server v = as_fields v then_read read_members

abbrev pub read_servers : Items → Decoded (List IceServer)
read_servers nil = read []
read_servers (item v xs) =
    read_server v then_read λ server. read_servers xs then_read λ servers. read (server ∷ servers)

abbrev pub is_listed : List Text → IceServer → Bool
is_listed allowlist server = every (λ url. includes url allowlist) server.urls

abbrev pub read_listed : List Text → Items → Decoded (List IceServer)
read_listed allowlist xs = check (is_few ice_servers (count xs)) then_read λ _.
    read_servers xs then_read λ servers.
    if every (is_listed allowlist) servers then read servers else refused_unsupported

-- `readIce`: syntax first, then the page's own policy.
abbrev pub read_ice : List Text → Option Value → Decoded (List IceServer)
read_ice allowlist value = as_items value then_read read_listed allowlist

-- Whether the direction is `to-drop`.
abbrev pub read_direction : Text → Decoded Bool
read_direction dir =
    if eq_text dir (codes "to-drop")
    then read true
    else if eq_text dir (codes "from-drop")
    then read false
    else refused_failed

-- The end of `readInvite`.
abbrev pub make_invite : Bool → Bool → Text → ℕ → List IceServer → Decoded DirectMessage
make_invite to_drop hide id max ice =
    if not to_drop
    then refused_unsupported
    else if ltb max_plaintext_bytes max
    then refused_unsupported
    else read (invite hide ice id max)

abbrev pub read_capped : DecodeContext → Bool → Bool → Fields → Text → ℕ → Decoded DirectMessage
read_capped context to_drop hide fs id max = check (leb 1 max) then_read λ _.
    read_ice context.ice_allowlist (member (codes "ice") fs)
    then_read make_invite to_drop hide id max

abbrev pub read_identified : DecodeContext → Bool → Bool → Fields → Text → Decoded DirectMessage
read_identified context to_drop hide fs id = check (is_canonical_id id) then_read λ _.
    as_number (member (codes "max") fs) then_read read_capped context to_drop hide fs id

abbrev pub read_offer : DecodeContext → Bool → Bool → Fields → Decoded DirectMessage
read_offer context to_drop hide fs =
    as_text (member (codes "id") fs) then_read read_identified context to_drop hide fs

abbrev pub read_hidden : DecodeContext → Fields → Bool → Decoded DirectMessage
read_hidden context fs to_drop =
    as_boolean (member (codes "hide") fs) then_read λ hide. read_offer context to_drop hide fs

abbrev pub read_directed : DecodeContext → Fields → Text → Decoded DirectMessage
read_directed context fs dir = read_direction dir then_read read_hidden context fs

-- `readInvite`.
abbrev pub read_invite : DecodeContext → Fields → Decoded DirectMessage
read_invite context fs =
    check (has_exactly (map codes ("dir" ∷ "event" ∷ "hide" ∷ "ice" ∷ "id" ∷ "max" ∷ "v" ∷ [])) fs)
    then_read λ _. as_text (member (codes "dir") fs) then_read read_directed context fs
