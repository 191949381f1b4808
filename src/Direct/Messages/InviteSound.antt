-- ===== src/Direct/Messages/InviteSound.antt =====
-- What the reader of invitations lets through (readInvite of src/direct/messages.ts).
use wildbloom.Prelude.{
  ℕ, ◌≡◌, refl, sym, ap, subst, ◌∙◌, if◌then◌else◌, Bool, true, false, ◌&&◌, List, [], ◌∷◌, leb,
  length, map, arith,
}
use wildbloom.Prelude.Text.{Text, codes, every, some_of, utf8_length}
use wildbloom.Direct.Config.{ice_servers, urls_per_server, url_bytes, max_plaintext_bytes}
use wildbloom.Direct.Messages.Json.{Value, Items, Fields, nil, item, member}
use wildbloom.Direct.Messages.Syntax.{is_canonical_id, is_ice_url, is_relay_url}
use wildbloom.Direct.Messages.{
  IceServer, DirectMessage, invite, Decoded, read, refused_failed, refused_unsupported,
  DecodeContext, Platform, invite_name,
}
use wildbloom.Direct.Messages.Check.{
  as_boolean, as_fields, as_items, as_number, as_text, check, count, has_exactly, ◌then_read◌,
}
use wildbloom.Direct.Messages.Invite.{
  is_few, is_listed, is_secret, make_invite, read_capped, read_directed, read_direction,
  read_hidden, read_ice, read_identified, read_invite, read_listed, read_members, read_offer,
  read_secrets, read_server, read_server_urls, read_servers, read_urls,
}
use wildbloom.Direct.Messages.Encode.{named}
use wildbloom.Direct.Messages.RoundTrip.{name_of, is_server, is_well_formed}

pub bound :
    {A B : Type 0} (d : Decoded A) (f : A → Decoded B) {b : B}
    → (d then_read f) ≡ read b
    → (a : A) × (d ≡ read a) × (f a ≡ read b)
bound refused_failed f h = cc h
bound refused_unsupported f h = cc h
bound (read a) f h = (a, refl, h)

pub checked : {b : Bool} → check b ≡ read tt → b ≡ true
checked {b = true} h = refl
checked {b = false} h = cc h

pub kept :
    {A : Type 0} (p : A → Bool) (a b : A)
    → (if p a then read a else refused_unsupported) ≡ read b
    → (a ≡ b) × (p a ≡ true)
kept p a b h = grind arith

abbrev is_url : Text → Bool
is_url url = is_ice_url url && leb (utf8_length url) url_bytes

read_urls_sound :
    (xs : Items) (urls : List Text)
    → read_urls xs ≡ read urls
    → (every (λ url. is_ice_url url && leb (utf8_length url) url_bytes) urls ≡ true)
      × (length urls ≡ count xs)
read_urls_sound nil [] h = (refl, refl)
read_urls_sound nil (url ∷ urls) h = absurd (cc h)
read_urls_sound (item v xs) [] h = grind arith
read_urls_sound (item v xs) (url ∷ urls) h = grind (arith, read_urls_sound xs urls)

is_server-all :
    (s : IceServer)
    → is_few urls_per_server (length s.urls) ≡ true
    → every is_url s.urls ≡ true
    → is_secret (some_of is_relay_url s.urls) s.username ≡ true
    → is_secret (some_of is_relay_url s.urls) s.credential ≡ true
    → is_server s ≡ true
is_server-all s a b c d = simp (a, b, c, d)

read_secrets_sound :
    (urls : List Text) (fs : Fields) (s : IceServer)
    → read_secrets urls fs ≡ read s
    → (s.urls ≡ urls)
      × (is_secret (some_of is_relay_url s.urls) s.username ≡ true)
      × (is_secret (some_of is_relay_url s.urls) s.credential ≡ true)
read_secrets_sound urls fs s h = grind arith

read_server_urls_sound :
    (xs : Items) (fs : Fields) (s : IceServer)
    → read_server_urls xs fs ≡ read s
    → is_server s ≡ true
read_server_urls_sound xs fs s h =
    let (_, c, h1) =
      bound (check (is_few urls_per_server (count xs)))
        (λ _. read_urls xs then_read λ urls. read_secrets urls fs) h in
    let (urls, r, h2) = bound (read_urls xs) (λ urls. read_secrets urls fs) h1 in
    let (same, name, secret) = read_secrets_sound urls fs s h2 in
    let (well, long) = read_urls_sound xs urls r in
    let few =
      subst (λ n. is_few urls_per_server n ≡ true) (sym (ap (length {0}) same ∙ long))
        (checked c) in
    is_server-all s few (subst (λ us. every is_url us ≡ true) (sym same) well) name secret

read_server_sound : (v : Value) (s : IceServer) → read_server v ≡ read s → is_server s ≡ true
read_server_sound v s h =
    let (fs, _, h1) = bound (as_fields v) read_members h in
    let (_, _, h2) =
      bound (check (has_exactly (codes "credential" ∷ codes "urls" ∷ codes "username" ∷ []) fs))
        (λ _. as_items (member (codes "urls") fs) then_read λ xs. read_server_urls xs fs) h1 in
    let (xs, _, h3) =
      bound (as_items (member (codes "urls") fs)) (λ xs. read_server_urls xs fs) h2 in
    read_server_urls_sound xs fs s h3

read_servers_sound :
    (xs : Items) (servers : List IceServer)
    → read_servers xs ≡ read servers
    → (every is_server servers ≡ true) × (length servers ≡ count xs)
read_servers_sound nil [] h = (refl, refl)
read_servers_sound nil (s ∷ servers) h = absurd (cc h)
read_servers_sound (item v xs) [] h = grind arith
read_servers_sound (item v xs) (s ∷ servers) h =
    grind (arith, read_servers_sound xs servers, read_server_sound v s)

read_listed_sound :
    (allowlist : List Text) (xs : Items) (servers : List IceServer)
    → read_listed allowlist xs ≡ read servers
    → (is_few ice_servers (length servers) ≡ true)
      × (every is_server servers ≡ true)
      × (every (is_listed allowlist) servers ≡ true)
read_listed_sound allowlist xs servers h =
    let (_, c, h1) =
      bound (check (is_few ice_servers (count xs)))
        (λ _. read_servers xs then_read λ ss.
          if every (is_listed allowlist) ss then read ss else refused_unsupported)
        h in
    let (ss, r, h2) =
      bound (read_servers xs)
        (λ ss. if every (is_listed allowlist) ss then read ss else refused_unsupported) h1 in
    let (same, listed) = kept (every (is_listed allowlist)) ss servers h2 in
    let (well, long) = read_servers_sound xs ss r in
    (
      subst (λ n. is_few ice_servers n ≡ true) (sym (ap (length {0}) (sym same) ∙ long))
          (checked c),
      subst (λ us. every is_server us ≡ true) same well,
      subst (λ us. every (is_listed allowlist) us ≡ true) same listed,
    )

make_invite_sound :
    (platform : Platform) (context : DecodeContext) (to_drop hide : Bool) (id : Text) (max : ℕ)
    (ice : List IceServer) (m : DirectMessage)
    → make_invite to_drop hide id max ice ≡ read m
    → (leb max max_plaintext_bytes ≡ true) × (m ≡ invite hide ice id max)
make_invite_sound platform context to_drop hide id max ice m h = grind arith

read_offer_sound :
    (platform : Platform) (context : DecodeContext) (to_drop hide : Bool) (fs : Fields)
    (m : DirectMessage)
    → read_offer context to_drop hide fs ≡ read m
    → (name_of m ≡ invite_name) × (is_well_formed platform context m ≡ true)
read_offer_sound platform context to_drop hide fs m h =
    let (id, _, h1) =
      bound (as_text (member (codes "id") fs)) (read_identified context to_drop hide fs) h in
    let (_, named, h2) =
      bound (check (is_canonical_id id))
        (λ _. as_number (member (codes "max") fs) then_read read_capped context to_drop hide fs id)
        h1 in
    let (max, _, h3) =
      bound (as_number (member (codes "max") fs)) (read_capped context to_drop hide fs id) h2 in
    let (_, least, h4) =
      bound (check (leb 1 max))
        (λ _.
          read_ice context.ice_allowlist (member (codes "ice") fs)
          then_read make_invite to_drop hide id max)
        h3 in
    let (ice, r, h5) =
      bound (read_ice context.ice_allowlist (member (codes "ice") fs))
        (make_invite to_drop hide id max) h4 in
    let (xs, _, l) =
      bound (as_items (member (codes "ice") fs)) (read_listed context.ice_allowlist) r in
    let (few, servers, listed) = read_listed_sound context.ice_allowlist xs ice l in
    let (capped, made) = make_invite_sound platform context to_drop hide id max ice m h5 in
    subst (λ x. (name_of x ≡ invite_name) × (is_well_formed platform context x ≡ true)) (sym made)
      (refl, simp (checked named, checked least, capped, few, servers, listed))

pub read_invite_sound :
    (platform : Platform) (context : DecodeContext) (fs : Fields) (m : DirectMessage)
    → read_invite context fs ≡ read m
    → (name_of m ≡ invite_name) × (is_well_formed platform context m ≡ true)
read_invite_sound platform context fs m h =
    let (_, _, h1) =
      bound
        (check
          (has_exactly (map codes ("dir" ∷ "event" ∷ "hide" ∷ "ice" ∷ "id" ∷ "max" ∷ "v" ∷ [])) fs))
        (λ _. as_text (member (codes "dir") fs) then_read read_directed context fs) h in
    let (dir, _, h2) = bound (as_text (member (codes "dir") fs)) (read_directed context fs) h1 in
    let (to_drop, _, h3) = bound (read_direction dir) (read_hidden context fs) h2 in
    let (hide, _, h4) =
      bound (as_boolean (member (codes "hide") fs)) (λ hide. read_offer context to_drop hide fs)
        h3 in
    read_offer_sound platform context to_drop hide fs m h4
