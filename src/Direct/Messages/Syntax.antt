-- ===== src/Direct/Messages/Syntax.antt =====
-- The forms that a message's texts must have (src/direct/messages.ts).
use wildbloom.Prelude.{
  ℕ, ◌-◌, Bool, true, false, not, ◌&&◌, ◌||◌, if◌then◌else◌, List, [], ◌∷◌, ◌++◌, Option, none,
  some, ltb, leb, ◌==◌, length, take,
}
use wildbloom.Prelude.Text.{
  Text, codes, starts_with, strip, every, some_of, last_unit, is_space, is_control, utf8_length,
  eq_text,
}
use wildbloom.Direct.Config.{sdp_bytes}

abbrev crlf : Text
crlf = 13 ∷ 10 ∷ []

-- `endsWith("\r\n")`.
abbrev ends_in_crlf : Text → Bool
ends_in_crlf [] = false
ends_in_crlf (c ∷ []) = false
ends_in_crlf (c ∷ d ∷ s) = ends_in_crlf (d ∷ s) || ((c == 13) && (d == 10) && eq_text s [])

abbrev is_sdp_unit : ℕ → Bool
is_sdp_unit c = (c == 13) || (c == 10) || (leb 32 c && leb c 126)

-- `/(?:^|[^\r])\n|\r(?!\n)/u`: the Boolean says whether the unit before is a carriage return.
abbrev has_bare_break : Bool → Text → Bool
has_bare_break after_cr [] = after_cr
has_bare_break after_cr (c ∷ s) =
    (if c == 10 then not after_cr else after_cr) || has_bare_break (c == 13) s

-- A unit goes in front of the first line.
abbrev onto_first : ℕ → List Text → List Text
onto_first c [] = (c ∷ []) ∷ []
onto_first c (line ∷ lines) = (c ∷ line) ∷ lines

-- `split("\r\n")` of a text where every break is a CRLF: a carriage return is left out, and a line feed ends a line.
abbrev split_lines : Text → List Text
split_lines [] = [] ∷ []
split_lines (c ∷ s) =
    let rest = split_lines s in
    if c == 13 then rest else if c == 10 then [] ∷ rest else onto_first c rest

abbrev is_digit : ℕ → Bool
is_digit c = leb 48 c && leb c 57

-- `[0-9]+` and then the rest of the pattern; the Boolean says whether there was a digit yet.
abbrev digits_then : Text → Bool → Text → Bool
digits_then rest seen [] = false
digits_then rest seen (c ∷ s) =
    if is_digit c then digits_then rest true s else seen && eq_text rest (c ∷ s)

abbrev after_prefix : (Text → Bool) → Option Text → Bool
after_prefix p none = false
after_prefix p (some s) = p s

-- `/^m=application [0-9]+ UDP\/DTLS\/SCTP webrtc-datachannel$/u`.
abbrev is_data_media : Text → Bool
is_data_media line =
    after_prefix (digits_then (codes " UDP/DTLS/SCTP webrtc-datachannel") false)
      (strip (codes "m=application ") line)

abbrev media_of : List Text → List Text
media_of [] = []
media_of (line ∷ lines) =
    let rest = media_of lines in if starts_with (codes "m=") line then line ∷ rest else rest

abbrev is_one_media : List Text → Bool
is_one_media (line ∷ []) = is_data_media line
is_one_media _ = false

-- `checkSdp`: whether it finds no problem. What problem it finds is for logs only.
unfoldable pub check_sdp : Text → Bool
check_sdp sdp =
    if eq_text sdp [] || ltb sdp_bytes (utf8_length sdp)
    then false
    else if not (every is_sdp_unit sdp)
    then false
    else if not (starts_with (codes "v=0" ++ crlf) sdp) || not (ends_in_crlf sdp)
    then false
    else if has_bare_break false sdp
    then false
    else (let lines = split_lines (take (length sdp - 2) sdp) in
        is_one_media (media_of lines)
        && some_of (starts_with (codes "a=fingerprint:sha-256 ")) lines)

abbrev is_base64url : ℕ → Bool
is_base64url c =
    (leb b'A' c && leb c b'Z')
    || (leb b'a' c && leb c b'z')
    || is_digit c
    || (c == b'_')
    || (c == b'-')

abbrev ends_in : Text → Option ℕ → Bool
ends_in set none = false
ends_in set (some c) = some_of (λ d. c == d) set

-- `isCanonicalId`: 16 bytes of base64url without padding bits.
unfoldable pub is_canonical_id : Text → Bool
is_canonical_id value =
    (length value == 22) && every is_base64url value && ends_in (codes "AQgw") (last_unit value)

-- `isCanonicalKey`: the prefix and 32 bytes.
unfoldable pub is_canonical_key : Text → Bool
is_canonical_key value =
    after_prefix (λ s. (length s == 43) && every is_base64url s) (strip (codes "wbk1_") value)
    && ends_in (codes "AEIMQUYcgkosw048") (last_unit value)

-- `/^(?:stun|turn|turns):[^\s]+$/u`.
abbrev is_tail : Text → Bool
is_tail s = not (eq_text s []) && every (λ c. not (is_space c)) s

unfoldable pub is_ice_url : Text → Bool
is_ice_url url =
    after_prefix is_tail (strip (codes "stun:") url)
    || after_prefix is_tail (strip (codes "turn:") url)
    || after_prefix is_tail (strip (codes "turns:") url)

-- `isRelayUrl`.
unfoldable pub is_relay_url : Text → Bool
is_relay_url url = starts_with (codes "turn:") url || starts_with (codes "turns:") url

-- `DISGUISING_CHARACTERS`; the tag characters U+E0000 to U+E007F are pairs of surrogates.
abbrev is_disguising_unit : ℕ → Bool
is_disguising_unit c =
    (c == 1564)
    || (c == 6158)
    || (leb 8203 c && leb c 8207)
    || (leb 8234 c && leb c 8238)
    || (leb 8288 c && leb c 8292)
    || (leb 8294 c && leb c 8303)
    || (c == 65279)

abbrev disguised_after : Bool → Text → Bool
disguised_after tag [] = false
disguised_after tag (c ∷ s) =
    is_disguising_unit c || (tag && leb 56320 c && leb c 56447) || disguised_after (c == 56128) s

unfoldable pub is_disguised : Text → Bool
is_disguised name = disguised_after false name

-- `type.toLowerCase() !== type`, for what `to_lower_case` is.
unfoldable pub is_media_type : (Text → Text) → Text → Bool
is_media_type to_lower_case t =
    ltb 0 (length t)
    && leb (length t) 255
    && not (some_of is_control t)
    && eq_text (to_lower_case t) t
