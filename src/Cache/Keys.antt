-- ===== src/Cache/Keys.antt =====
-- The keys of src/shared/cache/keys.ts, on texts of UTF-16 code units. A number is a natural one.
use lakira_backend.Base.{
  ℕ, ◌+◌, ◌-◌, ◌*◌, ◌/◌, ◌%◌, Bool, false, ◌&&◌, ◌||◌, Option, none, some, List, [], ◌∷◌, ◌++◌,
  ◌==◌, leb, ltb, if◌then◌else◌,
}
use lakira_backend.Text.{Text, trim, is_empty, is_space}
use lakira_backend.Messaging.RetryPolicy.{print_count}

-- What `encodeURIComponent` leaves alone: letters, digits and a few signs.
abbrev pub is_alphanumeric : ℕ → Bool
is_alphanumeric c =
    (leb b'0' c && leb c b'9') || (leb b'a' c && leb c b'z') || (leb b'A' c && leb c b'Z')

abbrev pub is_unescaped : ℕ → Bool
is_unescaped c =
    is_alphanumeric c
    || c == b'-'
    || c == b'_'
    || c == b'.'
    || c == b'!'
    || c == b'~'
    || c == b'*'
    || c == 39
    || c == b'('
    || c == b')'

abbrev pub is_high_surrogate : ℕ → Bool
is_high_surrogate c = leb 0xd800 c && leb c 0xdbff

abbrev pub is_low_surrogate : ℕ → Bool
is_low_surrogate c = leb 0xdc00 c && leb c 0xdfff

abbrev pub hex_digit : ℕ → ℕ
hex_digit n = if ltb n 10 then b'0' + n else b'A' + (n - 10)

abbrev pub percent : ℕ → Text
percent byte = b'%' ∷ hex_digit (byte / 16) ∷ hex_digit (byte % 16) ∷ []

-- The UTF-8 bytes of a code point, each escaped.
unfoldable pub escape_point : ℕ → Text
escape_point p =
    if ltb p 0x80
    then percent p
    else if ltb p 0x800
    then percent (0xc0 + p / 64) ++ percent (0x80 + p % 64)
    else if ltb p 0x10000
    then percent (0xe0 + p / 4096) ++ percent (0x80 + p / 64 % 64) ++ percent (0x80 + p % 64)
    else percent (0xf0 + p / 262144)
      ++ percent (0x80 + p / 4096 % 64)
      ++ percent (0x80 + p / 64 % 64)
      ++ percent (0x80 + p % 64)

-- What a code unit adds, after a high surrogate or none; nothing where it throws.
unfoldable pub encode_unit : Option ℕ → ℕ → Option Text
encode_unit none c =
    if is_unescaped c
    then some (c ∷ [])
    else if is_high_surrogate c
    then some []
    else if is_low_surrogate c
    then none
    else some (escape_point c)
encode_unit (some high) c =
    if is_low_surrogate c
    then some (escape_point (0x10000 + (high - 0xd800) * 1024 + (c - 0xdc00)))
    else none

abbrev pub pending : Option ℕ → ℕ → Option ℕ
pending none c = if is_high_surrogate c then some c else none
pending (some _) c = none

abbrev pub append_encoded : Option Text → Option Text → Option Text
append_encoded (some s) (some t) = some (s ++ t)
append_encoded _ _ = none

-- `encodeURIComponent`, after a high surrogate or none; it throws a URIError on a lone surrogate.
unfoldable pub encode_uri_component : Option ℕ → Text → Option Text
encode_uri_component none [] = some []
encode_uri_component (some _) [] = none
encode_uri_component high (c ∷ s) =
    append_encoded (encode_unit high c) (encode_uri_component (pending high c) s)

-- The two signs that are escaped by hand.
unfoldable pub escape_rest : Text → Text
escape_rest [] = []
escape_rest (c ∷ s) = (if c == b'_' || c == b'*' then percent c else c ∷ []) ++ escape_rest s

unfoldable pub encode_segment_text : Text → Option Text
encode_segment_text text = elim (encode_uri_component none text) [
  | none ↦ none
  | some encoded ↦ some (escape_rest encoded)
]

pub data SegmentValue : Type 0 where
  missing : SegmentValue
  flag : Bool → SegmentValue
  number : ℕ → SegmentValue
  text : Text → SegmentValue

abbrev pub sentinel : Text
sentinel = b'_' ∷ []

unfoldable pub normalize_segment_value : SegmentValue → Option Text
normalize_segment_value SegmentValue.missing = some sentinel
normalize_segment_value (SegmentValue.flag b) = some (if b then b'1' ∷ [] else b'0' ∷ [])
normalize_segment_value (SegmentValue.number n) = some (print_count n)
normalize_segment_value (SegmentValue.text raw) =
    let trimmed = trim raw in
    if is_empty trimmed then some sentinel else encode_segment_text trimmed

-- `replace(/\s+/g, "-")`, after a white space or not.
unfoldable pub dash_spaces : Bool → Text → Text
dash_spaces after [] = []
dash_spaces after (c ∷ s) =
    (if is_space c then (if after then [] else b'-' ∷ []) else c ∷ []) ++ dash_spaces (is_space c) s

-- `replace(/^v/i, "")`
abbrev pub without_v : Text → Text
without_v [] = []
without_v (c ∷ s) = if c == b'v' || c == b'V' then s else c ∷ s

abbrev pub cursor_word : Text
cursor_word = b'c' ∷ b'u' ∷ b'r' ∷ b's' ∷ b'o' ∷ b'r' ∷ b':' ∷ []

-- A version is a text; a missing one is empty.
unfoldable pub cursor_cache_namespace : Text → Text → Text
cursor_cache_namespace feature version =
    cursor_word
    ++ dash_spaces false (trim feature)
    ++ (if is_empty version then [] else b':' ∷ b'v' ∷ without_v version)

abbrev pub user_value : Option Text → SegmentValue
user_value none = SegmentValue.missing
user_value (some id) = SegmentValue.text id

abbrev pub organization_word : Text
organization_word = b'o' ∷ b'r' ∷ b'g' ∷ b':' ∷ []

-- The parts `label:value`, each after a colon, as `join` puts it.
unfoldable pub join_segments : List (Text × SegmentValue) → Option Text
join_segments [] = some []
join_segments ((label, value) ∷ segments) =
    append_encoded
      (append_encoded (some (b':' ∷ label ++ b':' ∷ [])) (normalize_segment_value value))
      (join_segments segments)

unfoldable pub build_cursor_cache_key :
    (feature version : Text) (user_id : Option Text) (organization_id : Text)
    → List (Text × SegmentValue)
    → Option Text
build_cursor_cache_key feature version user_id organization_id segments =
    append_encoded (some (cursor_cache_namespace feature version ++ b':' ∷ [])) (
      append_encoded (normalize_segment_value (user_value user_id)) (
        append_encoded (some (b':' ∷ organization_word)) (
          append_encoded (normalize_segment_value (SegmentValue.text organization_id))
            (join_segments segments))))
