-- ===== src/Cache/Tests.antt =====
-- Keys of small queries.
use lakira_backend.Base.{◌≡◌, refl, Option, none, some, List, [], ◌∷◌}
use lakira_backend.Text.{Text, trim, trim_start}
use lakira_backend.Messaging.RetryPolicy.{print_count, digits}
use lakira_backend.Cache.Keys.{
  SegmentValue, normalize_segment_value, encode_segment_text, encode_uri_component, encode_unit,
  escape_point, escape_rest, build_cursor_cache_key, join_segments, cursor_cache_namespace,
  dash_spaces,
}
use lakira_backend.Cache.Tenants.{build_cursor_cache_key_isolates}
use lakira_backend.Cache.Isolation.{values}

-- A euro sign is three bytes, and a colon and an underscore are escaped.
euro :
    normalize_segment_value (SegmentValue.text (b' ' ∷ 0x20ac ∷ b':' ∷ b'_' ∷ []))
    ≡ some (
        b'%' ∷ b'E' ∷ b'2' ∷ b'%' ∷ b'8' ∷ b'2' ∷ b'%' ∷ b'A' ∷ b'C' ∷ b'%' ∷ b'3' ∷ b'A' ∷ b'%'
        ∷ b'5' ∷ b'F' ∷ [])
unfolding normalize_segment_value encode_segment_text encode_uri_component encode_unit escape_point
    escape_rest trim trim_start
euro = refl

-- A folder sign is a surrogate pair, and four bytes.
folder :
    normalize_segment_value (SegmentValue.text (0xd83d ∷ 0xdcc1 ∷ []))
    ≡ some (b'%' ∷ b'F' ∷ b'0' ∷ b'%' ∷ b'9' ∷ b'F' ∷ b'%' ∷ b'9' ∷ b'3' ∷ b'%' ∷ b'8' ∷ b'1' ∷ [])
unfolding normalize_segment_value encode_segment_text encode_uri_component encode_unit escape_point
    escape_rest trim trim_start
folder = refl

lone_surrogate : normalize_segment_value (SegmentValue.text (0xd83d ∷ b'a' ∷ [])) ≡ none
unfolding normalize_segment_value encode_segment_text encode_uri_component encode_unit trim
    trim_start
lone_surrogate = refl

abbrev seven : Option Text
seven = some (b'7' ∷ [])

abbrev first_organization : Text
first_organization = b'a' ∷ b'-' ∷ b'9' ∷ []

abbrev small_query : List (Text × SegmentValue)
small_query =
    (b'l' ∷ [], SegmentValue.number 20) ∷ (b'q' ∷ [], SegmentValue.text (b'x' ∷ b':' ∷ [])) ∷ []

-- The same search, written with spaces around it.
abbrev spaced_query : List (Text × SegmentValue)
spaced_query =
    (b'l' ∷ [], SegmentValue.number 20)
    ∷ (b'q' ∷ [], SegmentValue.text (b' ' ∷ b'x' ∷ b':' ∷ b' ' ∷ []))
    ∷ []

abbrev small_key : Text
small_key =
    b'c' ∷ b'u' ∷ b'r' ∷ b's' ∷ b'o' ∷ b'r' ∷ b':' ∷ b'm' ∷ b':' ∷ b'v' ∷ b'4' ∷ b':' ∷ b'7' ∷ b':'
    ∷ b'o' ∷ b'r' ∷ b'g' ∷ b':' ∷ b'a' ∷ b'-' ∷ b'9' ∷ b':' ∷ b'l' ∷ b':' ∷ b'2' ∷ b'0' ∷ b':'
    ∷ b'q' ∷ b':' ∷ b'x' ∷ b'%' ∷ b'3' ∷ b'A' ∷ []

small_key_built :
    (build_cursor_cache_key (b'm' ∷ []) (b'4' ∷ []) seven first_organization small_query
      ≡ some small_key)
    × (build_cursor_cache_key (b'm' ∷ []) (b'4' ∷ []) seven first_organization spaced_query
        ≡ some small_key)
unfolding build_cursor_cache_key join_segments cursor_cache_namespace dash_spaces
    normalize_segment_value encode_segment_text encode_uri_component encode_unit escape_point
    escape_rest trim trim_start print_count digits
small_key_built = (refl, refl)

build_cursor_cache_key_isolates_example :
    (seven ≡ seven)
    × (first_organization ≡ first_organization)
    × (values small_query ≡ values spaced_query)
build_cursor_cache_key_isolates_example =
    build_cursor_cache_key_isolates (b'm' ∷ []) (b'4' ∷ []) seven seven first_organization
      first_organization small_query spaced_query small_key (refl, refl) (refl, refl) (refl, refl)
      (refl, refl) refl small_key_built.0 small_key_built.1
