-- ===== src/Cache/PlainIds.antt =====
-- Ids of letters, digits and dashes, as a UUID is written, stand for themselves in a key.
use lakira_backend.Base.{
  ℕ, ◌≡◌, refl, Bool, true, false, ◌||◌, none, some, [], ◌∷◌, ◌==◌, all, arith,
}
use lakira_backend.Text.{Text, trim, trim_start, is_empty}
use lakira_backend.Cache.Keys.{
  is_alphanumeric, encode_unit, encode_uri_component, escape_rest, encode_segment_text,
  SegmentValue, normalize_segment_value,
}
use mathlib.Core.List.{reverse, reverse_aux, reverse-reverse}

abbrev pub is_plain : ℕ → Bool
is_plain c = is_alphanumeric c || c == b'-'

abbrev pub IsPlain : Text → Type 0
IsPlain s = (is_empty s ≡ false) × (all is_plain s ≡ true)

encode_uri_component-plain :
    (s : Text) → all is_plain s ≡ true → encode_uri_component none s ≡ some s
unfolding encode_uri_component encode_unit
encode_uri_component-plain [] h = refl
encode_uri_component-plain (c ∷ s) h = ground (arith, encode_uri_component-plain s)

escape_rest-plain : (s : Text) → all is_plain s ≡ true → escape_rest s ≡ s
unfolding escape_rest
escape_rest-plain [] h = refl
escape_rest-plain (c ∷ s) h = ground (arith, escape_rest-plain s)

trim_start-plain : (s : Text) → all is_plain s ≡ true → trim_start s ≡ s
unfolding trim_start
trim_start-plain [] h = refl
trim_start-plain (c ∷ s) h = ground arith

all-reverse_aux :
    (s t : Text)
    → all is_plain s ≡ true
    → all is_plain t ≡ true
    → all is_plain (reverse_aux s t) ≡ true
all-reverse_aux [] t h h' = h'
all-reverse_aux (c ∷ s) t h h' = ground (arith, all-reverse_aux s (c ∷ t))

trim-plain : (s : Text) → all is_plain s ≡ true → trim s ≡ s
unfolding trim
trim-plain s h =
    rw (trim_start-plain s h)
      (rw (trim_start-plain (reverse s) (all-reverse_aux s [] h refl)) (reverse-reverse s))

pub normalize_segment_value-plain :
    (s : Text) → IsPlain s → normalize_segment_value (SegmentValue.text s) ≡ some s
unfolding normalize_segment_value encode_segment_text
normalize_segment_value-plain s (h, p) =
    ground (arith, trim-plain s p, encode_uri_component-plain s p, escape_rest-plain s p)
