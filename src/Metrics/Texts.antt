-- ===== src/Metrics/Texts.antt =====
-- src/shared/utils/text-validation.ts and src/shared/constants/metric-constraints.ts, on texts as
-- UTF-16 code units.
use lakira_backend.Base.{
  ℕ, suc, Bool, false, not, ◌&&◌, ◌||◌, [], ◌∷◌, ◌==◌, leb, ltb, if◌then◌else◌,
}
use lakira_backend.Text.{Text}

abbrev pub is_high : ℕ → Bool
is_high c = leb 0xd800 c && leb c 0xdbff

abbrev pub is_low : ℕ → Bool
is_low c = leb 0xdc00 c && leb c 0xdfff

-- `Array.from(value).length`: a high surrogate and the low one after it are one character.
unfoldable pub get_unicode_length : Text → ℕ
get_unicode_length [] = 0
get_unicode_length (c ∷ []) = 1
get_unicode_length (c ∷ d ∷ s) =
    let pair = get_unicode_length s in
    let one = get_unicode_length (d ∷ s) in if is_high c && is_low d then suc pair else suc one

abbrev pub is_control : Bool → ℕ → Bool
is_control allow_newlines c =
    (c == 0x7f || ltb c 0x20) && not (allow_newlines && (c == 0x09 || c == 0x0a || c == 0x0d))

unfoldable pub has_invalid_control_chars : Bool → Text → Bool
has_invalid_control_chars allow_newlines [] = false
has_invalid_control_chars allow_newlines (c ∷ s) =
    is_control allow_newlines c || has_invalid_control_chars allow_newlines s

-- The regular expression has the flag `u`: it steps over a pair as one character.
unfoldable pub has_unpaired_surrogates : Text → Bool
has_unpaired_surrogates [] = false
has_unpaired_surrogates (c ∷ []) = is_high c || is_low c
has_unpaired_surrogates (c ∷ d ∷ s) =
    let pair = has_unpaired_surrogates s in
    let one = has_unpaired_surrogates (d ∷ s) in
    if is_high c && is_low d then pair else (is_high c || is_low c) || one

pub record Rule : Type 0 where
  pub low : ℕ
  pub high : ℕ

abbrev pub metric_name_rule : Rule
metric_name_rule = record { low = 1; high = 128 }

abbrev pub metric_unit_rule : Rule
metric_unit_rule = record { low = 1; high = 32 }

abbrev pub metric_description_max : ℕ
metric_description_max = 512

abbrev pub metric_log_value_rule : Rule
metric_log_value_rule = record { low = 0; high = 1_000_000 }

abbrev pub has_invalid_metric_chars : Bool → Text → Bool
has_invalid_metric_chars allow_newlines s =
    has_invalid_control_chars allow_newlines s || has_unpaired_surrogates s
