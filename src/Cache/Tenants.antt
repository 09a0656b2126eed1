-- ===== src/Cache/Tenants.antt =====
-- Plain ids keep the callers of a list apart.
use lakira_backend.Base.{◌≡◌, refl, sym, ap, ◌∙◌, Option, none, some, [], ◌∷◌, all, arith}
use lakira_backend.Text.{Text}
use lakira_backend.Cache.Keys.{
  SegmentValue, normalize_segment_value, build_cursor_cache_key, user_value,
}
use lakira_backend.Cache.Isolation.{Segments, labels, values, build_cursor_cache_key_same}
use lakira_backend.Cache.PlainIds.{IsPlain, is_plain, normalize_segment_value-plain}

abbrev pub IsPlainUser : Option Text → Type 0
IsPlainUser none = Unit
IsPlainUser (some id) = IsPlain id

normalize_segment_value-missing : normalize_segment_value SegmentValue.missing ≡ some (b'_' ∷ [])
unfolding normalize_segment_value
normalize_segment_value-missing = refl

sentinel_apart : (s : Text) → IsPlain s → s ≡ b'_' ∷ [] → ⊥
sentinel_apart s (h, p) e = ground (arith, ap (all is_plain) e)

user_value_same :
    (a b : Option Text)
    → IsPlainUser a
    → IsPlainUser b
    → normalize_segment_value (user_value a) ≡ normalize_segment_value (user_value b)
    → a ≡ b
user_value_same none none h h' e = refl
user_value_same none (some t) h h' e = absurd (
    sentinel_apart t h'
      (cc (e, normalize_segment_value-missing, normalize_segment_value-plain t h')))
user_value_same (some s) none h h' e = absurd (
    sentinel_apart s h (cc (e, normalize_segment_value-missing, normalize_segment_value-plain s h)))
user_value_same (some s) (some t) h h' e =
    sym (normalize_segment_value-plain s h) ∙ e ∙ normalize_segment_value-plain t h'

-- Where ids hold letters, digits and dashes only, two callers and two queries with the same labels
-- are given one key of a list only if the users, the organizations and the values, as the key
-- writes them, are the same.
pub build_cursor_cache_key_isolates :
    (feature version : Text) (user_id user_id' : Option Text)
    (organization_id organization_id' : Text) (ss ss' : Segments) (key : Text)
    → IsPlainUser user_id
    → IsPlainUser user_id'
    → IsPlain organization_id
    → IsPlain organization_id'
    → labels ss ≡ labels ss'
    → build_cursor_cache_key feature version user_id organization_id ss ≡ some key
    → build_cursor_cache_key feature version user_id' organization_id' ss' ≡ some key
    → (user_id ≡ user_id') × (organization_id ≡ organization_id') × (values ss ≡ values ss')
build_cursor_cache_key_isolates feature version u u' o o' ss ss' key hu hu' ho ho' l e e' =
    let (users, organizations, same) =
      build_cursor_cache_key_same feature version u u' o o' ss ss' key l e e' in
    let organization_same : some o ≡ some o' =
      sym (normalize_segment_value-plain o ho)
      ∙ organizations
      ∙ normalize_segment_value-plain o' ho' in
    (user_value_same u u' hu hu' users, cc, same)
