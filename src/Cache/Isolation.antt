-- ===== src/Cache/Isolation.antt =====
-- Keys of one list, of two callers and two queries.
use lakira_backend.Base.{◌≡◌, refl, sym, ap, subst, ◌∙◌, Option, some, List, [], ◌∷◌, ◌++◌, map}
use lakira_backend.Text.{Text}
use lakira_backend.Cache.Keys.{
  append_encoded, SegmentValue, normalize_segment_value, join_segments, build_cursor_cache_key,
  cursor_cache_namespace, organization_word, user_value,
}
use lakira_backend.Cache.Parts.{IsBreak, split_at_break, append_cancel}
use lakira_backend.Cache.KeyLaws.{append_encoded-cases, normalize_segment_value-HasNoColon}
use mathlib.Core.List.{append_assoc}

abbrev pub Segments : Type 0
Segments = List (Text × SegmentValue)

abbrev pub labels : Segments → List Text
labels = map (λ (l, v). l)

abbrev pub values : Segments → List (Option Text)
values = map (λ (l, v). normalize_segment_value v)

abbrev opening : Text → Text
opening label = b':' ∷ label ++ b':' ∷ []

join_segments-cons :
    (label : Text) (v : SegmentValue) (ss : Segments) (t : Text)
    → join_segments ((label, v) ∷ ss) ≡ some t
    → (s : Text) × (b : Text) × (normalize_segment_value v ≡ some s)
      × (join_segments ss ≡ some b)
      × (t ≡ opening label ++ (s ++ b))
unfolding join_segments
join_segments-cons label v ss t e =
    let (a, b, p, q, r) =
      append_encoded-cases (append_encoded (some (opening label)) (normalize_segment_value v))
        (join_segments ss) t e in
    let (x, s, p', q', r') =
      append_encoded-cases (some (opening label)) (normalize_segment_value v) a p in
    (s, b, q', q, cc (r, r', p', append_assoc (opening label) s b))

join_segments-IsBreak : (ss : Segments) (t : Text) → join_segments ss ≡ some t → IsBreak t
unfolding join_segments
join_segments-IsBreak [] t e = subst IsBreak {x = []} {y = t} (cc) tt
join_segments-IsBreak ((label, v) ∷ ss) t e =
    let (s, b, _, _, r) = join_segments-cons label v ss t e in subst IsBreak (sym r) refl

join_segments_same :
    (ss ss' : Segments) (t : Text)
    → labels ss ≡ labels ss'
    → join_segments ss ≡ some t
    → join_segments ss' ≡ some t
    → values ss ≡ values ss'
join_segments_same [] [] t l e e' = refl
join_segments_same [] ((_, _) ∷ _) t l e e' = cc
join_segments_same ((_, _) ∷ _) [] t l e e' = cc
join_segments_same ((label, v) ∷ ss) ((label', v') ∷ ss') t l e e' =
    let (s, b, n, j, r) = join_segments-cons label v ss t e in
    let (s', b', n', j', r') = join_segments-cons label' v' ss' t e' in
    let label_same : label ≡ label' = cc in
    let (same, rest) =
      split_at_break s s' b b' (normalize_segment_value-HasNoColon v s n)
        (normalize_segment_value-HasNoColon v' s' n') (join_segments-IsBreak ss b j)
        (join_segments-IsBreak ss' b' j')
        (append_cancel (opening label) (s ++ b) (s' ++ b')
          (sym r ∙ r' ∙ ap (λ x. opening x ++ (s' ++ b')) (sym label_same))) in
    let values_rest : values ss ≡ values ss' =
      join_segments_same ss ss' b (cc) j (j' ∙ ap some (sym rest)) in
    let value_same : normalize_segment_value v ≡ normalize_segment_value v' =
      n ∙ ap some same ∙ sym n' in
    cc

abbrev prefix : Text → Text → Text
prefix feature version = cursor_cache_namespace feature version ++ b':' ∷ []

build_cursor_cache_key-parts :
    (feature version : Text) (user_id : Option Text) (organization_id : Text) (ss : Segments)
    (key : Text)
    → build_cursor_cache_key feature version user_id organization_id ss ≡ some key
    → (u : Text) × (o : Text) × (b : Text) × (normalize_segment_value (user_value user_id) ≡ some u)
      × (normalize_segment_value (SegmentValue.text organization_id) ≡ some o)
      × (join_segments ss ≡ some b)
      × (key ≡ prefix feature version ++ (u ++ ((b':' ∷ organization_word) ++ (o ++ b))))
unfolding build_cursor_cache_key
build_cursor_cache_key-parts feature version user_id organization_id ss key e =
    let user = normalize_segment_value (user_value user_id) in
    let org = normalize_segment_value (SegmentValue.text organization_id) in
    let word = some (b':' ∷ organization_word) in
    let last = append_encoded org (join_segments ss) in
    let (x, y, p, q, r) =
      append_encoded-cases (some (prefix feature version))
        (append_encoded user (append_encoded word last)) key e in
    let (u, z, p', q', r') = append_encoded-cases user (append_encoded word last) y q in
    let (w, a, p'', q'', r'') = append_encoded-cases word last z q' in
    let (o, b, p3, q3, r3) = append_encoded-cases org (join_segments ss) a q'' in
    (u, o, b, p', p3, q3, cc)

-- Two keys of one list that are the same name one user and one organization and, with the same
-- labels, the same values, as far as the keys tell them apart.
pub build_cursor_cache_key_same :
    (feature version : Text) (user_id user_id' : Option Text)
    (organization_id organization_id' : Text) (ss ss' : Segments) (key : Text)
    → labels ss ≡ labels ss'
    → build_cursor_cache_key feature version user_id organization_id ss ≡ some key
    → build_cursor_cache_key feature version user_id' organization_id' ss' ≡ some key
    → (normalize_segment_value (user_value user_id) ≡ normalize_segment_value (user_value user_id'))
      × (normalize_segment_value (SegmentValue.text organization_id)
          ≡ normalize_segment_value (SegmentValue.text organization_id'))
      × (values ss ≡ values ss')
build_cursor_cache_key_same feature version user_id user_id' organization_id organization_id' ss ss'
      key l e e' =
    let (u, o, b, p, q, j, r) =
      build_cursor_cache_key-parts feature version user_id organization_id ss key e in
    let (u', o', b', p', q', j', r') =
      build_cursor_cache_key-parts feature version user_id' organization_id' ss' key e' in
    let word : Text = b':' ∷ organization_word in
    let (users, rest) =
      split_at_break u u' (word ++ (o ++ b)) (word ++ (o' ++ b'))
        (normalize_segment_value-HasNoColon (user_value user_id) u p)
        (normalize_segment_value-HasNoColon (user_value user_id') u' p') refl refl
        (append_cancel (prefix feature version) (u ++ (word ++ (o ++ b)))
          (u' ++ (word ++ (o' ++ b'))) (sym r ∙ r')) in
    let (organizations, last) =
      split_at_break o o' b b'
        (normalize_segment_value-HasNoColon (SegmentValue.text organization_id) o q)
        (normalize_segment_value-HasNoColon (SegmentValue.text organization_id') o' q')
        (join_segments-IsBreak ss b j) (join_segments-IsBreak ss' b' j')
        (append_cancel word (o ++ b) (o' ++ b') rest) in
    (
      p ∙ ap some users ∙ sym p',
      q ∙ ap some organizations ∙ sym q',
      join_segments_same ss ss' b l j (j' ∙ ap some (sym last)),
    )
