-- ===== src/Cache/KeyLaws.antt =====
-- What the keys tell apart.
use lakira_backend.Base.{
  ℕ, zero, suc, ◌+◌, ◌-◌, ◌*◌, ◌/◌, ◌%◌, ◌≡◌, refl, sym, subst, inl, inr, Option, none, some, [],
  ◌∷◌, ◌++◌, arith, Option-cases,
}
use lakira_backend.Text.{Text, trim}
use lakira_backend.Messaging.RetryPolicy.{print_count, digits}
use lakira_backend.Cache.Keys.{
  percent, escape_point, encode_unit, pending, append_encoded, encode_uri_component, escape_rest,
  encode_segment_text, SegmentValue, normalize_segment_value,
}
use lakira_backend.Cache.Parts.{HasNoColon, HasNoColon-append}

percent-HasNoColon : (b : ℕ) → HasNoColon (percent b)
percent-HasNoColon b = ground arith

escape_point-HasNoColon : (p : ℕ) → HasNoColon (escape_point p)
unfolding escape_point
escape_point-HasNoColon p = grind (arith, percent-HasNoColon, HasNoColon-append)

encode_unit-HasNoColon :
    (high : Option ℕ) (c : ℕ) (s : Text) → encode_unit high c ≡ some s → HasNoColon s
unfolding encode_unit
encode_unit-HasNoColon none c s e = ground (arith, escape_point-HasNoColon c)
encode_unit-HasNoColon (some h) c s e =
    ground (arith, escape_point-HasNoColon (0x10000 + (h - 0xd800) * 1024 + (c - 0xdc00)))

pub append_encoded-cases :
    (a b : Option Text) (r : Text)
    → append_encoded a b ≡ some r
    → (s : Text) × (t : Text) × (a ≡ some s) × (b ≡ some t) × (r ≡ s ++ t)
append_encoded-cases none b r e = cc
append_encoded-cases (some s) none r e = cc
append_encoded-cases (some s) (some t) r e = (s, t, refl, refl, cc)

encode_uri_component-HasNoColon :
    (high : Option ℕ) (text s : Text) → encode_uri_component high text ≡ some s → HasNoColon s
unfolding encode_uri_component
encode_uri_component-HasNoColon none [] s e = ground arith
encode_uri_component-HasNoColon (some h) [] s e = cc
encode_uri_component-HasNoColon high (c ∷ text) s e =
    let (a, b, p, q, r) =
      append_encoded-cases (encode_unit high c) (encode_uri_component (pending high c) text) s e in
    subst HasNoColon (sym r) (
      HasNoColon-append a b (encode_unit-HasNoColon high c a p)
        (encode_uri_component-HasNoColon (pending high c) text b q))

escape_rest-HasNoColon : (s : Text) → HasNoColon s → HasNoColon (escape_rest s)
unfolding escape_rest
escape_rest-HasNoColon [] h = refl
escape_rest-HasNoColon (c ∷ s) h = ground (arith, escape_rest-HasNoColon s)

digits-HasNoColon : (f n : ℕ) (s : Text) → HasNoColon s → HasNoColon (digits f n s)
unfolding digits
digits-HasNoColon zero n s h = h
digits-HasNoColon (suc f) n s h = ground (arith, digits-HasNoColon f (n / 10) ((b'0' + n % 10) ∷ s))

pub normalize_segment_value-HasNoColon :
    (v : SegmentValue) (s : Text) → normalize_segment_value v ≡ some s → HasNoColon s
unfolding normalize_segment_value encode_segment_text print_count
normalize_segment_value-HasNoColon SegmentValue.missing s e = ground arith
normalize_segment_value-HasNoColon (SegmentValue.flag b) s e = ground arith
normalize_segment_value-HasNoColon (SegmentValue.number n) s e =
    ground (arith, digits-HasNoColon (suc n) n [] refl)
normalize_segment_value-HasNoColon (SegmentValue.text raw) s e =
    elim (Option-cases (encode_uri_component none (trim raw))) [
      | inl p ↦ ground arith
      | inr (t, p) ↦
          ground
            (arith, escape_rest-HasNoColon t (encode_uri_component-HasNoColon none (trim raw) t p))
    ]
