-- ===== src/RateLimits/Written.antt =====
-- Reading an address whose groups are written out, each in hexadecimal, with colons between them.
use lakira_backend.Base.{
  ℕ, zero, suc, ◌+◌, ◌*◌, ◌/◌, ◌%◌, ◌≡◌, refl, subst, ap, ◌∙◌, Bool, true, false, not, ◌-◌, ◌&&◌,
  inl, inr, none, some, List, [], ◌∷◌, ◌++◌, ◌==◌, all, map, ltb, arith, Bool-cases,
}
use mathlib.Core.List.{append-nil}
use lakira_backend.Text.{Text, is_empty}
use lakira_backend.Cache.Parts.{is_no_colon, HasNoColon}
use lakira_backend.RateLimits.Addresses.{
  without_zone, read_digits, after_dot, dotted, dotted_tail, hex_unit, hex_digits, print_hex,
  parse_hex, split_double, split_colon, groups_of, parse_groups, ipv6_groups,
}
use lakira_backend.RateLimits.AddressLaws.{parse_hex-print_hex, print_hex-HasNoColon}

-- `a:b:c:d:e:f:g:h`
abbrev pub written : List ℕ → Text
written [] = []
written (g ∷ []) = print_hex g
written (g ∷ h ∷ groups) = print_hex g ++ b':' ∷ written (h ∷ groups)

is_plain : ℕ → Bool
is_plain c = not (c == b'%') && not (c == b'.')

all-append : (p : ℕ → Bool) (s t : Text) → all p s ≡ true → all p t ≡ true → all p (s ++ t) ≡ true
all-append p [] t h k = k
all-append p (c ∷ s) t h k = ground (arith, all-append p s t)

hex_unit_plain : (d : ℕ) → is_plain (hex_unit d) ≡ true
unfolding is_plain
hex_unit_plain d = ground arith

hex_digits_plain :
    (f n : ℕ) (s : Text) → all is_plain s ≡ true → all is_plain (hex_digits f n s) ≡ true
unfolding hex_digits
hex_digits_plain zero n s h = h
hex_digits_plain (suc f) n s h = ground (
  arith,
  hex_unit_plain n,
  hex_unit_plain (n % 16),
  hex_digits_plain f (n / 16) (hex_unit (n % 16) ∷ s),
)

print_hex_plain : (n : ℕ) → all is_plain (print_hex n) ≡ true
unfolding print_hex
print_hex_plain n = hex_digits_plain (suc n) n [] refl

written_plain : (groups : List ℕ) → all is_plain (written groups) ≡ true
unfolding is_plain
written_plain [] = refl
written_plain (g ∷ []) = print_hex_plain g
written_plain (g ∷ h ∷ groups) =
    all-append is_plain (print_hex g) (b':' ∷ written (h ∷ groups)) (print_hex_plain g)
      (written_plain (h ∷ groups))

without_zone_plain : (s : Text) → all is_plain s ≡ true → without_zone s ≡ s
unfolding without_zone is_plain
without_zone_plain [] h = refl
without_zone_plain (c ∷ s) h = ground (arith, without_zone_plain s)

read_digits_plain :
    (left read value : ℕ) (s : Text)
    → all is_plain s ≡ true
    → all is_plain (read_digits left read value s).2 ≡ true
unfolding read_digits
read_digits_plain zero read value s h = h
read_digits_plain (suc left) read value [] h = refl
read_digits_plain (suc left) read value (c ∷ s) h =
    ground (arith, read_digits_plain left (suc read) (value * 10 + (c - b'0')) s)

after_dot_plain : (s : Text) → all is_plain s ≡ true → after_dot s ≡ none
unfolding is_plain
after_dot_plain [] h = refl
after_dot_plain (c ∷ s) h = ground arith

dotted_plain : (s : Text) → all is_plain s ≡ true → dotted s ≡ none
unfolding dotted
dotted_plain s h =
    ground (arith, after_dot_plain (read_digits 3 0 0 s).2 (read_digits_plain 3 0 0 s h))

dotted_tail_plain : (s : Text) → all is_plain s ≡ true → dotted_tail s ≡ none
unfolding dotted_tail
dotted_tail_plain [] h = refl
dotted_tail_plain (c ∷ s) h = ground (arith, dotted_plain (c ∷ s) h, dotted_tail_plain s)

-- No two colons stand beside each other.
abbrev HasNoDouble : Text → Type 0
HasNoDouble [] = Unit
HasNoDouble (c ∷ []) = Unit
HasNoDouble (c ∷ d ∷ s) = ((c == b':' && d == b':') ≡ false) × HasNoDouble (d ∷ s)

split_double_whole : (s : Text) → HasNoDouble s → split_double s ≡ (s, none)
unfolding split_double
split_double_whole [] h = refl
split_double_whole (c ∷ []) h = refl
split_double_whole (c ∷ d ∷ s) (apart, h) = rw apart (rw (split_double_whole (d ∷ s) h) refl)

HasNoDouble-append : (s t : Text) → HasNoColon s → HasNoDouble t → HasNoDouble (s ++ t)
HasNoDouble-append [] t h k = k
HasNoDouble-append (c ∷ []) [] h k = tt
HasNoDouble-append (c ∷ []) (d ∷ t) h k = (ground arith, k)
HasNoDouble-append (c ∷ d ∷ s) t h k = (ground arith, HasNoDouble-append (d ∷ s) t (ground arith) k)

hex_digits_first : (f n c : ℕ) (s : Text) → (d : ℕ) × (t : Text) × (hex_digits f n (c ∷ s) ≡ d ∷ t)
unfolding hex_digits
hex_digits_first zero n c s = (c, s, refl)
hex_digits_first (suc f) n c s = elim (Bool-cases (ltb n 16)) [
  | inl small ↦ (hex_unit n, c ∷ s, rw small refl)
  | inr large ↦
      let (d, t, e) = hex_digits_first f (n / 16) (hex_unit (n % 16)) (c ∷ s) in (d, t, rw large e)
]

print_hex_first : (n : ℕ) → (d : ℕ) × (t : Text) × (print_hex n ≡ d ∷ t)
unfolding print_hex hex_digits
print_hex_first n = elim (Bool-cases (ltb n 16)) [
  | inl small ↦ (hex_unit n, [], rw small refl)
  | inr large ↦
      let (d, t, e) = hex_digits_first n (n / 16) (hex_unit (n % 16)) [] in (d, t, rw large e)
]

-- A written address begins with a unit that is no colon.
written_first :
    (g : ℕ) (groups : List ℕ)
    → (d : ℕ) × (t : Text) × (written (g ∷ groups) ≡ d ∷ t) × (is_no_colon d ≡ true)
written_first g [] =
    let (d, t, e) = print_hex_first g in
    (d, t, e, ground (arith, e, ap (all is_no_colon) e, print_hex-HasNoColon g))
written_first g (h ∷ groups) =
    let (d, t, e) = print_hex_first g in
    (
      d,
      t ++ b':' ∷ written (h ∷ groups),
      ap (λ u. u ++ b':' ∷ written (h ∷ groups)) e,
      ground (arith, e, ap (all is_no_colon) e, print_hex-HasNoColon g),
    )

after_colon :
    (s t : Text) (d : ℕ) → s ≡ d ∷ t → is_no_colon d ≡ true → HasNoDouble s → HasNoDouble (b':' ∷ s)
after_colon [] t d e apart h = absurd cc
after_colon (c ∷ s) t d e apart h = (ground arith, h)

written-HasNoDouble : (groups : List ℕ) → HasNoDouble (written groups)
written-HasNoDouble [] = tt
written-HasNoDouble (g ∷ []) =
    subst HasNoDouble (append-nil (print_hex g))
      (HasNoDouble-append (print_hex g) [] (print_hex-HasNoColon g) tt)
written-HasNoDouble (g ∷ h ∷ groups) =
    let (d, t, e, apart) = written_first h groups in
    HasNoDouble-append (print_hex g) (b':' ∷ written (h ∷ groups)) (print_hex-HasNoColon g)
      (after_colon (written (h ∷ groups)) t d e apart (written-HasNoDouble (h ∷ groups)))

split_colon_last : (s : Text) → HasNoColon s → split_colon s ≡ s ∷ []
unfolding split_colon
split_colon_last [] h = refl
split_colon_last (c ∷ s) h = ground (arith, split_colon_last s)

split_colon_more : (s t : Text) → HasNoColon s → split_colon (s ++ b':' ∷ t) ≡ s ∷ split_colon t
unfolding split_colon
split_colon_more [] t h = refl
split_colon_more (c ∷ s) t h = ground (arith, split_colon_more s t)

split_colon-written :
    (g : ℕ) (groups : List ℕ) → map (parse_hex 0) (split_colon (written (g ∷ groups))) ≡ g ∷ groups
split_colon-written g [] =
    ap (map (parse_hex 0)) (split_colon_last (print_hex g) (print_hex-HasNoColon g))
    ∙ ap (λ v. v ∷ []) (parse_hex-print_hex g)
split_colon-written g (h ∷ groups) =
    ap (map (parse_hex 0))
      (split_colon_more (print_hex g) (written (h ∷ groups)) (print_hex-HasNoColon g))
    ∙ ap (λ v. v ∷ map (parse_hex 0) (split_colon (written (h ∷ groups)))) (parse_hex-print_hex g)
    ∙ ap (λ l. g ∷ l) (split_colon-written h groups)

groups_of_first : (s t : Text) (d : ℕ) → s ≡ d ∷ t → groups_of s ≡ split_colon s
groups_of_first [] t d e = absurd cc
groups_of_first (c ∷ s) t d e = refl

-- The groups of a written address are read again.
pub parse_groups-written :
    (g : ℕ) (groups : List ℕ) → parse_groups (written (g ∷ groups)) ≡ g ∷ groups
unfolding parse_groups
parse_groups-written g groups =
    let text = written (g ∷ groups) in
    let (d, t, e, apart) = written_first g groups in
    rw (dotted_tail_plain text (written_plain (g ∷ groups))) (
      rw (split_double_whole text (written-HasNoDouble (g ∷ groups)))
        (ap (map (parse_hex 0)) (groups_of_first text t d e) ∙ split_colon-written g groups))

pub written_is_some : (g : ℕ) (groups : List ℕ) → is_empty (written (g ∷ groups)) ≡ false
written_is_some g groups = let (d, t, e, apart) = written_first g groups in ap is_empty e

pub ipv6_groups-written :
    (is_ipv6 : Text → Bool) (g : ℕ) (groups : List ℕ)
    → is_ipv6 (written (g ∷ groups)) ≡ true
    → ipv6_groups is_ipv6 (written (g ∷ groups)) ≡ some (g ∷ groups)
unfolding ipv6_groups
ipv6_groups-written is_ipv6 g groups h = ground (
  arith,
  h,
  without_zone_plain (written (g ∷ groups)) (written_plain (g ∷ groups)),
  parse_groups-written g groups,
)
