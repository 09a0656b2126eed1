-- ===== src/RateLimits/AddressLaws.antt =====
-- Which addresses share a key.
use lakira_backend.Base.{
  ℕ, zero, suc, ◌+◌, ◌*◌, ◌/◌, ◌%◌, ◌<◌, ◌≡◌, ◌↔◌, refl, sym, ap, ◌∙◌, Bool, false, inl, inr, some,
  List, [], ◌∷◌, ◌++◌, ltb, arith, Bool-cases,
}
use lakira_backend.Text.{Text, codes, is_empty}
use lakira_backend.Cache.Parts.{HasNoColon, IsBreak, split_at_break}
use lakira_backend.RateLimits.Addresses.{
  hex_unit, hex_digits, print_hex, hex_value, parse_hex, is_mapped, print_network, ipv6_groups,
  client_ip_key,
}

parse_hex_nil : (v : ℕ) → parse_hex v [] ≡ v
unfolding parse_hex
parse_hex_nil v = refl

parse_hex-cons :
    (v d : ℕ) (s : Text) → d < 16 → parse_hex v (hex_unit d ∷ s) ≡ parse_hex (v * 16 + d) s
unfolding parse_hex
parse_hex-cons v d s h =
    ground (arith, ap (λ n. parse_hex n s) {x = v * 16 + hex_value (hex_unit d)} {y = v * 16 + d})

parse_hex-hex_digits : (f n : ℕ) (s : Text) → n < f → parse_hex 0 (hex_digits f n s) ≡ parse_hex n s
unfolding hex_digits
parse_hex-hex_digits zero n s h = elim h [ ]
parse_hex-hex_digits (suc f) n s h = elim (Bool-cases (ltb n 16)) [
  | inl small ↦
      rw small (parse_hex-cons 0 n s (ground arith) ∙ ap (λ v. parse_hex v s) (omega arith))
  | inr large ↦ rw large (
      parse_hex-hex_digits f (n / 16) (hex_unit (n % 16) ∷ s) (ground arith)
      ∙ parse_hex-cons (n / 16) (n % 16) s (omega arith)
      ∙ ap (λ v. parse_hex v s) (omega arith))
]

-- A group that is printed is read again.
pub parse_hex-print_hex : (n : ℕ) → parse_hex 0 (print_hex n) ≡ n
unfolding print_hex
parse_hex-print_hex n = parse_hex-hex_digits (suc n) n [] (omega arith) ∙ parse_hex_nil n

print_hex_injective : (a b : ℕ) → print_hex a ≡ print_hex b → a ≡ b
print_hex_injective a b e = sym (parse_hex-print_hex a) ∙ ap (parse_hex 0) e ∙ parse_hex-print_hex b

hex_digits-HasNoColon : (f n : ℕ) (s : Text) → HasNoColon s → HasNoColon (hex_digits f n s)
unfolding hex_digits
hex_digits-HasNoColon zero n s h = h
hex_digits-HasNoColon (suc f) n s h =
    ground (arith, hex_digits-HasNoColon f (n / 16) (hex_unit (n % 16) ∷ s))

pub print_hex-HasNoColon : (n : ℕ) → HasNoColon (print_hex n)
unfolding print_hex
print_hex-HasNoColon n = hex_digits-HasNoColon (suc n) n [] refl

-- Two printed groups, each up to a colon.
print_hex_split :
    (a b : ℕ) (s t : Text)
    → IsBreak s
    → IsBreak t
    → print_hex a ++ s ≡ print_hex b ++ t
    → (a ≡ b) × (s ≡ t)
print_hex_split a b s t hs ht e =
    let (same, rest) =
      split_at_break (print_hex a) (print_hex b) s t (print_hex-HasNoColon a)
        (print_hex-HasNoColon b) hs ht e in
    (print_hex_injective a b same, rest)

print_network_split :
    (a b c d a' b' c' d' : ℕ) (r r' : List ℕ)
    → print_network (a ∷ b ∷ c ∷ d ∷ r) ≡ print_network (a' ∷ b' ∷ c' ∷ d' ∷ r')
    → (a ≡ a') × (b ≡ b') × (c ≡ c') × (d ≡ d')
print_network_split a b c d a' b' c' d' r r' e =
    let last = λ (n : ℕ). print_hex n ++ codes "::/64" in
    let third = λ (m n : ℕ). print_hex m ++ b':' ∷ last n in
    let second = λ (k m n : ℕ). print_hex k ++ b':' ∷ third m n in
    let (ea, e1) =
      print_hex_split a a' (b':' ∷ second b c d) (b':' ∷ second b' c' d') refl refl e in
    let e1' : second b c d ≡ second b' c' d' = cc in
    let (eb, e2) = print_hex_split b b' (b':' ∷ third c d) (b':' ∷ third c' d') refl refl e1' in
    let e2' : third c d ≡ third c' d' = cc in
    let (ec, e3) = print_hex_split c c' (b':' ∷ last d) (b':' ∷ last d') refl refl e2' in
    let e3' : last d ≡ last d' = cc in
    let (ed, _) = print_hex_split d d' (codes "::/64") (codes "::/64") refl refl e3' in
    (ea, eb, ec, ed)

module _ (is_ipv6 : Text → Bool) where
  client_ip_key-network :
      (ip : Text) (groups : List ℕ)
      → is_empty ip ≡ false
      → ipv6_groups is_ipv6 ip ≡ some groups
      → is_mapped groups ≡ false
      → client_ip_key is_ipv6 (some ip) ≡ print_network groups
  unfolding client_ip_key
  client_ip_key-network ip groups h g m = ground arith

  -- Two IPv6 addresses that are not mapped IPv4 ones share a key exactly when their first four
  -- groups are the same.
  pub client_ip_key_network_iff :
      (ip ip' : Text) (a b c d a' b' c' d' : ℕ) (r r' : List ℕ)
      → is_empty ip ≡ false
      → is_empty ip' ≡ false
      → ipv6_groups is_ipv6 ip ≡ some (a ∷ b ∷ c ∷ d ∷ r)
      → ipv6_groups is_ipv6 ip' ≡ some (a' ∷ b' ∷ c' ∷ d' ∷ r')
      → is_mapped (a ∷ b ∷ c ∷ d ∷ r) ≡ false
      → is_mapped (a' ∷ b' ∷ c' ∷ d' ∷ r') ≡ false
      → (client_ip_key is_ipv6 (some ip) ≡ client_ip_key is_ipv6 (some ip'))
        ↔ ((a ≡ a') × (b ≡ b') × (c ≡ c') × (d ≡ d'))
  client_ip_key_network_iff ip ip' a b c d a' b' c' d' r r' h h' g g' m m' =
      let key = client_ip_key-network ip (a ∷ b ∷ c ∷ d ∷ r) h g m in
      let key' = client_ip_key-network ip' (a' ∷ b' ∷ c' ∷ d' ∷ r') h' g' m' in
      (
        λ e. print_network_split a b c d a' b' c' d' r r' (sym key ∙ e ∙ key'),
        λ (ea, eb, ec, ed). key ∙ cc (ea, eb, ec, ed) ∙ sym key',
      )
