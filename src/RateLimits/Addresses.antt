-- ===== src/RateLimits/Addresses.antt =====
-- The part of an address that a limiter counts: ipv6Groups and clientIpKey. `is_ipv6` is isIPv6
-- of node:net.
use Prim.Native.Nat.{bit_or}
use lakira_backend.Base.{
  ℕ, zero, suc, ◌+◌, ◌-◌, ◌*◌, ◌/◌, ◌%◌, Bool, false, not, ◌&&◌, ◌||◌, Option, none, some, List, [],
  ◌∷◌, ◌++◌, ◌==◌, map, leb, ltb, all, length, if◌then◌else◌,
}
use lakira_backend.Text.{Text, codes, is_empty}
use lakira_backend.Messaging.RetryPolicy.{print_count}

abbrev pub is_line_break : ℕ → Bool
is_line_break c = c == 10 || c == 13 || c == 0x2028 || c == 0x2029

-- `replace(/%.*$/, "")`
unfoldable pub without_zone : Text → Text
without_zone [] = []
without_zone (c ∷ s) =
    if c == b'%' && all (λ d. not (is_line_break d)) s then [] else c ∷ without_zone s

abbrev pub is_digit : ℕ → Bool
is_digit c = leb b'0' c && leb c b'9'

-- `\d{1,3}` with its value: the digits that may still come, those read, and what follows.
unfoldable pub read_digits : (left read value : ℕ) → Text → ℕ × ℕ × Text
read_digits zero read value s = (read, value, s)
read_digits (suc left) read value [] = (read, value, [])
read_digits (suc left) read value (c ∷ s) =
    let further = read_digits left (suc read) (value * 10 + (c - b'0')) s in
    if is_digit c then further else (read, value, c ∷ s)

abbrev pub after_dot : Text → Option Text
after_dot [] = none
after_dot (c ∷ s) = if c == b'.' then some s else none

abbrev pub read_octet : Text → Option (ℕ × Text)
read_octet s =
    let (read, value, rest) = read_digits 3 0 0 s in if read == 0 then none else some (value, rest)

-- Four numbers with dots between them, to the end.
unfoldable pub dotted : Text → Option (List ℕ)
dotted s = elim (read_octet s) [
  | none ↦ none
  | some (a, s1) ↦ elim (after_dot s1) [
    | none ↦ none
    | some t1 ↦ elim (read_octet t1) [
      | none ↦ none
      | some (b, s2) ↦ elim (after_dot s2) [
        | none ↦ none
        | some t2 ↦ elim (read_octet t2) [
          | none ↦ none
          | some (c, s3) ↦ elim (after_dot s3) [
            | none ↦ none
            | some t3 ↦ elim (read_octet t3) [
              | none ↦ none
              | some (d, s4) ↦ if is_empty s4 then some (a ∷ b ∷ c ∷ d ∷ []) else none
            ]
          ]
        ]
      ]
    ]
  ]
]

abbrev after_unit : ℕ → Option (Text × List ℕ) → Option (Text × List ℕ)
after_unit c none = none
after_unit c (some (before, tail)) = some (c ∷ before, tail)

-- The leftmost match, with the text before it.
unfoldable pub dotted_tail : Text → Option (Text × List ℕ)
dotted_tail [] = none
dotted_tail (c ∷ s) =
    let later = after_unit c (dotted_tail s) in
    elim (dotted (c ∷ s)) [ none ↦ later | some tail ↦ some ([], tail) ]

abbrev pub hex_unit : ℕ → ℕ
hex_unit d = if ltb d 10 then b'0' + d else b'a' + (d - 10)

unfoldable pub hex_digits : ℕ → ℕ → Text → Text
hex_digits zero n s = s
hex_digits (suc f) n s =
    let rest = hex_digits f (n / 16) (hex_unit (n % 16) ∷ s) in
    if ltb n 16 then hex_unit n ∷ s else rest

-- `toString(16)`
unfoldable pub print_hex : ℕ → Text
print_hex n = hex_digits (suc n) n []

abbrev pub hex_value : ℕ → ℕ
hex_value c =
    if is_digit c
    then c - b'0'
    else if leb b'a' c && leb c b'f'
    then c - b'a' + 10
    else c - b'A' + 10

abbrev pub is_hex_unit : ℕ → Bool
is_hex_unit c = is_digit c || (leb b'a' c && leb c b'f') || (leb b'A' c && leb c b'F')

-- `parseInt(group, 16)` of a group without a sign, a space or a prefix
unfoldable pub parse_hex : ℕ → Text → ℕ
parse_hex value [] = value
parse_hex value (c ∷ s) =
    let further = parse_hex (value * 16 + hex_value c) s in if is_hex_unit c then further else value

-- The dotted tail as two groups.
abbrev pub with_hex_tail : Text → Option (Text × List ℕ) → Text
with_hex_tail bare (some (before, a ∷ b ∷ c ∷ d ∷ _)) =
    before ++ (print_hex (bit_or (a * 256) b) ++ b':' ∷ print_hex (bit_or (c * 256) d))
with_hex_tail bare _ = bare

-- The first two parts of `split("::")`.
unfoldable pub split_double : Text → Text × Option Text
split_double [] = ([], none)
split_double (c ∷ []) = (c ∷ [], none)
split_double (c ∷ d ∷ s) =
    let (head, rest) = split_double (d ∷ s) in
    if c == b':' && d == b':' then ([], some s) else (c ∷ head, rest)

abbrev pub onto_first : ℕ → List Text → List Text
onto_first c [] = (c ∷ []) ∷ []
onto_first c (g ∷ groups) = (c ∷ g) ∷ groups

-- `split(":")`
unfoldable pub split_colon : Text → List Text
split_colon [] = [] ∷ []
split_colon (c ∷ s) = let rest = split_colon s in if c == b':' then [] ∷ rest else onto_first c rest

abbrev pub groups_of : Text → List Text
groups_of [] = []
groups_of (c ∷ s) = split_colon (c ∷ s)

abbrev pub zero_groups : ℕ → List Text
zero_groups zero = []
zero_groups (suc n) = codes "0" ∷ zero_groups n

abbrev pub filled : Text → Option Text → List Text
filled head none = groups_of head
filled head (some rest) =
    let right = groups_of ((split_double rest).0) in
    let left = groups_of head in left ++ (zero_groups (8 - length left - length right) ++ right)

unfoldable pub parse_groups : Text → List ℕ
parse_groups bare =
    let (head, rest) = split_double (with_hex_tail bare (dotted_tail bare)) in
    map (parse_hex 0) (filled head rest)

-- `::ffff:a.b.c.d`
abbrev pub is_mapped : List ℕ → Bool
is_mapped (a ∷ b ∷ c ∷ d ∷ e ∷ f ∷ _) =
    a == 0 && b == 0 && c == 0 && d == 0 && e == 0 && f == 0xffff
is_mapped _ = false

abbrev pub print_mapped : List ℕ → Text
print_mapped (_ ∷ _ ∷ _ ∷ _ ∷ _ ∷ _ ∷ g ∷ h ∷ _) =
    print_count (g / 256)
    ++ b'.'
      ∷ (print_count (g % 256) ++ b'.' ∷ (print_count (h / 256) ++ b'.' ∷ print_count (h % 256)))
print_mapped _ = []

abbrev pub print_network : List ℕ → Text
print_network (a ∷ b ∷ c ∷ d ∷ _) =
    print_hex a
    ++ b':' ∷ (print_hex b ++ b':' ∷ (print_hex c ++ b':' ∷ (print_hex d ++ codes "::/64")))
print_network _ = []

module _ (is_ipv6 : Text → Bool) where
  unfoldable pub ipv6_groups : Text → Option (List ℕ)
  ipv6_groups ip =
      let bare = without_zone ip in if is_ipv6 bare then some (parse_groups bare) else none

  abbrev pub address_key : Text → Text
  address_key ip = elim (ipv6_groups ip) [
    | none ↦ ip
    | some groups ↦ if is_mapped groups then print_mapped groups else print_network groups
  ]

  unfoldable pub client_ip_key : Option Text → Text
  client_ip_key none = codes "anonymous"
  client_ip_key (some ip) = if is_empty ip then codes "anonymous" else address_key ip
