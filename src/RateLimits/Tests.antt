-- ===== src/RateLimits/Tests.antt =====
-- Addresses and requests, and the keys that count them.
use lakira_backend.Base.{ℕ, ◌≡◌, ◌↔◌, refl, Bool, none, some, [], ◌∷◌, ◌==◌, any}
use lakira_backend.Text.{Text, codes}
use lakira_backend.Messaging.RetryPolicy.{print_count, digits}
use lakira_backend.RateLimits.Addresses.{
  without_zone, read_digits, dotted, dotted_tail, hex_digits, print_hex, parse_hex, split_double,
  split_colon, parse_groups, ipv6_groups, client_ip_key,
}
use lakira_backend.RateLimits.LimiterLaws.{redis_key_network_iff}
use lakira_backend.RateLimits.Limiters.{Limiter, LimitedRequest, redis_key}

-- An address is taken for IPv6 where it has a colon.
abbrev has_colon : Text → Bool
has_colon s = any (λ c. c == b':') s

abbrev unchanged : Text → Text
unchanged s = s

loopback : ipv6_groups has_colon (codes "::1") ≡ some (0 ∷ 0 ∷ 0 ∷ 0 ∷ 0 ∷ 0 ∷ 0 ∷ 1 ∷ [])
unfolding ipv6_groups parse_groups without_zone dotted_tail dotted read_digits split_double
    split_colon parse_hex
loopback = refl

mapped : client_ip_key has_colon (some (codes "::ffff:203.0.113.9")) ≡ codes "203.0.113.9"
unfolding client_ip_key ipv6_groups parse_groups without_zone dotted_tail dotted read_digits
    split_double split_colon parse_hex print_hex hex_digits print_count digits
mapped = refl

abbrev request_from : Text → LimitedRequest
request_from ip = record { ip = some ip; user_id = none; user_email = none; body_email = none }

first_groups :
    ipv6_groups has_colon (codes "2001:db8::1") ≡ some (0x2001 ∷ 0xdb8 ∷ 0 ∷ 0 ∷ 0 ∷ 0 ∷ 0 ∷ 1 ∷ [])
unfolding ipv6_groups parse_groups without_zone dotted_tail dotted read_digits split_double
    split_colon parse_hex
first_groups = refl

second_groups :
    ipv6_groups has_colon (codes "2001:db8::9:7%eth0")
    ≡ some (0x2001 ∷ 0xdb8 ∷ 0 ∷ 0 ∷ 0 ∷ 0 ∷ 9 ∷ 7 ∷ [])
unfolding ipv6_groups parse_groups without_zone dotted_tail dotted read_digits split_double
    split_colon parse_hex
second_groups = refl

redis_key_network_iff_example :
    (redis_key has_colon unchanged unchanged Limiter.login
        (request_from (codes "2001:db8:0:0:0:0:0:1"))
      ≡ redis_key has_colon unchanged unchanged Limiter.login
          (request_from (codes "2001:db8:0:0:0:0:9:7")))
    ↔ ((Limiter.login ≡ Limiter.login)
        × ◌≡◌ {A = ℕ} 0x2001 0x2001
        × ◌≡◌ {A = ℕ} 0xdb8 0xdb8
        × ◌≡◌ {A = ℕ} 0 0
        × ◌≡◌ {A = ℕ} 0 0)
unfolding print_hex hex_digits
redis_key_network_iff_example =
    redis_key_network_iff has_colon unchanged unchanged Limiter.login Limiter.login
      (request_from (codes "2001:db8:0:0:0:0:0:1")) (request_from (codes "2001:db8:0:0:0:0:9:7"))
      0x2001 0xdb8 0 0 0x2001 0xdb8 0 0 (0 ∷ 0 ∷ 0 ∷ 1 ∷ []) (0 ∷ 0 ∷ 9 ∷ 7 ∷ []) refl refl refl
      refl refl refl refl
