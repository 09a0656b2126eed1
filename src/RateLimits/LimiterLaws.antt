-- ===== src/RateLimits/LimiterLaws.antt =====
-- Which requests a limiter counts together.
use lakira_backend.Base.{
  ℕ, ◌≡◌, ◌↔◌, refl, sym, ap, ◌∙◌, Bool, true, false, Option, none, some, List, ◌∷◌, ◌++◌,
  if◌then◌else◌,
}
use lakira_backend.Text.{Text, codes, text_eq, is_empty}
use lakira_backend.Cache.Parts.{HasNoColon, split_at_break, append_cancel}
use lakira_backend.RateLimits.Addresses.{ipv6_groups, is_mapped, client_ip_key}
use lakira_backend.RateLimits.AddressLaws.{client_ip_key_network_iff}
use lakira_backend.RateLimits.Written.{written, written_is_some, ipv6_groups-written}
use lakira_backend.RateLimits.Limiters.{
  Limiter, LimitedRequest, store_name, store_prefix, key_of, redis_key,
}
use mathlib.Core.List.{append_assoc}

named : Limiter → Text → Option Limiter → Option Limiter
named l t other = if text_eq t (store_name l) then some l else other

limiter_named : Text → Option Limiter
limiter_named t = named Limiter.global t (
    named Limiter.user t (
      named Limiter.analytics t (
        named Limiter.switch_org t (
          named Limiter.password_reset_email t (
            named Limiter.password_reset_ip t (
              named Limiter.email_verification_email t (
                named Limiter.email_verification_ip t (
                  named Limiter.register_ip t
                    (named Limiter.login t (named Limiter.auth_session t none))))))))))

limiter_named-store_name : (l : Limiter) → limiter_named (store_name l) ≡ some l
unfolding limiter_named named store_name text_eq
limiter_named-store_name Limiter.global = refl
limiter_named-store_name Limiter.user = refl
limiter_named-store_name Limiter.analytics = refl
limiter_named-store_name Limiter.switch_org = refl
limiter_named-store_name Limiter.password_reset_email = refl
limiter_named-store_name Limiter.password_reset_ip = refl
limiter_named-store_name Limiter.email_verification_email = refl
limiter_named-store_name Limiter.email_verification_ip = refl
limiter_named-store_name Limiter.register_ip = refl
limiter_named-store_name Limiter.login = refl
limiter_named-store_name Limiter.auth_session = refl

store_name-HasNoColon : (l : Limiter) → HasNoColon (store_name l)
unfolding store_name
store_name-HasNoColon Limiter.global = refl
store_name-HasNoColon Limiter.user = refl
store_name-HasNoColon Limiter.analytics = refl
store_name-HasNoColon Limiter.switch_org = refl
store_name-HasNoColon Limiter.password_reset_email = refl
store_name-HasNoColon Limiter.password_reset_ip = refl
store_name-HasNoColon Limiter.email_verification_email = refl
store_name-HasNoColon Limiter.email_verification_ip = refl
store_name-HasNoColon Limiter.register_ip = refl
store_name-HasNoColon Limiter.login = refl
store_name-HasNoColon Limiter.auth_session = refl

-- The limiters that count by address alone.
abbrev is_by_address : Limiter → Bool
is_by_address Limiter.user = false
is_by_address Limiter.analytics = false
is_by_address Limiter.switch_org = false
is_by_address Limiter.password_reset_email = false
is_by_address Limiter.email_verification_email = false
is_by_address _ = true

prefixed : (p s t : Text) → (p ++ s ≡ p ++ t) ↔ (s ≡ t)
prefixed p s t = (append_cancel p s t, ap (λ u. p ++ u))

module _ (is_ipv6 : Text → Bool) (sha256 to_lower_case : Text → Text) where
  store_prefix_split :
      (l : Limiter) (s : Text) → store_prefix l ++ s ≡ codes "rl:" ++ (store_name l ++ b':' ∷ s)
  unfolding store_prefix
  store_prefix_split l s =
      append_assoc (codes "rl:") (store_name l ++ codes ":") s
      ∙ ap (λ t. codes "rl:" ++ t) (append_assoc (store_name l) (codes ":") s)

  -- Two limiters never count under one key, and one limiter only where its own keys agree.
  redis_key_same :
      (l l' : Limiter) (req req' : LimitedRequest)
      → redis_key is_ipv6 sha256 to_lower_case l req
        ≡ redis_key is_ipv6 sha256 to_lower_case l' req'
      → (l ≡ l')
        × (key_of is_ipv6 sha256 to_lower_case l req ≡ key_of is_ipv6 sha256 to_lower_case l' req')
  unfolding redis_key
  redis_key_same l l' req req' e =
      let key = key_of is_ipv6 sha256 to_lower_case l req in
      let key' = key_of is_ipv6 sha256 to_lower_case l' req' in
      let (names, keys) =
        split_at_break (store_name l) (store_name l') (b':' ∷ key) (b':' ∷ key')
          (store_name-HasNoColon l) (store_name-HasNoColon l') refl refl
          (append_cancel (codes "rl:") (store_name l ++ b':' ∷ key) (store_name l' ++ b':' ∷ key')
            (sym (store_prefix_split l key) ∙ e ∙ store_prefix_split l' key')) in
      let found : some l ≡ some l' =
        sym (limiter_named-store_name l) ∙ ap limiter_named names ∙ limiter_named-store_name l' in
      (cc, cc)

  key_of_address :
      (l : Limiter) (req req' : LimitedRequest)
      → is_by_address l ≡ true
      → (key_of is_ipv6 sha256 to_lower_case l req ≡ key_of is_ipv6 sha256 to_lower_case l req')
        ↔ (client_ip_key is_ipv6 req.ip ≡ client_ip_key is_ipv6 req'.ip)
  unfolding key_of
  key_of_address Limiter.global req req' h = (λ e. e, λ e. e)
  key_of_address Limiter.user req req' h = (λ e. cc, λ e. cc)
  key_of_address Limiter.analytics req req' h = (λ e. cc, λ e. cc)
  key_of_address Limiter.switch_org req req' h = (λ e. cc, λ e. cc)
  key_of_address Limiter.password_reset_email req req' h = (λ e. cc, λ e. cc)
  key_of_address Limiter.password_reset_ip req req' h =
      prefixed (codes "password-reset-ip:") (client_ip_key is_ipv6 req.ip)
        (client_ip_key is_ipv6 req'.ip)
  key_of_address Limiter.email_verification_email req req' h = (λ e. cc, λ e. cc)
  key_of_address Limiter.email_verification_ip req req' h =
      prefixed (codes "email-verification-ip:") (client_ip_key is_ipv6 req.ip)
        (client_ip_key is_ipv6 req'.ip)
  key_of_address Limiter.register_ip req req' h =
      prefixed (codes "register-ip:") (client_ip_key is_ipv6 req.ip) (client_ip_key is_ipv6 req'.ip)
  key_of_address Limiter.login req req' h =
      prefixed (codes "login:") (client_ip_key is_ipv6 req.ip) (client_ip_key is_ipv6 req'.ip)
  key_of_address Limiter.auth_session req req' h =
      prefixed (codes "auth-session:") (client_ip_key is_ipv6 req.ip)
        (client_ip_key is_ipv6 req'.ip)

  -- The same for addresses whose groups are read.
  same_groups_iff :
      (l l' : Limiter) (req req' : LimitedRequest) (ip ip' : Text) (a b c d a' b' c' d' : ℕ)
      (r r' : List ℕ)
      → is_by_address l ≡ true
      → req.ip ≡ some ip
      → req'.ip ≡ some ip'
      → is_empty ip ≡ false
      → is_empty ip' ≡ false
      → ipv6_groups is_ipv6 ip ≡ some (a ∷ b ∷ c ∷ d ∷ r)
      → ipv6_groups is_ipv6 ip' ≡ some (a' ∷ b' ∷ c' ∷ d' ∷ r')
      → is_mapped (a ∷ b ∷ c ∷ d ∷ r) ≡ false
      → is_mapped (a' ∷ b' ∷ c' ∷ d' ∷ r') ≡ false
      → (redis_key is_ipv6 sha256 to_lower_case l req
          ≡ redis_key is_ipv6 sha256 to_lower_case l' req')
        ↔ ((l ≡ l') × (a ≡ a') × (b ≡ b') × (c ≡ c') × (d ≡ d'))
  unfolding redis_key
  same_groups_iff l l' req req' ip ip' a b c d a' b' c' d' r r' h p p' n n' g g' m m' =
      let (to, from) =
        client_ip_key_network_iff is_ipv6 ip ip' a b c d a' b' c' d' r r' n n' g g' m m' in
      let (keys_to, keys_from) = key_of_address l req req' h in
      (
        λ e.
            let (same, keys) = redis_key_same l l' req req' e in
            let keys_same : key_of is_ipv6 sha256 to_lower_case l req
                ≡ key_of is_ipv6 sha256 to_lower_case l req' =
              keys ∙ ap (λ k. key_of is_ipv6 sha256 to_lower_case k req') (sym same) in
            let addresses : client_ip_key is_ipv6 (some ip) ≡ client_ip_key is_ipv6 (some ip') =
              cc (keys_to keys_same) in
            let (ea, eb, ec, ed) = to addresses in (same, ea, eb, ec, ed),
        λ (same, ea, eb, ec, ed).
            let addresses : client_ip_key is_ipv6 (some ip) ≡ client_ip_key is_ipv6 (some ip') =
              from (ea, eb, ec, ed) in
            let keys : key_of is_ipv6 sha256 to_lower_case l req
                ≡ key_of is_ipv6 sha256 to_lower_case l req' =
              keys_from (cc) in
            cc,
      )

  -- Limiters that count by address count two requests together exactly when they are one limiter
  -- and the addresses, IPv6 ones written with all their groups in lower-case hexadecimal without
  -- leading zeros, have the same first four groups, which are a network of 64 bits. IPv4 addresses
  -- written as IPv6 ones are left out.
  pub redis_key_network_iff :
      (l l' : Limiter) (req req' : LimitedRequest) (a b c d a' b' c' d' : ℕ) (r r' : List ℕ)
      → is_by_address l ≡ true
      → req.ip ≡ some (written (a ∷ b ∷ c ∷ d ∷ r))
      → req'.ip ≡ some (written (a' ∷ b' ∷ c' ∷ d' ∷ r'))
      → is_ipv6 (written (a ∷ b ∷ c ∷ d ∷ r)) ≡ true
      → is_ipv6 (written (a' ∷ b' ∷ c' ∷ d' ∷ r')) ≡ true
      → is_mapped (a ∷ b ∷ c ∷ d ∷ r) ≡ false
      → is_mapped (a' ∷ b' ∷ c' ∷ d' ∷ r') ≡ false
      → (redis_key is_ipv6 sha256 to_lower_case l req
          ≡ redis_key is_ipv6 sha256 to_lower_case l' req')
        ↔ ((l ≡ l') × (a ≡ a') × (b ≡ b') × (c ≡ c') × (d ≡ d'))
  redis_key_network_iff l l' req req' a b c d a' b' c' d' r r' h p p' v v' m m' =
      same_groups_iff l l' req req' (written (a ∷ b ∷ c ∷ d ∷ r)) (written (a' ∷ b' ∷ c' ∷ d' ∷ r'))
        a b c d a' b' c' d' r r' h p p' (written_is_some a (b ∷ c ∷ d ∷ r))
        (written_is_some a' (b' ∷ c' ∷ d' ∷ r')) (ipv6_groups-written is_ipv6 a (b ∷ c ∷ d ∷ r) v)
        (ipv6_groups-written is_ipv6 a' (b' ∷ c' ∷ d' ∷ r') v') m m'
