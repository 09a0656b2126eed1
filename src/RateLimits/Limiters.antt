-- ===== src/RateLimits/Limiters.antt =====
-- The limiters, with the keys that they count by. What express-rate-limit and rate-limit-redis do
-- with these options is theirs; `sha256` and `to_lower_case` are the runtime's.
use lakira_backend.Base.{ℕ, ◌*◌, Bool, not, ◌&&◌, ◌||◌, Option, none, some, ◌++◌, if◌then◌else◌}
use lakira_backend.Text.{Text, codes, trim, is_empty}
use lakira_backend.RateLimits.Addresses.{client_ip_key}

pub data Limiter : Type 0 where
  global user analytics switch_org : Limiter
  password_reset_email password_reset_ip : Limiter
  email_verification_email email_verification_ip : Limiter
  register_ip login auth_session : Limiter

-- What the keys read of a request: a field that is no string is missing.
pub record LimitedRequest : Type 0 where
  pub ip : Option Text
  pub user_id : Option Text
  pub user_email : Option Text
  pub body_email : Option Text

pub record LimitEnv : Type 0 where
  pub is_test : Bool
  pub redis_required : Bool
  pub redis_is_open : Bool
  pub disable_rate_limiting : Bool
  pub global_max : ℕ
  pub user_max : ℕ
  pub analytics_max : ℕ
  pub switch_org_max : ℕ
  pub password_reset_email_max : ℕ
  pub password_reset_ip_max : ℕ
  pub email_verification_email_max : ℕ
  pub email_verification_ip_max : ℕ
  pub register_ip_max : ℕ
  pub login_max : ℕ
  pub auth_session_max : ℕ

unfoldable pub store_name : Limiter → Text
store_name Limiter.global = codes "global"
store_name Limiter.user = codes "user"
store_name Limiter.analytics = codes "analytics"
store_name Limiter.switch_org = codes "switch-org"
store_name Limiter.password_reset_email = codes "password-reset-email"
store_name Limiter.password_reset_ip = codes "password-reset-ip"
store_name Limiter.email_verification_email = codes "email-verification-email"
store_name Limiter.email_verification_ip = codes "email-verification-ip"
store_name Limiter.register_ip = codes "register-ip"
store_name Limiter.login = codes "login"
store_name Limiter.auth_session = codes "auth-session"

abbrev minute_ms : ℕ
minute_ms = 60 * 1000

unfoldable pub window_ms : Limiter → ℕ
window_ms Limiter.global = 15 * minute_ms
window_ms Limiter.user = 15 * minute_ms
window_ms Limiter.analytics = minute_ms
window_ms Limiter.switch_org = 15 * minute_ms
window_ms Limiter.password_reset_email = 60 * minute_ms
window_ms Limiter.password_reset_ip = 60 * minute_ms
window_ms Limiter.email_verification_email = 60 * minute_ms
window_ms Limiter.email_verification_ip = 60 * minute_ms
window_ms Limiter.register_ip = 60 * minute_ms
window_ms Limiter.login = 15 * minute_ms
window_ms Limiter.auth_session = 15 * minute_ms

unfoldable pub max_of : LimitEnv → Limiter → ℕ
max_of env Limiter.global = env.global_max
max_of env Limiter.user = env.user_max
max_of env Limiter.analytics = env.analytics_max
max_of env Limiter.switch_org = env.switch_org_max
max_of env Limiter.password_reset_email = env.password_reset_email_max
max_of env Limiter.password_reset_ip = env.password_reset_ip_max
max_of env Limiter.email_verification_email = env.email_verification_email_max
max_of env Limiter.email_verification_ip = env.email_verification_ip_max
max_of env Limiter.register_ip = env.register_ip_max
max_of env Limiter.login = env.login_max
max_of env Limiter.auth_session = env.auth_session_max

unfoldable pub limit_message : Limiter → Text
limit_message Limiter.analytics = codes "Too many visualization requests, slow down."
limit_message Limiter.switch_org =
    codes "Too many organization switch requests, please try again later."
limit_message Limiter.password_reset_email =
    codes "Too many password reset requests, please try again later."
limit_message Limiter.password_reset_ip =
    codes "Too many password reset requests, please try again later."
limit_message Limiter.email_verification_email =
    codes "Too many verification email requests, please try again later."
limit_message Limiter.email_verification_ip =
    codes "Too many verification email requests, please try again later."
limit_message Limiter.register_ip = codes "Too many registration attempts, please try again later."
limit_message Limiter.login = codes "Too many login attempts, please try again later."
limit_message Limiter.global = codes "Too many requests, please try again later."
limit_message Limiter.user = codes "Too many requests, please try again later."
limit_message Limiter.auth_session = codes "Too many requests, please try again later."

-- `rl:${name}:`, or the memory of the process.
unfoldable pub store_prefix : Limiter → Text
store_prefix l = codes "rl:" ++ (store_name l ++ codes ":")

unfoldable pub maybe_create_store : LimitEnv → Limiter → Option Text
maybe_create_store env l =
    if env.is_test || (not env.redis_required && not env.redis_is_open)
    then none
    else some (store_prefix l)

-- The options that the limiter is made with.
pub record LimiterOptions : Type 0 where
  pub store : Option Text
  pub window : ℕ
  pub limit : ℕ
  pub message : Text

-- No options: the limiter lets every request through.
unfoldable pub create_rate_limiter : LimitEnv → Limiter → Option LimiterOptions
create_rate_limiter env l =
    if env.disable_rate_limiting
    then none
    else some (record {
      store = maybe_create_store env l;
      window = window_ms l;
      limit = max_of env l;
      message = limit_message l;
    })

-- A present text that is not empty.
abbrev pub truthy_or : Option Text → (Text → Text) → Text → Text
truthy_or none f other = other
truthy_or (some s) f other = if is_empty s then other else f s

module _ (is_ipv6 : Text → Bool) (sha256 to_lower_case : Text → Text) where
  -- src/utils/email-hash.ts
  unfoldable pub hash_email : Text → Text
  hash_email email = sha256 (to_lower_case (trim email))

  unfoldable pub normalize_email_key : Option Text → Option Text
  normalize_email_key none = none
  normalize_email_key (some email) =
      let trimmed = to_lower_case (trim email) in if is_empty trimmed then none else some trimmed

  unfoldable pub key_of : Limiter → LimitedRequest → Text
  key_of Limiter.global req = client_ip_key is_ipv6 req.ip
  key_of Limiter.user req =
      truthy_or req.user_id (λ id. codes "user:" ++ id) (client_ip_key is_ipv6 req.ip)
  key_of Limiter.analytics req =
      truthy_or req.user_id (λ id. codes "analytics:" ++ id) (client_ip_key is_ipv6 req.ip)
  key_of Limiter.switch_org req =
      truthy_or req.user_id (λ id. codes "switch-org:" ++ id) (client_ip_key is_ipv6 req.ip)
  key_of Limiter.password_reset_email req =
      truthy_or (normalize_email_key req.body_email)
        (λ email. codes "password-reset:email:" ++ hash_email email)
        (codes "password-reset:ip:" ++ client_ip_key is_ipv6 req.ip)
  key_of Limiter.password_reset_ip req = codes "password-reset-ip:" ++ client_ip_key is_ipv6 req.ip
  key_of Limiter.email_verification_email req =
      truthy_or req.user_email (λ email. codes "email-verification:email:" ++ hash_email email)
        (codes "email-verification:ip:" ++ client_ip_key is_ipv6 req.ip)
  key_of Limiter.email_verification_ip req =
      codes "email-verification-ip:" ++ client_ip_key is_ipv6 req.ip
  key_of Limiter.register_ip req = codes "register-ip:" ++ client_ip_key is_ipv6 req.ip
  key_of Limiter.login req = codes "login:" ++ client_ip_key is_ipv6 req.ip
  key_of Limiter.auth_session req = codes "auth-session:" ++ client_ip_key is_ipv6 req.ip

  -- The key that Redis counts under.
  unfoldable pub redis_key : Limiter → LimitedRequest → Text
  redis_key l req = store_prefix l ++ key_of l req
