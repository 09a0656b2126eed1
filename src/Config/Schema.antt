-- ===== src/Config/Schema.antt =====
-- The schema of the environment, field by field. `to_lower_case` is the runtime's. The variables
-- that are read as URLs, DSNs, origins or fractions, and those of the charts, are left out.
use lakira_backend.Base.{not, ◌||◌, Option, none, some, List, [], ◌∷◌, if◌then◌else◌, get_or_else}
use lakira_backend.Text.{Text, codes, trim, text_eq, is_empty}
use lakira_backend.Config.Reading.{
  Vars, ◌>>=◌, read_number, read_positive, read_non_negative, read_digits_only, read_from_one,
  read_switch, read_word, parse_int,
}
use lakira_backend.Config.Fields.{
  NodeEnv, LogLevel, EmailProvider, DatabaseEnv, RedisEnv, BrokerEnv, LimitsEnv, SwitchesEnv,
  RawEnv, is_production, is_staging, is_test, is_local,
}

abbrev node_words : List (Text × NodeEnv)
node_words =
    (codes "development", NodeEnv.development)
    ∷ (codes "test", NodeEnv.test)
    ∷ (codes "staging", NodeEnv.staging)
    ∷ (codes "production", NodeEnv.production)
    ∷ []

abbrev level_words : List (Text × LogLevel)
level_words =
    (codes "error", LogLevel.error)
    ∷ (codes "warn", LogLevel.warn)
    ∷ (codes "info", LogLevel.info)
    ∷ (codes "http", LogLevel.http)
    ∷ (codes "verbose", LogLevel.verbose)
    ∷ (codes "debug", LogLevel.debug)
    ∷ (codes "silly", LogLevel.silly)
    ∷ []

abbrev provider_words : List (Text × EmailProvider)
provider_words =
    (codes "console", EmailProvider.console)
    ∷ (codes "resend", EmailProvider.resend)
    ∷ (codes "mailpit", EmailProvider.mailpit)
    ∷ []

-- A missing variable takes the default; a present one is judged.
abbrev pub default_or : {A : Type 0} → Option Text → A → (Text → Option A) → Option A
default_or none other f = some other
default_or (some s) other f = f s

abbrev require_text : Option Text → Option Text
require_text none = none
require_text (some s) = if is_empty s then none else some s

-- `z.string().min(1).optional()`
abbrev optional_filled : Option Text → Option (Option Text)
optional_filled none = some none
optional_filled (some s) = if is_empty s then none else some (some s)

-- `val.replace(/\\n/g, "\n")`
unfoldable pub unescape_breaks : Text → Text
unescape_breaks [] = []
unescape_breaks (c ∷ []) = c ∷ []
unescape_breaks (c ∷ d ∷ s) =
    let rest = unescape_breaks s in
    let kept = unescape_breaks (d ∷ s) in
    if text_eq (c ∷ d ∷ []) (92 ∷ b'n' ∷ []) then 10 ∷ rest else c ∷ kept

abbrev read_ca : Option Text → Option Text
read_ca none = none
read_ca (some s) = if is_empty (trim s) then none else some (unescape_breaks s)

abbrev read_database : (to_lower_case : Text → Text) → Vars → NodeEnv → Option DatabaseEnv
read_database to_lower_case vars node_env = do
  pool_max ← read_from_one vars (codes "DB_POOL_MAX") 5
  pool_min ← read_digits_only vars (codes "DB_POOL_MIN") 0
  user ← optional_filled (vars (codes "DB_USER"))
  password ← optional_filled (vars (codes "DB_PASSWORD"))
  name ← optional_filled (vars (codes "DB_NAME"))
  some (record {
    database_url = vars (codes "DATABASE_URL");
    development_url = vars (codes "DEVELOPMENT_DATABASE_URL");
    test_url = vars (codes "TEST_DATABASE_URL");
    staging_url = vars (codes "STAGING_DATABASE_URL");
    production_url = vars (codes "PRODUCTION_DATABASE_URL");
    host =
        get_or_else (vars (codes "DB_HOST"))
          (if is_test node_env then codes "db" else codes "127.0.0.1");
    port = parse_int (get_or_else (vars (codes "DB_PORT")) (codes "5432"));
    logging = get_or_else (vars (codes "DB_LOGGING")) (codes "false");
    pool_max = pool_max;
    pool_min = pool_min;
    ssl_reject_unauthorized = not (
        text_eq
          (to_lower_case (
            get_or_else (vars (codes "DB_SSL_REJECT_UNAUTHORIZED")) (
              if is_production node_env || is_staging node_env
              then codes "true"
              else codes "false")))
          (codes "false"));
    ssl_ca = read_ca (vars (codes "DB_SSL_CA"));
    user = user;
    password = password;
    name = name;
  })

abbrev read_redis : Vars → NodeEnv → Option RedisEnv
read_redis vars node_env = do
  port ← read_number vars (codes "REDIS_PORT") (codes "6379")
  some (record {
    url = vars (codes "REDIS_URL");
    host =
        get_or_else (vars (codes "REDIS_HOST"))
          (if is_test node_env then codes "redis" else codes "127.0.0.1");
    port = port;
    password = vars (codes "REDIS_PASSWORD");
    is_required =
        read_switch vars (codes "REDIS_REQUIRED")
          (if is_test node_env then codes "false" else codes "true");
  })

abbrev read_broker : Vars → Option BrokerEnv
read_broker vars = do
  port ← read_number vars (codes "RABBITMQ_PORT") (codes "5672")
  prefetch ← read_positive vars (codes "RABBITMQ_PREFETCH") (codes "10")
  max_retries ← read_non_negative vars (codes "RABBITMQ_MAX_RETRIES") (codes "5")
  delay ← read_positive vars (codes "RABBITMQ_RETRY_BASE_DELAY_MS") (codes "2000")
  some (record {
    url = vars (codes "RABBITMQ_URL");
    is_enabled = read_switch vars (codes "RABBITMQ_ENABLED") (codes "false");
    host = get_or_else (vars (codes "RABBITMQ_HOST")) (codes "127.0.0.1");
    port = port;
    user = get_or_else (vars (codes "RABBITMQ_USER")) (codes "guest");
    password = get_or_else (vars (codes "RABBITMQ_PASSWORD")) (codes "guest");
    vhost = get_or_else (vars (codes "RABBITMQ_VHOST")) (codes "/");
    prefetch = prefetch;
    max_retries = max_retries;
    retry_base_delay_ms = delay;
  })

abbrev read_limits : Vars → Option LimitsEnv
read_limits vars = do
  global_max ← read_positive vars (codes "RATE_LIMIT_GLOBAL_MAX") (codes "100")
  user_max ← read_positive vars (codes "RATE_LIMIT_USER_MAX") (codes "50")
  analytics_max ← read_positive vars (codes "RATE_LIMIT_ANALYTICS_MAX") (codes "30")
  switch_org_max ← read_positive vars (codes "RATE_LIMIT_SWITCH_ORG_MAX") (codes "10")
  verification_email_max ←
      read_positive vars (codes "RATE_LIMIT_EMAIL_VERIFICATION_EMAIL_MAX") (codes "3")
  verification_ip_max ←
      read_positive vars (codes "RATE_LIMIT_EMAIL_VERIFICATION_IP_MAX") (codes "10")
  reset_email_max ← read_positive vars (codes "RATE_LIMIT_PASSWORD_RESET_EMAIL_MAX") (codes "3")
  reset_ip_max ← read_positive vars (codes "RATE_LIMIT_PASSWORD_RESET_IP_MAX") (codes "10")
  login_max ← read_positive vars (codes "RATE_LIMIT_LOGIN_MAX") (codes "50")
  auth_session_max ← read_positive vars (codes "RATE_LIMIT_AUTH_SESSION_MAX") (codes "50")
  register_ip_max ← read_positive vars (codes "RATE_LIMIT_REGISTER_IP_MAX") (codes "10")
  some (record {
    global_max = global_max;
    user_max = user_max;
    analytics_max = analytics_max;
    switch_org_max = switch_org_max;
    verification_email_max = verification_email_max;
    verification_ip_max = verification_ip_max;
    reset_email_max = reset_email_max;
    reset_ip_max = reset_ip_max;
    login_max = login_max;
    auth_session_max = auth_session_max;
    register_ip_max = register_ip_max;
  })

abbrev read_switches : Vars → NodeEnv → SwitchesEnv
read_switches vars node_env = record {
  enable_dummy_endpoints =
      read_switch vars (codes "ENABLE_DUMMY_ENDPOINTS")
        (if is_local node_env then codes "true" else codes "false");
  disable_rate_limiting = read_switch vars (codes "DISABLE_RATE_LIMITING") (codes "false");
  allow_test_http_server = read_switch vars (codes "ALLOW_TEST_HTTP_SERVER") (codes "false");
  skip_db_lifecycle = read_switch vars (codes "SKIP_DB_LIFECYCLE") (codes "false");
  swagger_require_auth =
      not (
        text_eq (get_or_else (vars (codes "SWAGGER_REQUIRE_AUTH")) (codes "true")) (codes "false"));
}

unfoldable pub read_node_env : (to_lower_case : Text → Text) → Vars → Option NodeEnv
read_node_env to_lower_case vars =
    default_or (vars (codes "NODE_ENV")) NodeEnv.development
      λ s. read_word node_words (to_lower_case s)

-- The object of `buildEnvSchema`, before its `superRefine`.
unfoldable pub parse_env : (to_lower_case : Text → Text) → Vars → Option RawEnv
parse_env to_lower_case vars = do
  node_env ← read_node_env to_lower_case vars
  port ← read_number vars (codes "PORT") (codes "5000")
  jwt_secret ← require_text (vars (codes "JWT_SECRET"))
  access_token_ttl_sec ← read_positive vars (codes "ACCESS_TOKEN_TTL_SEC") (codes "900")
  refresh_token_ttl_days ← read_positive vars (codes "REFRESH_TOKEN_TTL_DAYS") (codes "30")
  invite_token_ttl_days ← read_positive vars (codes "INVITE_TOKEN_TTL_DAYS") (codes "7")
  verification_ttl_sec ← read_positive vars (codes "EMAIL_VERIFICATION_TTL_SEC") (codes "86400")
  log_level ←
      default_or (vars (codes "LOG_LEVEL"))
        (if is_production node_env then LogLevel.http else LogLevel.debug) (read_word level_words)
  email_provider ←
      default_or (vars (codes "EMAIL_PROVIDER"))
        (if is_local node_env then EmailProvider.console else EmailProvider.resend)
        λ s. read_word provider_words (to_lower_case s)
  trust_proxy ← read_digits_only vars (codes "TRUST_PROXY") 1
  database ← read_database to_lower_case vars node_env
  redis ← read_redis vars node_env
  broker ← read_broker vars
  limits ← read_limits vars
  some (record {
    node_env = node_env;
    port = port;
    jwt_secret = jwt_secret;
    access_token_ttl_sec = access_token_ttl_sec;
    refresh_token_ttl_days = refresh_token_ttl_days;
    invite_token_ttl_days = invite_token_ttl_days;
    verification_ttl_sec = verification_ttl_sec;
    log_level = log_level;
    email_provider = email_provider;
    trust_proxy = trust_proxy;
    database = database;
    redis = redis;
    broker = broker;
    limits = limits;
    switches = read_switches vars node_env;
  })
