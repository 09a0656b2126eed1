-- ===== src/Config/Tests.antt =====
-- A deployed environment that is accepted, and values that are refused.
use lakira_backend.Base.{◌≡◌, refl, true, false, Option, none, some, List, [], ◌∷◌, if◌then◌else◌}
use lakira_backend.Text.{Text, codes, trim, trim_start, text_eq}
use lakira_backend.Messaging.RetryPolicy.{digits_value}
use lakira_backend.Config.Reading.{
  Vars, parse_int, read_positive, read_non_negative, read_digits_only, read_from_one, read_word,
}
use lakira_backend.Config.Fields.{NodeEnv, LogLevel, EmailProvider, RawEnv}
use lakira_backend.Config.Schema.{read_node_env, parse_env, unescape_breaks}
use lakira_backend.Config.Refusals.{
  Url, is_pem_certificate, after_prefix, contains_text, rabbit_mq_login, deployed_refusals,
  secret_refusals, refusals,
}
use lakira_backend.Config.Normalizing.{
  normalize_database_config, normalize_redis_config, normalize_rabbit_mq_config, build_env,
}
use lakira_backend.Config.Hardening.{IsHardened, build_env-IsHardened}

abbrev Assigned : Type 0
Assigned = List (Text × Text)

vars_of : Assigned → Vars
vars_of [] name = none
vars_of ((n, v) ∷ rest) name = if text_eq n name then some v else vars_of rest name

abbrev unchanged : Text → Text
unchanged s = s

abbrev itself : Text → Option Text
itself s = some s

-- Every URL is this one.
abbrev broker_url : Text → Option Url
broker_url s = some (record {
  protocol = codes "amqps:";
  username = codes "app";
  password = codes "s3cret";
  hostname = codes "mq";
  port = codes "5671";
  pathname = codes "/main";
})

abbrev deployed_vars : Assigned
deployed_vars =
    (codes "NODE_ENV", codes "production")
    ∷ (codes "JWT_SECRET", codes "0123456789abcdef0123456789abcdef")
    ∷ (codes "DB_USER", codes "u")
    ∷ (codes "DB_PASSWORD", codes "p")
    ∷ (codes "DB_NAME", codes "n")
    ∷ (codes "RABBITMQ_ENABLED", codes "true")
    ∷ (codes "RABBITMQ_URL", codes "amqps://app:s3cret@mq:5671/main")
    ∷ []

abbrev built_env : RawEnv
built_env = record {
  node_env = NodeEnv.production;
  port = record { is_negative = false; size = 5000 };
  jwt_secret = codes "0123456789abcdef0123456789abcdef";
  access_token_ttl_sec = 900;
  refresh_token_ttl_days = 30;
  invite_token_ttl_days = 7;
  verification_ttl_sec = 86400;
  log_level = LogLevel.http;
  email_provider = EmailProvider.resend;
  trust_proxy = 1;
  database = record {
    database_url = none;
    development_url = none;
    test_url = none;
    staging_url = none;
    production_url = none;
    host = codes "127.0.0.1";
    port = some (record { is_negative = false; size = 5432 });
    logging = codes "false";
    pool_max = 5;
    pool_min = 0;
    ssl_reject_unauthorized = true;
    ssl_ca = none;
    user = some (codes "u");
    password = some (codes "p");
    name = some (codes "n");
  };
  redis = record {
    url = none;
    host = codes "127.0.0.1";
    port = record { is_negative = false; size = 6379 };
    password = none;
    is_required = true;
  };
  broker = record {
    url = some (codes "amqps://app:s3cret@mq:5671/main");
    is_enabled = true;
    host = codes "mq";
    port = record { is_negative = false; size = 5671 };
    user = codes "app";
    password = codes "s3cret";
    vhost = codes "main";
    prefetch = 10;
    max_retries = 5;
    retry_base_delay_ms = 2000;
  };
  limits = record {
    global_max = 100;
    user_max = 50;
    analytics_max = 30;
    switch_org_max = 10;
    verification_email_max = 3;
    verification_ip_max = 10;
    reset_email_max = 3;
    reset_ip_max = 10;
    login_max = 50;
    auth_session_max = 50;
    register_ip_max = 10;
  };
  switches = record {
    enable_dummy_endpoints = false;
    disable_rate_limiting = false;
    allow_test_http_server = false;
    skip_db_lifecycle = false;
    swagger_require_auth = true;
  };
}

built : build_env broker_url itself unchanged (vars_of deployed_vars) ≡ some built_env
unfolding vars_of build_env parse_env refusals deployed_refusals secret_refusals rabbit_mq_login
    normalize_database_config normalize_redis_config normalize_rabbit_mq_config read_node_env
    parse_int read_positive read_non_negative read_digits_only read_from_one read_word digits_value
    text_eq trim trim_start unescape_breaks
built = refl

build_env-IsHardened_example : IsHardened built_env
build_env-IsHardened_example =
    build_env-IsHardened broker_url itself unchanged (vars_of deployed_vars) built_env built refl

-- A number with text behind it is read, and one with none before it is not.
port_with_text : parse_int (codes " 80x") ≡ some (record { is_negative = false; size = 80 })
unfolding parse_int digits_value trim_start
port_with_text = refl

certificate :
    is_pem_certificate (codes "x-----BEGIN CERTIFICATE-----y-----END CERTIFICATE-----") ≡ true
unfolding is_pem_certificate after_prefix contains_text
certificate = refl

empty_certificate :
    is_pem_certificate (codes "-----BEGIN CERTIFICATE----------END CERTIFICATE-----") ≡ false
unfolding is_pem_certificate after_prefix contains_text
empty_certificate = refl
