-- ===== src/Config/Fields.antt =====
-- What the environment holds, once read: the variables that the schema names.
use lakira_backend.Base.{ℕ, Bool, true, false, Option}
use lakira_backend.Text.{Text}
use lakira_backend.Config.Reading.{Signed}

pub data NodeEnv : Type 0 where
  development test staging production : NodeEnv

pub data LogLevel : Type 0 where
  error warn info http verbose debug silly : LogLevel

pub data EmailProvider : Type 0 where
  console resend mailpit : EmailProvider

pub record DatabaseEnv : Type 0 where
  pub database_url : Option Text
  pub development_url : Option Text
  pub test_url : Option Text
  pub staging_url : Option Text
  pub production_url : Option Text
  pub host : Text
  pub port : Option Signed
  pub logging : Text
  pub pool_max : ℕ
  pub pool_min : ℕ
  pub ssl_reject_unauthorized : Bool
  pub ssl_ca : Option Text
  pub user : Option Text
  pub password : Option Text
  pub name : Option Text

pub record RedisEnv : Type 0 where
  pub url : Option Text
  pub host : Text
  pub port : Signed
  pub password : Option Text
  pub is_required : Bool

pub record BrokerEnv : Type 0 where
  pub url : Option Text
  pub is_enabled : Bool
  pub host : Text
  pub port : Signed
  pub user : Text
  pub password : Text
  pub vhost : Text
  pub prefetch : ℕ
  pub max_retries : ℕ
  pub retry_base_delay_ms : ℕ

pub record LimitsEnv : Type 0 where
  pub global_max : ℕ
  pub user_max : ℕ
  pub analytics_max : ℕ
  pub switch_org_max : ℕ
  pub verification_email_max : ℕ
  pub verification_ip_max : ℕ
  pub reset_email_max : ℕ
  pub reset_ip_max : ℕ
  pub login_max : ℕ
  pub auth_session_max : ℕ
  pub register_ip_max : ℕ

pub record SwitchesEnv : Type 0 where
  pub enable_dummy_endpoints : Bool
  pub disable_rate_limiting : Bool
  pub allow_test_http_server : Bool
  pub skip_db_lifecycle : Bool
  pub swagger_require_auth : Bool

pub record RawEnv : Type 0 where
  pub node_env : NodeEnv
  pub port : Signed
  pub jwt_secret : Text
  pub access_token_ttl_sec : ℕ
  pub refresh_token_ttl_days : ℕ
  pub invite_token_ttl_days : ℕ
  pub verification_ttl_sec : ℕ
  pub log_level : LogLevel
  pub email_provider : EmailProvider
  pub trust_proxy : ℕ
  pub database : DatabaseEnv
  pub redis : RedisEnv
  pub broker : BrokerEnv
  pub limits : LimitsEnv
  pub switches : SwitchesEnv

abbrev pub is_production : NodeEnv → Bool
is_production NodeEnv.production = true
is_production _ = false

abbrev pub is_staging : NodeEnv → Bool
is_staging NodeEnv.staging = true
is_staging _ = false

abbrev pub is_test : NodeEnv → Bool
is_test NodeEnv.test = true
is_test _ = false

-- `["development", "test"].includes(nodeEnv)`
abbrev pub is_local : NodeEnv → Bool
is_local NodeEnv.development = true
is_local NodeEnv.test = true
is_local _ = false
