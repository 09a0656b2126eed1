-- ===== src/Config/Refusals.antt =====
-- What the schema's `superRefine` refuses. `parse_url` is the runtime's URL, `decode` its
-- decodeURIComponent; both may throw.
use lakira_backend.Base.{
  ℕ, Bool, true, false, not, ◌&&◌, ◌||◌, Option, none, some, List, [], ◌∷◌, ◌++◌, ◌==◌, ltb, length,
  if◌then◌else◌,
}
use lakira_backend.Text.{Text, codes, trim, text_eq, is_empty}
use lakira_backend.Config.Reading.{◌>>=◌}
use lakira_backend.Config.Fields.{
  LogLevel, EmailProvider, RawEnv, BrokerEnv, is_production, is_staging, is_local,
}

pub record Url : Type 0 where
  pub protocol : Text
  pub username : Text
  pub password : Text
  pub hostname : Text
  pub port : Text
  pub pathname : Text

pub record RabbitMqLogin : Type 0 where
  pub user : Text
  pub password : Text
  pub from_url : Bool

abbrev pub jwt_secret_min_length : ℕ
jwt_secret_min_length = 32

abbrev pub jwt_secret_template_placeholder : Text
jwt_secret_template_placeholder = codes "replace-with-a-long-random-secret"

abbrev pub guest : Text
guest = codes "guest"

-- What follows a prefix.
unfoldable pub after_prefix : Text → Text → Option Text
after_prefix [] s = some s
after_prefix (p ∷ ps) [] = none
after_prefix (p ∷ ps) (c ∷ s) = if p == c then after_prefix ps s else none

abbrev is_found : Option Text → Bool
is_found none = false
is_found (some _) = true

unfoldable pub contains_text : Text → Text → Bool
contains_text p [] = is_found (after_prefix p [])
contains_text p (c ∷ s) = is_found (after_prefix p (c ∷ s)) || contains_text p s

abbrev closes : Option Text → Bool
closes none = false
closes (some []) = false
closes (some (_ ∷ s)) = contains_text (codes "-----END CERTIFICATE-----") s

-- `PEM_CERTIFICATE.test`
unfoldable pub is_pem_certificate : Text → Bool
is_pem_certificate [] = false
is_pem_certificate (c ∷ s) =
    closes (after_prefix (codes "-----BEGIN CERTIFICATE-----") (c ∷ s)) || is_pem_certificate s

-- `refuse(path)` under a condition
abbrev pub refuse_if : Bool → Text → List Text
refuse_if true path = path ∷ []
refuse_if false path = []

abbrev pub is_silly : LogLevel → Bool
is_silly LogLevel.silly = true
is_silly _ = false

abbrev pub is_console : EmailProvider → Bool
is_console EmailProvider.console = true
is_console _ = false

abbrev pub is_mailpit : EmailProvider → Bool
is_mailpit EmailProvider.mailpit = true
is_mailpit _ = false

abbrev pub bad_certificate : Option Text → Bool
bad_certificate none = false
bad_certificate (some ca) = not (is_pem_certificate ca)

-- A login that cannot be read is not judged.
abbrev pub guest_refusals : Option RabbitMqLogin → List Text
guest_refusals none = []
guest_refusals (some login) =
    refuse_if (text_eq login.user guest)
      (if login.from_url then codes "RABBITMQ_URL" else codes "RABBITMQ_USER")
    ++ refuse_if (text_eq login.password guest)
        (if login.from_url then codes "RABBITMQ_URL" else codes "RABBITMQ_PASSWORD")

unfoldable pub secret_refusals : RawEnv → List Text
secret_refusals env =
    refuse_if (ltb (length env.jwt_secret) jwt_secret_min_length) (codes "JWT_SECRET")
    ++ refuse_if (text_eq (trim env.jwt_secret) jwt_secret_template_placeholder)
        (codes "JWT_SECRET")

-- `data.NODE_ENV === "production" || data.NODE_ENV === "staging"`
abbrev pub is_deployed : RawEnv → Bool
is_deployed env = is_production env.node_env || is_staging env.node_env

module _ (parse_url : Text → Option Url) (decode : Text → Option Text) where
  abbrev pub login_of_url : Url → Option RabbitMqLogin
  login_of_url url =
      if is_empty url.username && is_empty url.password
      then some (record { user = guest; password = guest; from_url = true })
      else do
        user ← decode url.username
        password ← decode url.password
        some (record { user = user; password = password; from_url = true })

  -- An empty URL counts as none.
  unfoldable pub rabbit_mq_login : BrokerEnv → Option RabbitMqLogin
  rabbit_mq_login broker =
      let fields : Option RabbitMqLogin =
        some (record { user = broker.user; password = broker.password; from_url = false }) in
      elim broker.url [
        | none ↦ fields
        | some text ↦ if is_empty text then fields else parse_url text >>= login_of_url
      ]

  -- The refusals below the early return.
  unfoldable pub deployed_refusals : RawEnv → List Text
  deployed_refusals env =
      refuse_if (is_production env.node_env && not env.database.ssl_reject_unauthorized)
        (codes "DB_SSL_REJECT_UNAUTHORIZED")
      ++ (refuse_if env.switches.disable_rate_limiting (codes "DISABLE_RATE_LIMITING")
          ++ (refuse_if env.switches.allow_test_http_server (codes "ALLOW_TEST_HTTP_SERVER")
              ++ (refuse_if (not env.switches.swagger_require_auth) (codes "SWAGGER_REQUIRE_AUTH")
                  ++ (refuse_if (text_eq env.database.logging (codes "true")) (codes "DB_LOGGING")
                      ++ (refuse_if env.switches.skip_db_lifecycle (codes "SKIP_DB_LIFECYCLE")
                          ++ (refuse_if (is_silly env.log_level) (codes "LOG_LEVEL")
                              ++ (refuse_if
                                    (is_production env.node_env && is_mailpit env.email_provider)
                                    (codes "EMAIL_PROVIDER")
                                  ++ (if env.broker.is_enabled
                                      then guest_refusals (rabbit_mq_login env.broker)
                                      else []))))))))

  -- The variables that are refused; none where the environment is accepted.
  unfoldable pub refusals : RawEnv → List Text
  refusals env =
      refuse_if (ltb env.database.pool_max env.database.pool_min) (codes "DB_POOL_MIN")
      ++ (refuse_if (bad_certificate env.database.ssl_ca) (codes "DB_SSL_CA")
          ++ (refuse_if (is_console env.email_provider && not (is_local env.node_env))
                (codes "EMAIL_PROVIDER")
              ++ (if is_deployed env then secret_refusals env ++ deployed_refusals env else [])))
