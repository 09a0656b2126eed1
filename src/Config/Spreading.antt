-- ===== src/Config/Spreading.antt =====
-- What the spreading of the URLs keeps.
use lakira_backend.Base.{
  ◌≡◌, refl, true, false, inl, inr, Option, none, some, arith, Bool-cases, Option-cases,
}
use lakira_backend.Text.{Text}
use lakira_backend.Config.Reading.{◌>>=◌}
use lakira_backend.Config.Fields.{NodeEnv, RawEnv, DatabaseEnv, BrokerEnv}
use lakira_backend.Config.Refusals.{Url, RabbitMqLogin, rabbit_mq_login}
use lakira_backend.Config.Normalizing.{
  is_truthy, spread_broker, or_else, specific_url, spread_if_set, normalize_database_config,
  normalize_redis_config, normalize_rabbit_mq_config,
}

pub >>=-eq-some :
    {A B : Type 0} (m : Option A) (f : A → Option B) (b : B)
    → (m >>= f) ≡ some b
    → (a : A) × (m ≡ some a) × (f a ≡ some b)
>>=-eq-some none f b e = cc
>>=-eq-some (some a) f b e = (a, refl, e)

text_of : (o : Option Text) → is_truthy o ≡ true → (s : Text) × (o ≡ some s)
text_of none h = cc
text_of (some s) h = (s, refl)

module _ (parse_url : Text → Option Url) (decode : Text → Option Text) where
  spread_if_set_keeps :
      (n : NodeEnv) (s : Option Text) (d out : DatabaseEnv)
      → spread_if_set parse_url decode n s d ≡ some out
      → (out.logging ≡ d.logging) × (out.ssl_reject_unauthorized ≡ d.ssl_reject_unauthorized)
  spread_if_set_keeps n none d out e = ground arith
  spread_if_set_keeps NodeEnv.development (some s) d out e = ground arith
  spread_if_set_keeps NodeEnv.test (some s) d out e = ground arith
  spread_if_set_keeps NodeEnv.staging (some s) d out e = ground arith
  spread_if_set_keeps NodeEnv.production (some s) d out e = ground arith

  -- The database's spread keeps what the refusals judged.
  pub normalize_database_config_keeps :
      (env out : RawEnv)
      → normalize_database_config parse_url decode env ≡ some out
      → (out ≡ record env { database = out.database })
        × (out.database.logging ≡ env.database.logging)
        × (out.database.ssl_reject_unauthorized ≡ env.database.ssl_reject_unauthorized)
  unfolding normalize_database_config
  normalize_database_config_keeps env out e =
      let url = or_else (specific_url env.node_env env.database) env.database.database_url in
      let (database, p, q) =
        >>=-eq-some (spread_if_set parse_url decode env.node_env url env.database) _ out e in
      let kept = spread_if_set_keeps env.node_env url env.database database p in ground arith

  pub normalize_redis_config_keeps :
      (env out : RawEnv)
      → normalize_redis_config parse_url decode env ≡ some out
      → out ≡ record env { redis = out.redis }
  unfolding normalize_redis_config
  normalize_redis_config_keeps env out e = ground arith

  spread_broker-login :
      (b out : BrokerEnv) (text : Text)
      → spread_broker parse_url decode b text ≡ some out
      → (l : RabbitMqLogin) × (rabbit_mq_login parse_url decode b ≡ some l)
        × (out.user ≡ l.user)
        × (out.password ≡ l.password)
        × (out.is_enabled ≡ b.is_enabled)
  spread_broker-login b out text e = elim (Option-cases (parse_url text)) [
    | inl p ↦ cc
    | inr (url, p) ↦ elim (Option-cases (rabbit_mq_login parse_url decode b)) [
      | inl q ↦ absurd (ground arith)
      | inr (l, q) ↦ (l, q, ground arith, ground arith, ground arith)
    ]
  ]

  rabbit_mq_login_of_fields :
      (b : BrokerEnv)
      → is_truthy b.url ≡ false
      → rabbit_mq_login parse_url decode b
        ≡ some (record { user = b.user; password = b.password; from_url = false })
  unfolding rabbit_mq_login
  rabbit_mq_login_of_fields b h = ground arith

  -- The broker is left with the login that the refusals judged.
  pub normalize_rabbit_mq_config_keeps :
      (env out : RawEnv)
      → normalize_rabbit_mq_config parse_url decode env ≡ some out
      → (l : RabbitMqLogin) × (rabbit_mq_login parse_url decode env.broker ≡ some l)
        × (out.broker.user ≡ l.user)
        × (out.broker.password ≡ l.password)
        × (out.broker.is_enabled ≡ env.broker.is_enabled)
        × (out ≡ record env { broker = out.broker })
  unfolding normalize_rabbit_mq_config
  normalize_rabbit_mq_config_keeps env out e = elim (Bool-cases (is_truthy env.broker.url)) [
    | inl set ↦
        let (text, at) = text_of env.broker.url set in
        let whole : (spread_broker parse_url decode env.broker text >>= λ (broker : BrokerEnv).
        some (record env { broker = broker }))
            ≡ some out =
          ground arith in
        let (broker, p, q) =
          >>=-eq-some (spread_broker parse_url decode env.broker text) _ out whole in
        let (l, login, user, password, enabled) = spread_broker-login env.broker broker text p in
        (l, login, ground arith, ground arith, ground arith, ground arith)
    | inr unset ↦
        let same : out ≡ env = ground arith in
        (
          record { user = env.broker.user; password = env.broker.password; from_url = false },
          rabbit_mq_login_of_fields env.broker unset,
          ground arith,
          ground arith,
          ground arith,
          ground arith,
        )
  ]
