-- ===== src/Config/Normalizing.antt =====
-- The connection URLs, spread over the fields, and `buildEnv`. What is missing is thrown.
use lakira_backend.Base.{
  Bool, true, false, not, ◌&&◌, ◌||◌, Option, none, some, List, [], ◌∷◌, ◌==◌, if◌then◌else◌,
}
use lakira_backend.Text.{Text, codes, text_eq, is_empty}
use lakira_backend.Messaging.RetryPolicy.{digits_value}
use lakira_backend.Config.Reading.{Vars, Signed, ◌>>=◌, ◌>>◌}
use lakira_backend.Config.Fields.{NodeEnv, RawEnv, DatabaseEnv, RedisEnv, BrokerEnv}
use lakira_backend.Config.Schema.{parse_env}
use lakira_backend.Config.Refusals.{Url, rabbit_mq_login, refusals}

-- `Number(url.port)`; the runtime's URL has only digits there.
abbrev pub port_of : Text → Signed
port_of s = record { is_negative = false; size = digits_value 0 s }

abbrev pub guard : Bool → Option (Unit {0})
guard true = some tt
guard false = none

-- `replace(/^\//, "")`
abbrev pub without_slash : Text → Text
without_slash [] = []
without_slash (c ∷ s) = if c == b'/' then s else c ∷ s

abbrev pub specific_url : NodeEnv → DatabaseEnv → Option Text
specific_url NodeEnv.development d = d.development_url
specific_url NodeEnv.test d = d.test_url
specific_url NodeEnv.staging d = d.staging_url
specific_url NodeEnv.production d = d.production_url

abbrev pub with_specific_url : NodeEnv → Option Text → DatabaseEnv → DatabaseEnv
with_specific_url NodeEnv.development url d = record d { development_url = url }
with_specific_url NodeEnv.test url d = record d { test_url = url }
with_specific_url NodeEnv.staging url d = record d { staging_url = url }
with_specific_url NodeEnv.production url d = record d { production_url = url }

-- `a ?? b`
abbrev pub or_else : Option Text → Option Text → Option Text
or_else none b = b
or_else (some a) _ = some a

-- A text that is there and not empty.
abbrev pub is_truthy : Option Text → Bool
is_truthy none = false
is_truthy (some s) = not (is_empty s)

module _ (parse_url : Text → Option Url) (decode : Text → Option Text) where
  -- `field ?? decodeURIComponent(part)`, where the part is there
  abbrev pub fill_from : Text → Option Text → Option (Option Text)
  fill_from part (some s) = some (some s)
  fill_from part none = if is_empty part then some none else decode part >>= λ s. some (some s)

  abbrev pub spread_database : NodeEnv → Text → DatabaseEnv → Option DatabaseEnv
  spread_database node_env connection_url d = do
    url ← parse_url connection_url
    user ← fill_from url.username d.user
    password ← fill_from url.password d.password
    name ← fill_from (without_slash url.pathname) d.name
    let filled = record d {
      user = user;
      password = password;
      name = name;
      host = if is_empty url.hostname then d.host else url.hostname;
      port = if is_empty url.port then d.port else some (port_of url.port);
    }
    some (
        with_specific_url node_env (or_else (specific_url node_env d) (some connection_url)) filled)

  abbrev pub spread_if_set : NodeEnv → Option Text → DatabaseEnv → Option DatabaseEnv
  spread_if_set node_env none d = some d
  spread_if_set node_env (some s) d = if is_empty s then some d else spread_database node_env s d

  unfoldable pub normalize_database_config : RawEnv → Option RawEnv
  normalize_database_config env = do
    database ←
        spread_if_set env.node_env
          (or_else (specific_url env.node_env env.database) env.database.database_url) env.database
    guard (is_truthy database.user && is_truthy database.password && is_truthy database.name)
    some (record env { database = database })

  abbrev pub spread_redis : RedisEnv → Text → Option RedisEnv
  spread_redis redis text = do
    url ← parse_url text
    guard (text_eq url.protocol (codes "redis:") || text_eq url.protocol (codes "rediss:"))
    password ← fill_from url.password redis.password
    some (record redis {
      host = if is_empty url.hostname then redis.host else url.hostname;
      port = if is_empty url.port then redis.port else port_of url.port;
      password = password;
    })

  unfoldable pub normalize_redis_config : RawEnv → Option RawEnv
  normalize_redis_config env = elim env.redis.url [
    | none ↦ some env
    | some text ↦
        if is_empty text
        then some env
        else spread_redis env.redis text >>= λ redis. some (record env { redis = redis })
  ]

  abbrev pub spread_broker : BrokerEnv → Text → Option BrokerEnv
  spread_broker broker text = do
    url ← parse_url text
    guard (text_eq url.protocol (codes "amqp:") || text_eq url.protocol (codes "amqps:"))
    login ← rabbit_mq_login parse_url decode broker
    let vhost = without_slash url.pathname
    decoded ← if is_empty vhost then some broker.vhost else decode vhost
    some (record broker {
      host = if is_empty url.hostname then broker.host else url.hostname;
      port = if is_empty url.port then broker.port else port_of url.port;
      user = login.user;
      password = login.password;
      vhost = decoded;
    })

  unfoldable pub normalize_rabbit_mq_config : RawEnv → Option RawEnv
  normalize_rabbit_mq_config env = elim env.broker.url [
    | none ↦ some env
    | some text ↦
        if is_empty text
        then some env
        else spread_broker env.broker text >>= λ broker. some (record env { broker = broker })
  ]

  abbrev pub is_unrefused : List Text → Bool
  is_unrefused [] = true
  is_unrefused (_ ∷ _) = false

  abbrev pub normalize : RawEnv → Option RawEnv
  normalize env = do
    with_database ← normalize_database_config env
    with_redis ← normalize_redis_config with_database
    normalize_rabbit_mq_config with_redis

  unfoldable pub build_env : (to_lower_case : Text → Text) → Vars → Option RawEnv
  build_env to_lower_case vars = do
    parsed ← parse_env to_lower_case vars
    if is_unrefused (refusals parse_url decode parsed) then normalize parsed else none
