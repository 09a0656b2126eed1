-- ===== src/Config/Hardening.antt =====
-- What holds of an environment that was accepted for production or staging.
use lakira_backend.Base.{
  ◌≤◌, ◌≡◌, ◌≢◌, refl, sym, ap, ◌∙◌, true, false, ◌||◌, Option, none, some, List, [], ◌∷◌, length,
  arith, if◌then◌else◌,
}
use lakira_backend.Text.{Text, codes, trim, text_eq}
use lakira_backend.Config.Reading.{Vars, ◌>>=◌}
use lakira_backend.Config.Fields.{
  NodeEnv, LogLevel, EmailProvider, RawEnv, DatabaseEnv, BrokerEnv, SwitchesEnv, is_production,
  is_staging,
}
use lakira_backend.Config.Schema.{parse_env}
use lakira_backend.Config.Refusals.{
  Url, RabbitMqLogin, jwt_secret_template_placeholder, guest, is_silly, is_deployed,
  rabbit_mq_login, refusals,
}
use lakira_backend.Config.Normalizing.{
  normalize, is_unrefused, normalize_database_config, normalize_redis_config,
  normalize_rabbit_mq_config, build_env,
}
use lakira_backend.Config.RefusalLaws.{
  ne_of_text_eq, deployed_refusals_inv, broker_refusals_inv, refusals_inv,
}
use lakira_backend.Config.Spreading.{
  >>=-eq-some, normalize_database_config_keeps, normalize_redis_config_keeps,
  normalize_rabbit_mq_config_keeps,
}

-- The settings that a deployed environment must have.
pub record IsHardened (env : RawEnv) : Type 0 where
  pub long_secret : 32 ≤ length env.jwt_secret
  pub own_secret : trim env.jwt_secret ≢ jwt_secret_template_placeholder
  pub limited : env.switches.disable_rate_limiting ≡ false
  pub no_test_server : env.switches.allow_test_http_server ≡ false
  pub guarded_docs : env.switches.swagger_require_auth ≡ true
  pub whole_lifecycle : env.switches.skip_db_lifecycle ≡ false
  pub no_sql_logged : env.database.logging ≢ codes "true"
  pub no_flood : env.log_level ≢ LogLevel.silly
  pub no_console : env.email_provider ≢ EmailProvider.console
  pub verified_database :
      env.node_env ≡ NodeEnv.production → env.database.ssl_reject_unauthorized ≡ true
  pub mailed : env.node_env ≡ NodeEnv.production → env.email_provider ≢ EmailProvider.mailpit
  pub own_broker_login :
      env.broker.is_enabled ≡ true → (env.broker.user ≢ guest) × (env.broker.password ≢ guest)

module _ (parse_url : Text → Option Url) (decode : Text → Option Text) where
  accepted_inv :
      (rs : List Text) (k : Option RawEnv) (env : RawEnv)
      → (if is_unrefused parse_url decode rs then k else none) ≡ some env
      → (rs ≡ []) × (k ≡ some env)
  accepted_inv [] k env e = (refl, e)
  accepted_inv (r ∷ rs) k env e = cc

  -- What was judged of the parsed environment holds of one that agrees with it.
  carried-IsHardened :
      (parsed env : RawEnv) (l : RabbitMqLogin)
      → refusals parse_url decode parsed ≡ []
      → is_deployed env ≡ true
      → env.node_env ≡ parsed.node_env
      → env.jwt_secret ≡ parsed.jwt_secret
      → env.switches ≡ parsed.switches
      → env.log_level ≡ parsed.log_level
      → env.email_provider ≡ parsed.email_provider
      → env.database.logging ≡ parsed.database.logging
      → env.database.ssl_reject_unauthorized ≡ parsed.database.ssl_reject_unauthorized
      → env.broker.is_enabled ≡ parsed.broker.is_enabled
      → rabbit_mq_login parse_url decode parsed.broker ≡ some l
      → env.broker.user ≡ l.user
      → env.broker.password ≡ l.password
      → IsHardened env
  carried-IsHardened parsed env l r d node secret switches level provider sql ssl enabled login user
        password =
      let d' : is_deployed parsed ≡ true =
        ap (λ n. is_production n || is_staging n) (sym node) ∙ d in
      let (console, short, template, rest) = refusals_inv parse_url decode parsed r d' in
      let (unverified, unlimited, test, docs, logged, lifecycle, flood, caught, broker) =
        deployed_refusals_inv parse_url decode parsed rest in
      record {
        long_secret = ground arith;
        own_secret =
            ne_of_text_eq (trim env.jwt_secret) jwt_secret_template_placeholder
              (ap (λ s. text_eq (trim s) jwt_secret_template_placeholder) secret ∙ template);
        limited = ap (λ (x : SwitchesEnv). x.disable_rate_limiting) switches ∙ unlimited;
        no_test_server = ap (λ (x : SwitchesEnv). x.allow_test_http_server) switches ∙ test;
        guarded_docs = ground arith;
        whole_lifecycle = ap (λ (x : SwitchesEnv). x.skip_db_lifecycle) switches ∙ lifecycle;
        no_sql_logged =
            ne_of_text_eq env.database.logging (codes "true")
              (ap (λ s. text_eq s (codes "true")) sql ∙ logged);
        no_flood = λ e. cc (ap is_silly (sym level ∙ e));
        no_console = λ e. ground arith;
        verified_database = λ e. ground arith;
        mailed = λ e e'. ground arith;
        own_broker_login = λ e.
            let (u, p) =
              broker_refusals_inv parse_url decode parsed l broker (sym enabled ∙ e) login in
            (λ q. u (sym user ∙ q), λ q. p (sym password ∙ q));
      }

  -- An environment that is built for production or staging is hardened: its secret is long and
  -- its own, its limiters, its documentation's guard and its bootstrap are on, it logs neither
  -- SQL nor everything, it sends its emails, production checks its database's certificate, and
  -- an enabled broker is logged in to, after the URL is spread, by neither guest's name nor
  -- guest's password.
  pub build_env-IsHardened :
      (to_lower_case : Text → Text) (vars : Vars) (env : RawEnv)
      → build_env parse_url decode to_lower_case vars ≡ some env
      → is_deployed env ≡ true
      → IsHardened env
  unfolding build_env
  build_env-IsHardened to_lower_case vars env e d =
      let (parsed, _, e1) =
        >>=-eq-some (parse_env to_lower_case vars)
          (λ (p : RawEnv).
            if is_unrefused parse_url decode (refusals parse_url decode p)
            then normalize parse_url decode p
            else none)
          env e in
      let (accepted, e2) =
        accepted_inv (refusals parse_url decode parsed) (normalize parse_url decode parsed) env
          e1 in
      let (with_database, p, e3) =
        >>=-eq-some (normalize_database_config parse_url decode parsed)
          (λ (x : RawEnv). normalize_redis_config parse_url decode x >>= λ (y : RawEnv).
            normalize_rabbit_mq_config parse_url decode y)
          env e2 in
      let (with_redis, q, e4) =
        >>=-eq-some (normalize_redis_config parse_url decode with_database)
          (λ (y : RawEnv). normalize_rabbit_mq_config parse_url decode y) env e3 in
      let (l, login, user, password, enabled, kept) =
        normalize_rabbit_mq_config_keeps parse_url decode with_redis env e4 in
      let kept_redis = normalize_redis_config_keeps parse_url decode with_database with_redis q in
      let (kept_database, logging, ssl) =
        normalize_database_config_keeps parse_url decode parsed with_database p in
      let node : env.node_env ≡ parsed.node_env =
        ap (λ (x : RawEnv). x.node_env) kept
        ∙ ap (λ (x : RawEnv). x.node_env) kept_redis
        ∙ ap (λ (x : RawEnv). x.node_env) kept_database in
      let secret : env.jwt_secret ≡ parsed.jwt_secret =
        ap (λ (x : RawEnv). x.jwt_secret) kept
        ∙ ap (λ (x : RawEnv). x.jwt_secret) kept_redis
        ∙ ap (λ (x : RawEnv). x.jwt_secret) kept_database in
      let switches : env.switches ≡ parsed.switches =
        ap (λ (x : RawEnv). x.switches) kept
        ∙ ap (λ (x : RawEnv). x.switches) kept_redis
        ∙ ap (λ (x : RawEnv). x.switches) kept_database in
      let level : env.log_level ≡ parsed.log_level =
        ap (λ (x : RawEnv). x.log_level) kept
        ∙ ap (λ (x : RawEnv). x.log_level) kept_redis
        ∙ ap (λ (x : RawEnv). x.log_level) kept_database in
      let provider : env.email_provider ≡ parsed.email_provider =
        ap (λ (x : RawEnv). x.email_provider) kept
        ∙ ap (λ (x : RawEnv). x.email_provider) kept_redis
        ∙ ap (λ (x : RawEnv). x.email_provider) kept_database in
      let database : env.database ≡ with_database.database =
        ap (λ (x : RawEnv). x.database) kept ∙ ap (λ (x : RawEnv). x.database) kept_redis in
      let broker : with_redis.broker ≡ parsed.broker =
        ap (λ (x : RawEnv). x.broker) kept_redis ∙ ap (λ (x : RawEnv). x.broker) kept_database in
      carried-IsHardened parsed env l accepted d node secret switches level provider
        (ap (λ (x : DatabaseEnv). x.logging) database ∙ logging)
        (ap (λ (x : DatabaseEnv). x.ssl_reject_unauthorized) database ∙ ssl)
        (enabled ∙ ap (λ (b : BrokerEnv). b.is_enabled) broker)
        (ap (λ b. rabbit_mq_login parse_url decode b) (sym broker) ∙ login) user password
