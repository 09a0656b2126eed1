-- ===== src/Config/RefusalLaws.antt =====
-- What the absence of refusals says.
use lakira_backend.Base.{
  ◌≡◌, ◌≢◌, refl, sym, ap, ◌∙◌, Bool, true, false, not, ◌&&◌, Option, some, List, [], ◌∷◌, ◌++◌,
  ltb, length, if◌then◌else◌,
}
use lakira_backend.Text.{Text, codes, trim, text_eq, text_eq_refl}
use lakira_backend.Config.Fields.{RawEnv, is_production, is_local}
use lakira_backend.Config.Refusals.{
  Url, RabbitMqLogin, jwt_secret_template_placeholder, guest, refuse_if, bad_certificate,
  is_console, is_mailpit, is_silly, guest_refusals, is_deployed, rabbit_mq_login, deployed_refusals,
  secret_refusals, refusals,
}

append_nil_inv : {A : Type 0} (xs ys : List A) → xs ++ ys ≡ [] → (xs ≡ []) × (ys ≡ [])
append_nil_inv [] ys e = (refl, e)
append_nil_inv (x ∷ xs) ys e = cc

refuse_if_inv : (b : Bool) (path : Text) → refuse_if b path ≡ [] → b ≡ false
refuse_if_inv true path e = cc
refuse_if_inv false path e = refl

refuse_if_append :
    (b : Bool) (path : Text) (rest : List Text)
    → refuse_if b path ++ rest ≡ []
    → (b ≡ false) × (rest ≡ [])
refuse_if_append true path rest e = cc
refuse_if_append false path rest e = (refl, e)

-- Texts that `===` tells apart.
pub ne_of_text_eq : (s t : Text) → text_eq s t ≡ false → s ≢ t
ne_of_text_eq s t e p = cc (text_eq_refl t, ap (λ u. text_eq u t) p)

module _ (parse_url : Text → Option Url) (decode : Text → Option Text) where
  abbrev pub broker_refusals : RawEnv → List Text
  broker_refusals env =
      if env.broker.is_enabled
      then guest_refusals (rabbit_mq_login parse_url decode env.broker)
      else []

  -- Each condition of the deployed refusals is false.
  pub deployed_refusals_inv :
      (env : RawEnv)
      → deployed_refusals parse_url decode env ≡ []
      → (is_production env.node_env && not env.database.ssl_reject_unauthorized ≡ false)
        × (env.switches.disable_rate_limiting ≡ false)
        × (env.switches.allow_test_http_server ≡ false)
        × (not env.switches.swagger_require_auth ≡ false)
        × (text_eq env.database.logging (codes "true") ≡ false)
        × (env.switches.skip_db_lifecycle ≡ false)
        × (is_silly env.log_level ≡ false)
        × (is_production env.node_env && is_mailpit env.email_provider ≡ false)
        × (broker_refusals env ≡ [])
  unfolding deployed_refusals
  deployed_refusals_inv env e =
      let (ssl, e1) = refuse_if_append _ _ _ e in
      let (limits, e2) = refuse_if_append _ _ _ e1 in
      let (test, e3) = refuse_if_append _ _ _ e2 in
      let (docs, e4) = refuse_if_append _ _ _ e3 in
      let (sql, e5) = refuse_if_append _ _ _ e4 in
      let (lifecycle, e6) = refuse_if_append _ _ _ e5 in
      let (flood, e7) = refuse_if_append _ _ _ e6 in
      let (mail, e8) = refuse_if_append _ _ _ e7 in
      (ssl, limits, test, docs, sql, lifecycle, flood, mail, e8)

  -- A login that was judged is not the guest's.
  guest_refusals_inv :
      (l : RabbitMqLogin) → guest_refusals (some l) ≡ [] → (l.user ≢ guest) × (l.password ≢ guest)
  guest_refusals_inv l e =
      let (user, e1) = refuse_if_append _ _ _ e in
      (ne_of_text_eq l.user guest user, ne_of_text_eq l.password guest (refuse_if_inv _ _ e1))

  pub broker_refusals_inv :
      (env : RawEnv) (l : RabbitMqLogin)
      → broker_refusals env ≡ []
      → env.broker.is_enabled ≡ true
      → rabbit_mq_login parse_url decode env.broker ≡ some l
      → (l.user ≢ guest) × (l.password ≢ guest)
  broker_refusals_inv env l e h r = guest_refusals_inv l (
      sym (
        ap (λ b. if b then guest_refusals (rabbit_mq_login parse_url decode env.broker) else []) h
        ∙ ap guest_refusals r)
      ∙ e)

  pub refusals_inv :
      (env : RawEnv)
      → refusals parse_url decode env ≡ []
      → is_deployed env ≡ true
      → (is_console env.email_provider && not (is_local env.node_env) ≡ false)
        × (ltb (length env.jwt_secret) 32 ≡ false)
        × (text_eq (trim env.jwt_secret) jwt_secret_template_placeholder ≡ false)
        × (deployed_refusals parse_url decode env ≡ [])
  unfolding refusals secret_refusals
  refusals_inv env e d =
      let checked = λ (b : Bool).
        if b then secret_refusals env ++ deployed_refusals parse_url decode env else [] in
      let tail =
        refuse_if (is_console env.email_provider && not (is_local env.node_env))
          (codes "EMAIL_PROVIDER")
        ++ checked (is_deployed env) in
      let (_, e1) =
        refuse_if_append (ltb env.database.pool_max env.database.pool_min) (codes "DB_POOL_MIN")
          (refuse_if (bad_certificate env.database.ssl_ca) (codes "DB_SSL_CA") ++ tail) e in
      let (_, e2) =
        refuse_if_append (bad_certificate env.database.ssl_ca) (codes "DB_SSL_CA") tail e1 in
      let (console, e3) =
        refuse_if_append (is_console env.email_provider && not (is_local env.node_env))
          (codes "EMAIL_PROVIDER") (checked (is_deployed env)) e2 in
      let e4 : secret_refusals env ++ deployed_refusals parse_url decode env ≡ [] =
        sym (ap checked d) ∙ e3 in
      let (secrets, rest) = append_nil_inv (secret_refusals env) _ e4 in
      let (short, e5) = refuse_if_append _ _ _ secrets in
      (console, short, refuse_if_inv _ _ e5, rest)
