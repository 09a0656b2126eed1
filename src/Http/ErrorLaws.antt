-- ===== src/Http/ErrorLaws.antt =====
-- What an error's answer shows.
use lakira_backend.Base.{ℕ, ◌≤◌, ◌≡◌, sym, ap, ◌∙◌, false, Option, none, [], arith}
use lakira_backend.Text.{Text}
use lakira_backend.Config.Fields.{NodeEnv, development, test, staging, production, is_local}
use lakira_backend.Http.Errors.{
  Thrown, body_parse, zod, app, domain, unique_constraint, other, send_error, to_app_error,
  masked_server_error_message, handle_error, AppError, respond,
}

-- Where neither development nor test runs, an error answered with a status of 500 or more is
-- answered with the masked message, without a stack.
respond_masked :
    (node_env : NodeEnv) (stack : Option Text) (e : AppError)
    → is_local node_env ≡ false
    → 500 ≤ e.status_code
    → (respond node_env e stack).response
      ≡ send_error e.status_code masked_server_error_message [] none
respond_masked development stack e low h = cc
respond_masked test stack e low h = cc
respond_masked staging stack e low h = ground arith
respond_masked production stack e low h = ground arith

handle_error_masked :
    (node_env : NodeEnv) (stack : Option Text) (e : Thrown)
    → is_local node_env ≡ false
    → 500 ≤ (handle_error node_env stack e).response.status_code
    → (handle_error node_env stack e).response
      ≡ send_error
          (handle_error node_env stack e).response.status_code
          masked_server_error_message
          []
          none
unfolding handle_error send_error
handle_error_masked node_env stack body_parse low h = absurd (omega arith)
handle_error_masked node_env stack (zod issues) low h = absurd (omega arith)
handle_error_masked node_env stack (app status message) low h =
    respond_masked node_env stack (to_app_error (app status message)) low h
handle_error_masked node_env stack (domain kind message) low h =
    respond_masked node_env stack (to_app_error (domain kind message)) low h
handle_error_masked node_env stack unique_constraint low h =
    respond_masked node_env stack (to_app_error unique_constraint) low h
handle_error_masked node_env stack (other e) low h =
    respond_masked node_env stack (to_app_error (other e)) low h

-- Outside development and test, two errors that are answered with one status of 500 or more are
-- answered alike, whatever they are, say and carry as a stack.
pub handle_error_masks :
    (node_env : NodeEnv) (stack stack' : Option Text) (e e' : Thrown)
    → is_local node_env ≡ false
    → 500 ≤ (handle_error node_env stack e).response.status_code
    → (handle_error node_env stack' e').response.status_code
      ≡ (handle_error node_env stack e).response.status_code
    → (handle_error node_env stack e).response ≡ (handle_error node_env stack' e').response
handle_error_masks node_env stack stack' e e' low h same =
    handle_error_masked node_env stack e low h
    ∙ ap (λ (n : ℕ). send_error n masked_server_error_message [] none) (sym same)
    ∙ sym (handle_error_masked node_env stack' e' low (omega arith))
