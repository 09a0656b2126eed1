-- ===== src/Http/Errors.antt =====
-- src/shared/middleware/error.ts and src/shared/utils/error-envelope.ts. A thrown value is known by
-- its class; the texts are what a client is shown. The log lines are left out.
use lakira_backend.Base.{
  ℕ, Bool, true, false, not, ◌&&◌, Option, none, some, List, [], ◌∷◌, ◌==◌, leb, ltb, if◌then◌else◌,
  get_or_else,
}
use lakira_backend.Text.{Text, codes, is_empty}
use lakira_backend.Store.{DomainErrorKind, validation, unauthorized, forbidden, not_found, conflict}
use lakira_backend.Config.Fields.{NodeEnv, is_local}
use lakira_backend.Http.Issues.{Issues, FieldIssue, format_zod_issues}

pub data EnvelopeStatus : Type 0 where
  fail error : EnvelopeStatus

pub record ErrorEnvelope : Type 0 where
  pub status : EnvelopeStatus
  pub message : Text
  pub errors : Option (List FieldIssue)
  pub stack : Option Text

pub record ErrorResponse : Type 0 where
  pub status_code : ℕ
  pub envelope : ErrorEnvelope

-- What is read of another error: `status`, `expose`, whether it is a URIError.
pub record OtherError : Type 0 where
  pub message : Text
  pub status : Option ℕ
  pub expose : Bool
  pub is_uri_error : Bool

-- A body that does not parse, a ZodError, an AppError, a DomainError, a UniqueConstraintError, or
-- any other error, a DatabaseError among them; each with its stack.
pub data Thrown : Type 0 where
  body_parse : Thrown
  zod : Issues → Thrown
  app : (status : ℕ) (message : Text) → Thrown
  domain : DomainErrorKind → Text → Thrown
  unique_constraint : Thrown
  other : OtherError → Thrown

unfoldable pub envelope_status : ℕ → EnvelopeStatus
envelope_status status_code = if leb 400 status_code && ltb status_code 500 then fail else error

abbrev pub filled_errors : List FieldIssue → Option (List FieldIssue)
filled_errors [] = none
filled_errors (e ∷ es) = some (e ∷ es)

abbrev pub filled_stack : Option Text → Option Text
filled_stack none = none
filled_stack (some s) = if is_empty s then none else some s

unfoldable pub build_error_envelope :
    ℕ → Text → (errors : List FieldIssue) (stack : Option Text) → ErrorEnvelope
build_error_envelope status_code message errors stack = record {
  status = envelope_status status_code;
  message = message;
  errors = filled_errors errors;
  stack = filled_stack stack;
}

unfoldable pub send_error :
    ℕ → Text → (errors : List FieldIssue) (stack : Option Text) → ErrorResponse
send_error status_code message errors stack = record {
  status_code = status_code;
  envelope = build_error_envelope status_code message errors stack;
}

-- `DOMAIN_ERROR_STATUS`
unfoldable pub domain_error_status : DomainErrorKind → ℕ
domain_error_status validation = 400
domain_error_status unauthorized = 401
domain_error_status forbidden = 403
domain_error_status not_found = 404
domain_error_status conflict = 409

abbrev pub malformed_json_message : Text
malformed_json_message = codes "Malformed JSON payload. Provide a valid JSON object."

abbrev pub validation_failed_message : Text
validation_failed_message = codes "Validation failed"

abbrev pub masked_server_error_message : Text
masked_server_error_message = codes "Something went wrong!"

pub record AppError : Type 0 where
  pub status_code : ℕ
  pub message : Text

abbrev pub is_client_status : Option ℕ → Bool
is_client_status none = false
is_client_status (some status) = leb 400 status && ltb status 500

unfoldable pub to_client_error : OtherError → Option AppError
to_client_error e =
    if not (is_client_status e.status)
    then none
    else if e.expose
    then some (record { status_code = get_or_else e.status 0; message = e.message })
    else if e.is_uri_error && get_or_else e.status 0 == 400
    then some (record { status_code = 400; message = codes "Malformed URL" })
    else none

abbrev pub internal_error : AppError
internal_error = record { status_code = 500; message = codes "Internal Server Error" }

-- The error that the response is made of; bodies and validations are answered before.
unfoldable pub to_app_error : Thrown → AppError
to_app_error body_parse = internal_error
to_app_error (zod _) = internal_error
to_app_error (app status message) = record { status_code = status; message = message }
to_app_error (domain kind message) = record {
  status_code = domain_error_status kind;
  message = message;
}
to_app_error unique_constraint = record { status_code = 409; message = codes "Duplicate value" }
to_app_error (other e) = get_or_else (to_client_error e) internal_error

-- What the handler does: the response, and whether Sentry captures the error.
pub record Handled : Type 0 where
  pub response : ErrorResponse
  pub captured : Bool

abbrev is_development : NodeEnv → Bool
is_development NodeEnv.development = true
is_development _ = false

abbrev pub respond : NodeEnv → AppError → Option Text → Handled
respond node_env e stack = record {
  response =
      send_error e.status_code
        (if not (is_local node_env) && leb 500 e.status_code
          then masked_server_error_message
          else e.message)
        [] (if is_development node_env then stack else none);
  captured = leb 500 e.status_code;
}

-- `createErrorHandler()`; `stack` is that of the error it makes or was given.
unfoldable pub handle_error : NodeEnv → (stack : Option Text) → Thrown → Handled
handle_error node_env stack body_parse = record {
  response =
      send_error 400 malformed_json_message
        (record { field = codes "body"; message = malformed_json_message } ∷ []) none;
  captured = false;
}
handle_error node_env stack (zod issues) = record {
  response = send_error 400 validation_failed_message (format_zod_issues issues) none;
  captured = false;
}
handle_error node_env stack e = respond node_env (to_app_error e) stack
