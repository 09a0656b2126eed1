-- ===== src/PasswordReset/Resets.antt =====
-- `ResetPassword` of src/features/shared/auth/application/use-cases.
use lakira_backend.Base.{ℕ, not, ◌||◌}
use lakira_backend.Text.{Text, text_eq}
use lakira_backend.Store.{Action, ◌>>=◌, ◌>>◌, or_throw, throw_if, domain_error, validation}
use lakira_backend.Accounts.Users.{find_user_by_id, save_user, set_password_hash}
use lakira_backend.PasswordReset.Tokens.{is_used, is_expired, find_by_reset_hash, mark_used}

pub record ResetInput : Type 0 where
  pub token : ℕ
  pub password : Text
  pub password_confirmation : Text

-- SHA-256 and the password hasher.
pub record HashPorts : Type 0 where
  pub sha256 : ℕ → ℕ
  pub hash_password : Text → Text

unfoldable pub reset_password : HashPorts → ℕ → ResetInput → Action (Unit {0})
reset_password ports now input = do
  throw_if (not (text_eq input.password input.password_confirmation)) (domain_error validation)
  found ← find_by_reset_hash (ports.sha256 input.token)
  token ← or_throw found (domain_error validation)
  throw_if (is_used token || is_expired now token) (domain_error validation)
  account ← find_user_by_id token.user_id
  user ← or_throw account (domain_error validation)
  save_user now (set_password_hash (ports.hash_password input.password) now user)
  mark_used token.id now
