-- ===== src/PasswordReset/Tokens.antt =====
-- The entity PasswordResetToken (src/features/shared/auth/domain/entities) and its table
-- (infrastructure/persistence/PasswordResetTokenRepositorySequelize.ts, unique token_hash).
use lakira_backend.Base.{
  ℕ, Bool, not, ◌&&◌, Option, none, some, List, [], ◌∷◌, ◌++◌, ◌==◌, leb, is_some, any, find_where,
  update_where,
}
use lakira_backend.Store.{
  PasswordResetToken, Db, Action, ◌>>=◌, ◌>>◌, gets, throw_if, modify_db, unique_violation,
}

abbrev pub is_used : PasswordResetToken → Bool
is_used t = is_some t.used_at

abbrev pub is_expired : ℕ → PasswordResetToken → Bool
is_expired now t = leb t.expires_at now

abbrev pub ResetTokens : Type 0
ResetTokens = List PasswordResetToken

abbrev pub set_reset_tokens : (ResetTokens → ResetTokens) → Db → Db
set_reset_tokens f d = record d { reset_tokens = f d.reset_tokens }

unfoldable pub find_reset_hash : ℕ → ResetTokens → Option PasswordResetToken
find_reset_hash h = find_where (λ t. t.token_hash == h)

abbrev pub find_by_reset_hash : ℕ → Action (Option PasswordResetToken)
find_by_reset_hash h = gets (λ d. find_reset_hash h d.reset_tokens)

abbrev pub reset_hash_taken : ℕ → ResetTokens → Bool
reset_hash_taken h = any (λ t. t.token_hash == h)

pub record CreateResetToken : Type 0 where
  pub id : ℕ
  pub user_id : ℕ
  pub token_hash : ℕ
  pub expires_at : ℕ

abbrev pub created_token : ℕ → CreateResetToken → PasswordResetToken
created_token now dto = record {
  id = dto.id;
  user_id = dto.user_id;
  token_hash = dto.token_hash;
  expires_at = dto.expires_at;
  used_at = none;
  created_at = now;
}

abbrev pub create_reset_token : ℕ → CreateResetToken → Action (Unit {0})
create_reset_token now dto = do
  rows ← gets (λ d. d.reset_tokens)
  throw_if (reset_hash_taken dto.token_hash rows) unique_violation
  modify_db (set_reset_tokens (λ ts. ts ++ created_token now dto ∷ []))

unfoldable pub use_rows : ℕ → ℕ → ResetTokens → ResetTokens
use_rows id at = update_where (λ t. t.id == id) (λ t. record t { used_at = some at })

abbrev pub mark_used : ℕ → ℕ → Action (Unit {0})
mark_used id at = modify_db (set_reset_tokens (use_rows id at))

abbrev pub is_open_of : ℕ → PasswordResetToken → Bool
is_open_of user_id t = t.user_id == user_id && not (is_some t.used_at)

unfoldable pub invalidate_rows : ℕ → ℕ → ResetTokens → ResetTokens
invalidate_rows user_id now =
    update_where (is_open_of user_id) (λ t. record t { used_at = some now })

abbrev pub invalidate_all_for_user : ℕ → ℕ → Action (Unit {0})
invalidate_all_for_user user_id now = modify_db (set_reset_tokens (invalidate_rows user_id now))
