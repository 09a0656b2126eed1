-- ===== src/Verification/Tokens.antt =====
-- The entity EmailVerificationToken
-- (src/features/shared/auth/domain/entities/EmailVerificationToken.ts) and its table
-- (infrastructure/persistence/EmailVerificationTokenRepositorySequelize.ts, whose unique column is
-- token_hash).
use lakira_backend.Base.{
  ℕ, Bool, not, ◌&&◌, Option, none, some, List, [], ◌∷◌, ◌++◌, ◌==◌, leb, is_some, any, find_where,
  update_where,
}
use lakira_backend.Store.{
  EmailVerificationToken, Db, Action, ◌>>=◌, ◌>>◌, gets, throw_if, modify_db, unique_violation,
}

abbrev pub is_used : EmailVerificationToken → Bool
is_used t = is_some t.used_at

abbrev pub is_expired : ℕ → EmailVerificationToken → Bool
is_expired now t = leb t.expires_at now

abbrev pub is_usable : ℕ → EmailVerificationToken → Bool
is_usable now t = not (is_used t) && not (is_expired now t)

abbrev pub used : ℕ → EmailVerificationToken → EmailVerificationToken
used now t = record t { used_at = some now }

abbrev pub VerificationTokens : Type 0
VerificationTokens = List EmailVerificationToken

abbrev pub set_verification_tokens : (VerificationTokens → VerificationTokens) → Db → Db
set_verification_tokens f d = record d { verification_tokens = f d.verification_tokens }

unfoldable pub find_verification_hash : ℕ → VerificationTokens → Option EmailVerificationToken
find_verification_hash h = find_where (λ t. t.token_hash == h)

abbrev pub find_by_verification_hash : ℕ → Action (Option EmailVerificationToken)
find_by_verification_hash h = gets (λ d. find_verification_hash h d.verification_tokens)

pub record CreateVerificationToken : Type 0 where
  pub id : ℕ
  pub user_id : ℕ
  pub token_hash : ℕ
  pub expires_at : ℕ

abbrev pub created_verification_token : ℕ → CreateVerificationToken → EmailVerificationToken
created_verification_token now dto = record {
  id = dto.id;
  user_id = dto.user_id;
  token_hash = dto.token_hash;
  expires_at = dto.expires_at;
  used_at = none;
  created_at = now;
}

abbrev pub save_verification_token : ℕ → CreateVerificationToken → Action (Unit {0})
save_verification_token now dto = do
  rows ← gets (λ d. d.verification_tokens)
  throw_if (any (λ t. t.token_hash == dto.token_hash) rows) unique_violation
  modify_db (set_verification_tokens (λ ts. ts ++ created_verification_token now dto ∷ []))

abbrev pub is_open_of : ℕ → EmailVerificationToken → Bool
is_open_of user_id t = t.user_id == user_id && not (is_used t)

unfoldable pub revoke_open : ℕ → ℕ → VerificationTokens → VerificationTokens
revoke_open user_id now = update_where (is_open_of user_id) (used now)

abbrev pub revoke_all_for_user : ℕ → ℕ → Action (Unit {0})
revoke_all_for_user user_id now = modify_db (set_verification_tokens (revoke_open user_id now))

abbrev pub has_id : ℕ → EmailVerificationToken → Bool
has_id id t = t.id == id

abbrev pub mark_verification_used : ℕ → ℕ → Action (Unit {0})
mark_verification_used id now =
    modify_db (set_verification_tokens (update_where (has_id id) (used now)))
