-- ===== src/Session/RefreshTokens.antt =====
-- The entity RefreshToken (src/features/shared/auth/domain/entities/RefreshToken.ts) and its table
-- (infrastructure/persistence/RefreshTokenRepositorySequelize.ts, whose unique column is token_hash).
use lakira_backend.Base.{
  ℕ, ◌+◌, ◌*◌, Bool, not, ◌&&◌, Option, none, some, List, ◌==◌, leb, ltb, is_some, get_or_else,
  if◌then◌else◌, find_where, select_where, update_where, any, upsert_key,
}
use lakira_backend.Text.{Text}
use lakira_backend.Store.{
  RefreshToken, Db, Action, ◌>>=◌, ◌>>◌, gets, throw_if, modify_db, unique_violation,
}

abbrev pub day_ms : ℕ
day_ms = 24 * 60 * 60 * 1000

-- The ids that `randomUUID` answers while a token is issued, and the raw token that
-- `TokenHasher.generate` answers.
pub record Draw : Type 0 where
  pub token_id : ℕ
  pub new_family_id : ℕ
  pub raw_token : ℕ

pub record IssueOptions : Type 0 where
  pub family_id : Option ℕ
  pub organization_id : Option ℕ
  pub ttl_days : Option ℕ
  pub user_agent : Option Text
  pub ip : Option Text

-- `RefreshToken.issue`
abbrev pub issue : Draw → ℕ → ℕ → ℕ → IssueOptions → RefreshToken
issue draw now user_id token_hash opts = record {
  id = draw.token_id;
  user_id = user_id;
  organization_id = opts.organization_id;
  family_id = get_or_else opts.family_id draw.new_family_id;
  token_hash = token_hash;
  issued_at = now;
  expires_at = now + get_or_else opts.ttl_days 30 * 24 * 60 * 60 * 1000;
  revoked_at = none;
  replaced_by_id = none;
  user_agent = opts.user_agent;
  ip = opts.ip;
}

abbrev pub is_revoked : RefreshToken → Bool
is_revoked t = is_some t.revoked_at

abbrev pub is_expired : ℕ → RefreshToken → Bool
is_expired now t = leb t.expires_at now

abbrev pub mark_revoked : ℕ → RefreshToken → RefreshToken
mark_revoked now t = record t { revoked_at = some now }

-- `none` is the thrown "RefreshToken already replaced".
abbrev pub replace_with : ℕ → RefreshToken → Option RefreshToken
replace_with new_id t =
    if is_some t.replaced_by_id then none else some (record t { replaced_by_id = some new_id })

abbrev pub Tokens : Type 0
Tokens = List RefreshToken

abbrev pub token_key : RefreshToken → ℕ
token_key t = t.id

-- `where: { tokenHash }`
unfoldable pub find_hash : ℕ → Tokens → Option RefreshToken
find_hash h = find_where (λ t. t.token_hash == h)

-- Another row has the hash, which the unique column refuses.
unfoldable pub hash_taken : RefreshToken → Tokens → Bool
hash_taken t = any (λ u. u.token_hash == t.token_hash && not (u.id == t.id))

abbrev pub in_live_family : ℕ → RefreshToken → Bool
in_live_family family t = t.family_id == family && not (is_some t.revoked_at)

unfoldable pub revoke_rows : ℕ → ℕ → Tokens → Tokens
revoke_rows family now = update_where (in_live_family family) (mark_revoked now)

abbrev pub set_tokens : (Tokens → Tokens) → Db → Db
set_tokens f d = record d { refresh_tokens = f d.refresh_tokens }

abbrev pub save : RefreshToken → Action (Unit {0})
save t = do
  rows ← gets (λ d. d.refresh_tokens)
  throw_if (hash_taken t rows) unique_violation
  modify_db (set_tokens (upsert_key token_key t))

-- `findByTokenHash`, and `findByTokenHashForUpdate` with the row locked until the transaction ends.
abbrev pub find_by_token_hash : ℕ → Action (Option RefreshToken)
find_by_token_hash h = gets (λ d. find_hash h d.refresh_tokens)

abbrev pub revoke_family : ℕ → ℕ → Action (Unit {0})
revoke_family family now = modify_db (set_tokens (revoke_rows family now))

abbrev pub is_active_of : ℕ → ℕ → RefreshToken → Bool
is_active_of user_id now t =
    t.user_id == user_id && (not (is_some t.revoked_at) && ltb now t.expires_at)

abbrev pub find_active_by_user : ℕ → ℕ → Action Tokens
find_active_by_user user_id now =
    gets (λ d. select_where (is_active_of user_id now) d.refresh_tokens)
