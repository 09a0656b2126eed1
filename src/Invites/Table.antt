-- ===== src/Invites/Table.antt =====
-- The entity OrganizationInvite (src/features/shared/auth/domain/entities/OrganizationInvite.ts) and
-- its table (infrastructure/persistence/OrganizationInviteRepositorySequelize.ts). `sql_lower` is
-- the database's `lower`.
use lakira_backend.Base.{
  ℕ, Bool, not, ◌&&◌, Option, none, some, List, [], ◌∷◌, ◌++◌, ◌==◌, leb, ltb, is_some, any,
  find_where, update_where, delete_where,
}
use lakira_backend.Text.{Text, text_eq}
use lakira_backend.Store.{
  OrganizationInvite, InviteRole, Organization, Db, Action, ◌>>=◌, ◌>>◌, pure, gets, throw_if,
  modify_db, app_error, unique_violation,
}

abbrev pub is_expired : ℕ → OrganizationInvite → Bool
is_expired now i = leb i.expires_at now

abbrev pub is_accepted : OrganizationInvite → Bool
is_accepted i = is_some i.accepted_at

abbrev pub accepted : ℕ → OrganizationInvite → OrganizationInvite
accepted now i = record i { accepted_at = some now }

abbrev pub Invites : Type 0
Invites = List OrganizationInvite

abbrev pub set_invites : (Invites → Invites) → Db → Db
set_invites f d = record d { invites = f d.invites }

unfoldable pub find_invite_hash : ℕ → Invites → Option OrganizationInvite
find_invite_hash h = find_where (λ i. i.token_hash == h)

abbrev pub find_invite_by_hash : ℕ → Action (Option OrganizationInvite)
find_invite_by_hash h = gets (λ d. find_invite_hash h d.invites)

abbrev pub has_id : ℕ → OrganizationInvite → Bool
has_id id i = i.id == id

abbrev pub find_invite_by_id : ℕ → Action (Option OrganizationInvite)
find_invite_by_id id = gets (λ d. find_where (has_id id) d.invites)

unfoldable pub is_pending : Text → ℕ → ℕ → OrganizationInvite → Bool
is_pending email org now i =
    text_eq i.email email
    && (i.organization_id == org && (not (is_accepted i) && ltb now i.expires_at))

abbrev pub find_pending : Text → ℕ → ℕ → Action (Option OrganizationInvite)
find_pending email org now = gets (λ d. find_where (is_pending email org now) d.invites)

-- `email` is lower-cased already, by the string library.
unfoldable pub has_lapsed : (Text → Text) → Text → ℕ → ℕ → OrganizationInvite → Bool
has_lapsed sql_lower email org now i =
    text_eq (sql_lower i.email) email
    && (i.organization_id == org && (not (is_accepted i) && leb i.expires_at now))

abbrev pub delete_expired_pending : (Text → Text) → Text → ℕ → ℕ → Action (Unit {0})
delete_expired_pending sql_lower email org now =
    modify_db (set_invites (delete_where (has_lapsed sql_lower email org now)))

pub record CreateInvite : Type 0 where
  pub id : ℕ
  pub organization_id : ℕ
  pub email : Text
  pub role : InviteRole
  pub token_hash : ℕ
  pub expires_at : ℕ

abbrev pub created_invite : ℕ → CreateInvite → OrganizationInvite
created_invite now dto = record {
  id = dto.id;
  organization_id = dto.organization_id;
  email = dto.email;
  role = dto.role;
  token_hash = dto.token_hash;
  expires_at = dto.expires_at;
  accepted_at = none;
  created_at = now;
}

-- The index of the unaccepted invites, one for each organization and lower-cased email.
unfoldable pub pending_clash : (Text → Text) → CreateInvite → Invites → Bool
pending_clash sql_lower dto = any (λ i.
    text_eq (sql_lower i.email) (sql_lower dto.email)
    && (i.organization_id == dto.organization_id && not (is_accepted i)))

unfoldable pub invite_hash_taken : ℕ → Invites → Bool
invite_hash_taken h = any (λ i. i.token_hash == h)

-- A clash with the index of pending invites is an `AppError` with 409; one with the unique hash is
-- thrown on.
unfoldable pub save_invite : (Text → Text) → ℕ → CreateInvite → Action OrganizationInvite
save_invite sql_lower now dto = do
  rows ← gets (λ d. d.invites)
  throw_if (pending_clash sql_lower dto rows) (app_error 409)
  throw_if (invite_hash_taken dto.token_hash rows) unique_violation
  modify_db (set_invites (λ is. is ++ created_invite now dto ∷ []))
  pure (created_invite now dto)

abbrev pub replace_token_hash : ℕ → ℕ → Action (Unit {0})
replace_token_hash id h =
    modify_db (set_invites (update_where (has_id id) (λ i. record i { token_hash = h })))

abbrev pub delete_invite_by_id : ℕ → Action (Unit {0})
delete_invite_by_id id = modify_db (set_invites (delete_where (has_id id)))

abbrev pub mark_invite_accepted : ℕ → ℕ → Action (Unit {0})
mark_invite_accepted id now = modify_db (set_invites (update_where (has_id id) (accepted now)))

-- `OrganizationRepositorySequelize.findById`; the model is `paranoid`.
abbrev pub find_organization : ℕ → Action (Option Organization)
find_organization id =
    gets (λ d. find_where (λ o. o.id == id && not (is_some o.deleted_at)) d.organizations)
