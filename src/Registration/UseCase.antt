-- ===== src/Registration/UseCase.antt =====
-- `RegisterUser` of src/features/shared/auth/application/use-cases, with the inserts of
-- UserRepositorySequelize and OrganizationRepositorySequelize. The unique columns are the users'
-- email and username and the organizations' slug, those of rows deleted softly included. The user
-- model's hook leaves a bcrypt hash as it is, and the hasher answers one.
use lakira_backend.Base.{
  ℕ, Bool, true, not, ◌||◌, Option, none, some, [], ◌∷◌, ◌++◌, any, get_or_else,
}
use lakira_backend.Text.{Text, trim, text_eq}
use lakira_backend.Store.{
  AuthUser, Organization, owner, active, Action, ◌>>=◌, ◌>>◌, pure, gets, throw_if, modify_db,
  run_in_transaction, domain_error, validation, conflict, unique_violation,
}
use lakira_backend.Accounts.Users.{exists_by_email, exists_by_username, set_users}
use lakira_backend.Members.Table.{create_membership}
use lakira_backend.Session.RefreshTokens.{Draw}
use lakira_backend.Session.Inputs.{SessionPorts, payload_of}
use lakira_backend.Session.UseCases.{issue_refresh_token}

pub record CreateUser : Type 0 where
  pub id : ℕ
  pub email : Text
  pub username : Text
  pub password_hash : Text
  pub is_public_profile : Bool

abbrev pub created_user : ℕ → CreateUser → AuthUser
created_user now dto = record {
  id = dto.id;
  email = dto.email;
  username = dto.username;
  password_hash = dto.password_hash;
  is_public_profile = dto.is_public_profile;
  email_verified_at = none;
  created_at = now;
  updated_at = now;
  deleted_at = none;
}

abbrev pub create_user : ℕ → CreateUser → Action AuthUser
create_user now dto = do
  rows ← gets (λ d. d.users)
  throw_if (any (λ u. text_eq u.email dto.email || text_eq u.username dto.username) rows)
      unique_violation
  modify_db (set_users (λ us. us ++ created_user now dto ∷ []))
  pure (created_user now dto)

abbrev pub created_organization : ℕ → ℕ → Text → Text → Organization
created_organization now id name slug = record {
  id = id;
  name = name;
  slug = slug;
  created_at = now;
  updated_at = now;
  deleted_at = none;
}

abbrev pub create_organization : ℕ → ℕ → Text → Text → Action Organization
create_organization now id name slug = do
  rows ← gets (λ d. d.organizations)
  throw_if (any (λ o. text_eq o.slug slug) rows) unique_violation
  modify_db (λ d. record d {
    organizations = d.organizations ++ created_organization now id name slug ∷ [];
  })
  pure (created_organization now id name slug)

pub record RegisterInput : Type 0 where
  pub email : Text
  pub password : Text
  pub password_confirmation : Text
  pub username : Text
  pub is_public_profile : Option Bool
  pub user_agent : Option Text
  pub ip : Option Text

-- The password hasher, and the slug that the string library makes of a username and the user's id.
pub record RegisterPorts : Type 0 where
  pub session : SessionPorts
  pub hash_password : Text → Text
  pub slug_of : Text → ℕ → Text

-- The ids of the new rows, and what the first refresh token draws.
pub record RegisterDraw : Type 0 where
  pub user_id : ℕ
  pub organization_id : ℕ
  pub membership_id : ℕ
  pub token : Draw

-- What the transaction answers.
pub record Account : Type 0 where
  pub user : AuthUser
  pub organization : Organization
  pub raw_refresh_token : ℕ

pub record Registered : Type 0 where
  pub user : AuthUser
  pub access_token : ℕ
  pub raw_refresh_token : ℕ

module _ (ports : RegisterPorts) where
  -- The transaction: the user, their organization, the owning membership and the first token.
  unfoldable pub create_account : RegisterDraw → ℕ → RegisterInput → CreateUser → Action Account
  create_account draw now input dto = do
    user ← create_user now dto
    org ←
        create_organization now draw.organization_id dto.username
          (ports.slug_of dto.username user.id)
    create_membership draw.membership_id now
        (record { user_id = user.id; organization_id = org.id; role = owner; status = some active })
    issued ← issue_refresh_token ports.session draw.token now (record {
      user_id = user.id;
      family_id = none;
      organization_id = some org.id;
      user_agent = input.user_agent;
      ip = input.ip;
    })
    pure (record { user = user; organization = org; raw_refresh_token = issued.raw_token })

  -- The answer: the access token is signed after the transaction has committed.
  abbrev pub registered_of : Account → Registered
  registered_of account = record {
    user = account.user;
    access_token = ports.session.sign (payload_of account.user account.organization.id);
    raw_refresh_token = account.raw_refresh_token;
  }

  abbrev pub user_data : RegisterDraw → RegisterInput → CreateUser
  user_data draw input = record {
    id = draw.user_id;
    email = ports.session.to_lower_case (trim input.email);
    username = trim input.username;
    password_hash = ports.hash_password input.password;
    is_public_profile = get_or_else input.is_public_profile true;
  }

  unfoldable pub register_user : RegisterDraw → ℕ → RegisterInput → Action Registered
  register_user draw now input = do
    throw_if (not (text_eq input.password input.password_confirmation)) (domain_error validation)
    same_email ← exists_by_email (ports.session.to_lower_case (trim input.email))
    throw_if same_email (domain_error conflict)
    same_name ← exists_by_username (trim input.username)
    throw_if same_name (domain_error conflict)
    account ← run_in_transaction (create_account draw now input (user_data draw input))
    pure (registered_of account)
