-- ===== src/Accounts/Users.antt =====
-- The entity AuthUser (src/features/shared/auth/domain/entities/AuthUser.ts) and its table
-- (infrastructure/persistence/UserRepositorySequelize.ts).
use lakira_backend.Base.{
  ℕ, Bool, Option, none, some, List, if◌then◌else◌, find_where, any, replace_key, not, ◌==◌, ◌&&◌,
  is_some,
}
use lakira_backend.Text.{Text, trim, text_eq, is_empty}
use lakira_backend.Store.{
  AuthUser, Db, Action, ◌>>=◌, ◌>>◌, pure, gets, or_throw, modify_db, plain_error,
}

abbrev pub user_key : AuthUser → ℕ
user_key u = u.id

-- The model is `paranoid`: a select passes over the rows that were deleted softly.
abbrev pub is_kept : AuthUser → Bool
is_kept u = not (is_some u.deleted_at)

abbrev pub find_user : ℕ → List AuthUser → Option AuthUser
find_user id = find_where (λ u. u.id == id && is_kept u)

abbrev pub find_email : Text → List AuthUser → Option AuthUser
find_email email = find_where (λ u. text_eq u.email email && is_kept u)

abbrev pub set_users : (List AuthUser → List AuthUser) → Db → Db
set_users f d = record d { users = f d.users }

abbrev pub find_user_by_id : ℕ → Action (Option AuthUser)
find_user_by_id id = gets (λ d. find_user id d.users)

abbrev pub find_user_by_email : Text → Action (Option AuthUser)
find_user_by_email email = gets (λ d. find_email email d.users)

abbrev pub exists_by_email : Text → Action Bool
exists_by_email email = gets (λ d. any (λ u. text_eq u.email email && is_kept u) d.users)

abbrev pub exists_by_username : Text → Action Bool
exists_by_username username =
    gets (λ d. any (λ u. text_eq u.username username && is_kept u) d.users)

-- `save`: the columns that it updates, on the row with the user's id.
abbrev pub saved_row : ℕ → AuthUser → AuthUser → AuthUser
saved_row now user row = record row {
  email = user.email;
  username = user.username;
  password_hash = user.password_hash;
  is_public_profile = user.is_public_profile;
  email_verified_at = user.email_verified_at;
  updated_at = now;
}

abbrev pub save_user : ℕ → AuthUser → Action AuthUser
save_user now user = do
  found ← gets (λ d. find_user user.id d.users)
  row ← or_throw found plain_error
  let next = saved_row now user row
  modify_db (set_users (replace_key user_key user.id next))
  pure next

-- The entity's setters; each touches `updatedAt`.
abbrev pub set_email_verified_at : ℕ → ℕ → AuthUser → AuthUser
set_email_verified_at date now u = record u { email_verified_at = some date; updated_at = now }

abbrev pub set_password_hash : Text → ℕ → AuthUser → AuthUser
set_password_hash hash now u = record u { password_hash = hash; updated_at = now }

abbrev pub toggle_public_profile : Bool → ℕ → AuthUser → AuthUser
toggle_public_profile value now u = record u { is_public_profile = value; updated_at = now }

-- `none` is the thrown "Email cannot be empty".
abbrev pub change_email : (Text → Text) → Text → ℕ → AuthUser → Option AuthUser
change_email to_lower_case next now u =
    let trimmed = to_lower_case (trim next) in
    if is_empty trimmed then none else some (record u { email = trimmed; updated_at = now })

-- `none` is the thrown "Username cannot be empty".
abbrev pub change_username : Text → ℕ → AuthUser → Option AuthUser
change_username next now u =
    let trimmed = trim next in
    if is_empty trimmed then none else some (record u { username = trimmed; updated_at = now })
