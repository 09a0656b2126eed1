-- ===== src/Session/Inputs.antt =====
-- What the session use cases of src/features/shared/auth/application/use-cases take and answer,
-- and their helpers that need no port.
use lakira_backend.Base.{ℕ, Bool, Option, some, List, [], ◌∷◌, ◌==◌, if◌then◌else◌, any}
use lakira_backend.Text.{Text}
use lakira_backend.Store.{RefreshToken, AuthUser, Action, ◌>>◌, pure}
use lakira_backend.Session.RefreshTokens.{Tokens, revoke_family}

-- What `TokenProvider.sign` is given.
pub record TokenPayload : Type 0 where
  pub id : ℕ
  pub email : Text
  pub username : Text
  pub organization_id : ℕ

-- What node's crypto, jsonwebtoken, bcrypt and the string library answer, and the days that an
-- issued token lives.
pub record SessionPorts : Type 0 where
  pub hash_token : ℕ → ℕ
  pub sign : TokenPayload → ℕ
  pub compare_password : Text → Text → Bool
  pub to_lower_case : Text → Text
  pub digest : Text → ℕ
  pub ttl_days : ℕ

pub record IssueInput : Type 0 where
  pub user_id : ℕ
  pub family_id : Option ℕ
  pub organization_id : Option ℕ
  pub user_agent : Option Text
  pub ip : Option Text

pub record Issued : Type 0 where
  pub raw_token : ℕ
  pub refresh_token : RefreshToken

pub record SessionTokens : Type 0 where
  pub access_token : ℕ
  pub raw_refresh_token : ℕ

pub record RotateInput : Type 0 where
  pub raw_token : ℕ
  pub user_agent : Option Text
  pub ip : Option Text

pub record SwitchInput : Type 0 where
  pub user_id : ℕ
  pub organization_id : ℕ
  pub user_agent : Option Text
  pub ip : Option Text

pub record LoginInput : Type 0 where
  pub email : Text
  pub password : Text
  pub user_agent : Option Text
  pub ip : Option Text

-- `RevokeAndReject`, or the result of a rotation.
pub data RotateOutcome : Type 0 where
  revoke_and_reject : ℕ → RotateOutcome
  rotated : SessionTokens → RotateOutcome

-- One after the other, as no two families share a row.
abbrev pub revoke_families : List ℕ → ℕ → Action (Unit {0})
revoke_families [] now = pure tt
revoke_families (f ∷ fs) now = revoke_family f now >> revoke_families fs now

-- `[...new Set(activeTokens.map((t) => t.familyId))]`
abbrev pub insert_new : ℕ → List ℕ → List ℕ
insert_new f fs = if any (λ g. g == f) fs then fs else f ∷ fs

abbrev pub family_ids : Tokens → List ℕ
family_ids [] = []
family_ids (t ∷ ts) = insert_new t.family_id (family_ids ts)

abbrev pub payload_of : AuthUser → ℕ → TokenPayload
payload_of user org = record {
  id = user.id;
  email = user.email;
  username = user.username;
  organization_id = org;
}

abbrev pub rotate_input : RotateInput → RefreshToken → ℕ → IssueInput
rotate_input input existing org = record {
  user_id = existing.user_id;
  family_id = some existing.family_id;
  organization_id = some org;
  user_agent = input.user_agent;
  ip = input.ip;
}
