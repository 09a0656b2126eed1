-- ===== src/Store/Rows.antt =====
-- The entities of src/features/shared/auth/domain/entities, which are also the rows of their
-- tables. An id (a UUID) and a token's hash are only compared, so they are numbers; a Date is the
-- number of milliseconds that `getTime` gives.
use lakira_backend.Base.{ℕ, Bool, Option}
use lakira_backend.Text.{Text}

pub record RefreshToken : Type 0 where
  pub id : ℕ
  pub user_id : ℕ
  pub organization_id : Option ℕ
  pub family_id : ℕ
  pub token_hash : ℕ
  pub issued_at : ℕ
  pub expires_at : ℕ
  pub revoked_at : Option ℕ
  pub replaced_by_id : Option ℕ
  pub user_agent : Option Text
  pub ip : Option Text

pub record PasswordResetToken : Type 0 where
  pub id : ℕ
  pub user_id : ℕ
  pub token_hash : ℕ
  pub expires_at : ℕ
  pub used_at : Option ℕ
  pub created_at : ℕ

pub record EmailVerificationToken : Type 0 where
  pub id : ℕ
  pub user_id : ℕ
  pub token_hash : ℕ
  pub expires_at : ℕ
  pub used_at : Option ℕ
  pub created_at : ℕ

pub data MembershipRole : Type 0 where
  owner admin member : MembershipRole

pub data MembershipStatus : Type 0 where
  active invited removed : MembershipStatus

pub record Membership : Type 0 where
  pub id : ℕ
  pub user_id : ℕ
  pub organization_id : ℕ
  pub role : MembershipRole
  pub status : MembershipStatus
  pub joined_at : ℕ

pub data InviteRole : Type 0 where
  admin member : InviteRole

pub record OrganizationInvite : Type 0 where
  pub id : ℕ
  pub organization_id : ℕ
  pub email : Text
  pub role : InviteRole
  pub token_hash : ℕ
  pub expires_at : ℕ
  pub accepted_at : Option ℕ
  pub created_at : ℕ

pub record Organization : Type 0 where
  pub id : ℕ
  pub name : Text
  pub slug : Text
  pub created_at : ℕ
  pub updated_at : ℕ
  pub deleted_at : Option ℕ

pub record AuthUser : Type 0 where
  pub id : ℕ
  pub email : Text
  pub username : Text
  pub password_hash : Text
  pub is_public_profile : Bool
  pub email_verified_at : Option ℕ
  pub created_at : ℕ
  pub updated_at : ℕ
  pub deleted_at : Option ℕ
