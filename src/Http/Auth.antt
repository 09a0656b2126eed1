-- ===== src/Http/Auth.antt =====
-- authMiddleware, requireVerifiedEmail, assertHasOrgRole and assertAuthenticated. `verify` is the
-- verification of a signed token.
use lakira_backend.Base.{
  ℕ, not, Option, none, some, List, [], ◌∷◌, ◌==◌, any, is_some, if◌then◌else◌,
}
use lakira_backend.Text.{Text, codes}
use lakira_backend.Store.{
  AuthUser, Membership, MembershipRole, Action, Failure, ◌>>=◌, ◌>>◌, pure, throw, or_throw,
  throw_if, app_error,
}
use lakira_backend.Accounts.Users.{find_user_by_id}
use lakira_backend.Members.Table.{find_by_user_and_org, is_active, role_eq}
use lakira_backend.Config.Refusals.{after_prefix}

pub record TokenClaims : Type 0 where
  pub user_id : ℕ
  pub organization_id : Option ℕ

-- What `verify` comes to: claims, an error of the kind `unauthorized`, or another error.
pub data Verified : Type 0 where
  claimed : TokenClaims → Verified
  refused : Verified
  broken : Failure → Verified

-- What the middleware hangs on the request.
pub record AuthContext : Type 0 where
  pub user : AuthUser
  pub organization_id : ℕ
  pub membership : Membership

-- `split(" ")[1]` behind the first space
unfoldable pub up_to_space : Text → Text
up_to_space [] = []
up_to_space (c ∷ s) = if c == b' ' then [] else c ∷ up_to_space s

-- The token of an `Authorization: Bearer` header.
unfoldable pub bearer_token : Option Text → Option Text
bearer_token none = none
bearer_token (some header) = elim (after_prefix (codes "Bearer ") header) [
  | none ↦ none
  | some rest ↦ some (up_to_space rest)
]

abbrev pub context_of : AuthUser → Option Membership → Action AuthContext
context_of user none = throw (app_error 401)
context_of user (some m) =
    if is_active m
    then pure (record { user = user; organization_id = m.organization_id; membership = m })
    else throw (app_error 401)

abbrev pub load_context : TokenClaims → Action AuthContext
load_context claims = do
  found ← find_user_by_id claims.user_id
  user ← or_throw found (app_error 401)
  organization_id ← or_throw claims.organization_id (app_error 401)
  membership ← find_by_user_and_org user.id organization_id
  context_of user membership

abbrev pub on_verified : Verified → Action AuthContext
on_verified (claimed claims) = load_context claims
on_verified refused = throw (app_error 401)
on_verified (broken e) = throw e

abbrev pub on_token : (Text → Verified) → Option Text → Action AuthContext
on_token verify none = throw (app_error 401)
on_token verify (some token) = on_verified (verify token)

unfoldable pub auth_middleware : (Text → Verified) → Option Text → Action AuthContext
auth_middleware verify header = on_token verify (bearer_token header)

-- `assertAuthenticated`: throws without a context.
abbrev pub assert_authenticated : Option AuthContext → Action AuthContext
assert_authenticated context = or_throw context (app_error 401)

unfoldable pub require_verified_email : Option AuthContext → Action (Unit {0})
require_verified_email none = throw (app_error 401)
require_verified_email (some c) = throw_if (not (is_some c.user.email_verified_at)) (app_error 403)

unfoldable pub assert_has_org_role : List MembershipRole → Option AuthContext → Action (Unit {0})
assert_has_org_role roles none = throw (app_error 401)
assert_has_org_role roles (some c) =
    throw_if (not (any (λ r. role_eq r c.membership.role) roles)) (app_error 403)

-- `authMiddleware`, then `requireOrgRole(...roles)`
unfoldable pub authorize :
    (Text → Verified) → List MembershipRole → Option Text → Action AuthContext
authorize verify roles header = do
  context ← auth_middleware verify header
  assert_has_org_role roles (some context)
  pure context
