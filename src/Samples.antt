-- ===== src/Samples.antt =====
-- Small values that the tests share.
use lakira_backend.Base.{ℕ, true, false, none, some, [], ◌∷◌}
use lakira_backend.Store.{
  Membership, MembershipRole, active, AuthUser, World, Db, RedisHealth, RefreshToken,
}

abbrev pub ann : AuthUser
ann = record {
  id = 1;
  email = 97 ∷ [];
  username = 97 ∷ [];
  password_hash = 112 ∷ [];
  is_public_profile = true;
  email_verified_at = none;
  created_at = 0;
  updated_at = 0;
  deleted_at = none;
}

abbrev pub membership : ℕ → ℕ → MembershipRole → Membership
membership id user role = record {
  id = id;
  user_id = user;
  organization_id = 9;
  role = role;
  status = active;
  joined_at = 0;
}

abbrev pub first_token : RefreshToken
first_token = record {
  id = 20;
  user_id = 1;
  organization_id = some 9;
  family_id = 30;
  token_hash = 1007;
  issued_at = 0;
  expires_at = 5000;
  revoked_at = none;
  replaced_by_id = none;
  user_agent = none;
  ip = none;
}

abbrev pub redis_up : RedisHealth
redis_up = record {
  is_open = true;
  get_throws = false;
  incr_throws = false;
  expire_throws = false;
  del_throws = false;
}

-- Organization 9 has the owners 1 and 2.
abbrev pub small_db : Db
small_db = record {
  users = ann ∷ [];
  organizations = [];
  memberships = membership 5 1 MembershipRole.owner ∷ membership 6 2 MembershipRole.owner ∷ [];
  invites = [];
  refresh_tokens = first_token ∷ [];
  reset_tokens = [];
  verification_tokens = [];
  processed = [];
  tracking = record { metrics = []; categories = []; settings = []; logs = [] };
}

abbrev pub small_world : World
small_world = record { db = small_db; outbox = []; published = []; redis = redis_up; failures = [] }
