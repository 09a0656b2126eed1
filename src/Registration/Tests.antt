-- ===== src/Registration/Tests.antt =====
-- The theorems on registration at small inputs.
use lakira_backend.Base.{true, ◌+◌, ◌≡◌, refl, none, [], ◌∷◌, ◌++◌, count_where, upsert_key}
use lakira_backend.Text.{text_eq, trim, trim_start}
use lakira_backend.Store.{World, ok, err, owner, active, unique_violation}
use lakira_backend.Samples.{small_world}
use lakira_backend.Members.Table.{counts_as}
use lakira_backend.Session.RefreshTokens.{hash_taken}
use lakira_backend.Session.UseCases.{issue_refresh_token}
use lakira_backend.Registration.UseCase.{
  RegisterPorts, RegisterDraw, RegisterInput, Registered, create_account, register_user, user_data,
  created_user,
}
use lakira_backend.Registration.Laws.{failed_register, register_owns}

abbrev ports : RegisterPorts
ports = record {
  session = record {
    hash_token = λ t. t + 1000;
    sign = λ p. p.id;
    compare_password = text_eq;
    to_lower_case = λ t. t;
    digest = λ t. 0;
    ttl_days = 30;
  };
  hash_password = λ p. 104 ∷ p;
  slug_of = λ name id. name;
}

abbrev draw : RegisterDraw
draw = record {
  user_id = 3;
  organization_id = 11;
  membership_id = 12;
  token = record { token_id = 23; new_family_id = 33; raw_token = 9 };
}

abbrev bob : RegisterInput
bob = record {
  email = 98 ∷ [];
  password = 112 ∷ [];
  password_confirmation = 112 ∷ [];
  username = 98 ∷ [];
  is_public_profile = none;
  user_agent = none;
  ip = none;
}

abbrev with_bob : World
with_bob = (register_user ports draw 50 bob small_world).1

abbrev bob_registered : Registered
bob_registered = record {
  user = created_user 50 (user_data ports draw bob);
  access_token = 3;
  raw_refresh_token = 9;
}

registered_run : register_user ports draw 50 bob small_world ≡ (ok bob_registered, with_bob)
unfolding register_user create_account issue_refresh_token hash_taken upsert_key text_eq trim
registered_run = refl

-- The raw token 7 hashes to that of a stored token.
abbrev clashing : RegisterDraw
clashing = record draw { token = record { token_id = 23; new_family_id = 33; raw_token = 7 } }

abbrev rolled_back : World
rolled_back = (register_user ports clashing 50 bob small_world).1

refused_run : register_user ports clashing 50 bob small_world ≡ (err unique_violation, rolled_back)
unfolding register_user create_account issue_refresh_token hash_taken upsert_key text_eq trim
refused_run = refl

failed_register_example : rolled_back ≡ small_world
failed_register_example =
    failed_register ports clashing 50 bob small_world rolled_back unique_violation refused_run

register_owns_example :
    (with_bob.db.users
      ≡ small_world.db.users
        ++ record {
          id = 3;
          email = 98 ∷ [];
          username = 98 ∷ [];
          password_hash = 104 ∷ 112 ∷ [];
          is_public_profile = true;
          email_verified_at = none;
          created_at = 50;
          updated_at = 50;
          deleted_at = none;
        }
          ∷ [])
    × (with_bob.db.memberships
        ≡ small_world.db.memberships
          ++ record {
            id = 12;
            user_id = 3;
            organization_id = 11;
            role = owner;
            status = active;
            joined_at = 50;
          }
            ∷ [])
    × (count_where (counts_as 11 owner) with_bob.db.memberships ≡ 1)
unfolding trim trim_start
register_owns_example =
    register_owns ports draw 50 bob small_world with_bob bob_registered registered_run refl
