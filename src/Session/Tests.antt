-- ===== src/Session/Tests.antt =====
-- Runs of the session use cases on a small world.
use lakira_backend.Base.{ℕ, ◌≡◌, refl, sym, ap, none, some, [], ◌∷◌, ◌+◌, arith, upsert_key}
use lakira_backend.Text.{text_eq}
use lakira_backend.Store.{RefreshToken, World, ok, err, domain_error, unauthorized}
use lakira_backend.Samples.{first_token, small_world}
use lakira_backend.Session.RefreshTokens.{Draw, hash_taken, find_hash}
use lakira_backend.Session.UseCases.{
  rotate, rotate_transaction, rotate_live, rotate_organization, replace_token, issue_refresh_token,
}
use lakira_backend.Session.Inputs.{SessionPorts, SessionTokens, RotateInput}
use lakira_backend.Session.Rotation.{tokens, with_tokens, rotated_rows}
use lakira_backend.Session.Changes.{IsSound, live_count}
use lakira_backend.Session.Reach.{SessionReach-IsSound}
use lakira_backend.Session.Steps.{IsFresh, here, next, rotating}
use lakira_backend.Session.Replay.{replay_ends_family}
use lakira_backend.Session.Spent.{IsSpent}

abbrev ports : SessionPorts
ports = record {
  hash_token = λ t. t + 1000;
  sign = λ p. p.id;
  compare_password = text_eq;
  to_lower_case = λ t. t;
  digest = λ t. 0;
  ttl_days = 30;
}

abbrev draw_two : Draw
draw_two = record { token_id = 21; new_family_id = 31; raw_token = 8 }

abbrev present : ℕ → RotateInput
present raw = record { raw_token = raw; user_agent = none; ip = none }

abbrev draw_three : Draw
draw_three = record { token_id = 22; new_family_id = 32; raw_token = 9 }

abbrev pair_of : ℕ → ℕ → SessionTokens
pair_of access raw = record { access_token = access; raw_refresh_token = raw }

-- The world after Ann's token 7 was rotated to token 8.
abbrev after_rotation : World
after_rotation =
    with_tokens small_world
      (rotated_rows ports draw_two 100 (present 7) first_token 9 (tokens small_world))

first_rotation :
    rotate ports draw_two 100 (present 7) small_world ≡ (ok (pair_of 1 8), after_rotation)
unfolding rotate rotate_transaction rotate_live rotate_organization replace_token
    issue_refresh_token upsert_key hash_taken find_hash
first_rotation = refl

small-IsSound : IsSound (tokens small_world)
small-IsSound = record {
  keyed = (refl, tt);
  single = λ family. ground arith;
  orderly = (λ e. cc, tt);
}

two-IsFresh : IsFresh draw_two small_world
two-IsFresh = (refl, refl)

first_found : find_hash (ports.hash_token 7) (tokens small_world) ≡ some first_token
unfolding find_hash
first_found = refl

replay_ends_family_example :
    ((rotate ports draw_three 200 (present 7) after_rotation).0 ≡ err (domain_error unauthorized))
    × (live_count 30 (tokens (rotate ports draw_three 200 (present 7) after_rotation).1) ≡ 0)
replay_ends_family_example =
    replay_ends_family ports draw_two 100 (present 7) small_world first_token (pair_of 1 8)
      after_rotation small-IsSound two-IsFresh first_found first_rotation after_rotation draw_three
      200 (present 7) here refl

SessionReach-IsSound_example : IsSound (tokens after_rotation)
SessionReach-IsSound_example =
    SessionReach-IsSound ports
      (next here
        (rotating draw_two 100 (present 7) two-IsFresh (sym (ap (λ step. step.1) first_rotation))))
      small-IsSound

-- Ann's token, revoked.
abbrev spent_token : RefreshToken
spent_token = record first_token { revoked_at = some 50 }

abbrev spent_world : World
spent_world = with_tokens small_world (spent_token ∷ [])

replayed-IsSpent : IsSpent (ports.hash_token 7) 30 (tokens spent_world)
unfolding find_hash
replayed-IsSpent = record { token = spent_token; found = refl; dead = refl; same_family = refl }
