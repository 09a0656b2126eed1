-- ===== src/PasswordReset/Tests.antt =====
-- The theorems on password resets at small inputs.
use lakira_backend.Base.{suc, ◌+◌, List, ◌≤◌, ◌≡◌, refl, true, false, none, some, [], ◌∷◌, length}
use lakira_backend.Text.{text_eq}
use lakira_backend.Store.{PasswordResetToken, World, ok, err, domain_error, validation}
use lakira_backend.Samples.{ann, small_world}
use lakira_backend.PasswordReset.Tokens.{find_reset_hash, use_rows}
use lakira_backend.PasswordReset.Requests.{ResetPorts, ResetDraw}
use lakira_backend.PasswordReset.Resets.{ResetInput, HashPorts, reset_password}
use lakira_backend.PasswordReset.Laws.{reset_password_once}
use lakira_backend.PasswordReset.OneEmail.{JobRun, run_jobs, failed_runs, run_jobs_one_email}

abbrev hash_ports : HashPorts
hash_ports = record { sha256 = λ t. t + 500; hash_password = λ p. 104 ∷ p }

abbrev reset_ports : ResetPorts
reset_ports = record {
  queue_is_enabled = true;
  publish_answer = record { reaches = true; confirms = false };
  send_answer = λ mail. record { delivers = true; returns = true };
  sha256 = λ t. t + 500;
  to_lower_case = λ t. t;
  ttl_minutes = 15;
  routing_key = [];
  queue_name = 113 ∷ [];
}

abbrev draw : ResetDraw
draw = record { token_id = 40; raw_token = 3; message_id = 109 ∷ [] }

abbrev open_token : PasswordResetToken
open_token = record {
  id = 40;
  user_id = 1;
  token_hash = 503;
  expires_at = 900_010;
  used_at = none;
  created_at = 10;
}

abbrev asked : World
asked = record small_world {
  db = record small_world.db { reset_tokens = open_token ∷ [] };
  outbox = record { to = 97 ∷ []; link_token = 3 } ∷ [];
}

abbrev new_password : ResetInput
new_password = record { token = 3; password = 120 ∷ []; password_confirmation = 120 ∷ [] }

abbrev reset_done : World
reset_done = record asked {
  db = record asked.db {
    users = record ann { password_hash = 104 ∷ 120 ∷ []; updated_at = 20 } ∷ [];
    reset_tokens = record open_token { used_at = some 20 } ∷ [];
  };
}

reset_works : reset_password hash_ports 20 new_password asked ≡ (ok tt, reset_done)
unfolding reset_password find_reset_hash use_rows text_eq
reset_works = refl

reset_password_once_example :
    reset_password hash_ports 30 new_password reset_done
    ≡ (err (domain_error validation), reset_done)
reset_password_once_example =
    reset_password_once hash_ports 20 new_password asked reset_done reset_works 30 new_password refl

-- The first run's commit fails after its send; the second is processed, the third a duplicate.
abbrev three_runs : List JobRun
three_runs =
    record { draw = draw; now = 10; commits = false }
    ∷ record { draw = draw; now = 20; commits = true }
    ∷ record { draw = draw; now = 30; commits = true }
    ∷ []

run_jobs_one_email_example :
    length (run_jobs reset_ports (109 ∷ []) 1 three_runs small_world).outbox
    ≤ suc (failed_runs reset_ports (109 ∷ []) 1 three_runs small_world + length small_world.outbox)
run_jobs_one_email_example = run_jobs_one_email reset_ports (109 ∷ []) 1 three_runs small_world
