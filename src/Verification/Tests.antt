-- ===== src/Verification/Tests.antt =====
-- The theorems on email verification at small inputs.
use lakira_backend.Base.{◌≡◌, refl, ◌+◌, true, none, some, [], ◌∷◌}
use lakira_backend.Store.{EmailVerificationToken, World, ok, err, domain_error, validation}
use lakira_backend.Samples.{small_db, small_world}
use lakira_backend.Verification.Tokens.{find_verification_hash, revoke_open}
use lakira_backend.Verification.UseCases.{
  VerificationPorts, VerificationDraw, issue, execute_in_transaction, verify_email,
}
use lakira_backend.Verification.Laws.{verify_once}

abbrev ports : VerificationPorts
ports = record {
  sha256 = λ n. 1000 + n;
  send_answer = λ m. record { delivers = true; returns = true };
  ttl_seconds = 86400;
}

abbrev draw : VerificationDraw
draw = record { token_id = 70; raw_token = 3 }

-- Ann's token, whose raw value is 3.
abbrev ann_token : EmailVerificationToken
ann_token = record {
  id = 70;
  user_id = 1;
  token_hash = 1003;
  expires_at = 5000;
  used_at = none;
  created_at = 0;
}

abbrev asked : World
asked = record small_world { db = record small_db { verification_tokens = ann_token ∷ [] } }

abbrev verified : World
verified = (verify_email ports 100 3 asked).1

verify_run : verify_email ports 100 3 asked ≡ (ok tt, verified)
unfolding verify_email find_verification_hash
verify_run = refl

verify_once_example :
    (verify_email ports 200 3 verified ≡ (err (domain_error validation), verified))
    × ((token : EmailVerificationToken) (other : VerificationDraw)
        → find_verification_hash (ports.sha256 3) asked.db.verification_tokens ≡ some token
        → execute_in_transaction ports other 200 token.user_id verified ≡ (ok tt, verified))
verify_once_example = verify_once ports 100 3 asked verified verify_run 200

abbrev sent : World
sent = (execute_in_transaction ports draw 0 1 small_world).1

send_run : execute_in_transaction ports draw 0 1 small_world ≡ (ok tt, sent)
unfolding execute_in_transaction issue revoke_open
send_run = refl
