-- ===== src/PasswordReset/Laws.antt =====
-- What resetting a password, and the job that sends the link, do to the tokens.
use lakira_backend.Base.{
  ℕ, suc, ◌≤◌, ◌≡◌, refl, inl, inr, true, some, [], ◌∷◌, arith, length, Option-cases,
}
use lakira_backend.Store.{PasswordResetToken, World, ok, err, domain_error, validation}
use lakira_backend.Accounts.Users.{find_user}
use lakira_backend.Messaging.Once.{KeepsRecord}
use lakira_backend.PasswordReset.Tokens.{ResetTokens, find_reset_hash, use_rows, is_used}
use lakira_backend.PasswordReset.Requests.{ResetPorts, ResetDraw, issue, execute_in_transaction}
use lakira_backend.PasswordReset.Resets.{ResetInput, HashPorts, reset_password}

find_reset_hash-use_rows :
    (h at : ℕ) (t : PasswordResetToken) (rows : ResetTokens)
    → find_reset_hash h rows ≡ some t
    → find_reset_hash h (use_rows t.id at rows) ≡ some (record t { used_at = some at })
unfolding find_reset_hash use_rows
find_reset_hash-use_rows h at t [] e = cc
find_reset_hash-use_rows h at t (u ∷ rows) e = ground (arith, find_reset_hash-use_rows h at t rows)

reset_marks :
    (ports : HashPorts) (now : ℕ) (input : ResetInput) (w w' : World)
    → reset_password ports now input w ≡ (ok tt, w')
    → (t : PasswordResetToken) × (find_reset_hash (ports.sha256 input.token) w.db.reset_tokens
        ≡ some t)
      × (w'.db.reset_tokens ≡ use_rows t.id now w.db.reset_tokens)
unfolding reset_password
reset_marks ports now input w w' h =
    elim (Option-cases (find_reset_hash (ports.sha256 input.token) w.db.reset_tokens)) [
      | inl missing ↦ ground arith
      | inr (t, found) ↦ elim (Option-cases (find_user t.user_id w.db.users)) [
        | inl unknown ↦ ground arith
        | inr (user, known) ↦ (t, found, ground arith)
      ]
    ]

used_is_refused :
    (ports : HashPorts) (now : ℕ) (input : ResetInput) (w : World) (t : PasswordResetToken)
    → find_reset_hash (ports.sha256 input.token) w.db.reset_tokens ≡ some t
    → is_used t ≡ true
    → reset_password ports now input w ≡ (err (domain_error validation), w)
unfolding reset_password
used_is_refused ports now input w t found used = ground arith

-- A reset token works once: after a password was reset with it, every later reset with the same
-- token is refused with 400 and changes nothing, at any time and with any password.
pub reset_password_once :
    (ports : HashPorts) (now : ℕ) (input : ResetInput) (w w' : World)
    → reset_password ports now input w ≡ (ok tt, w')
    → (later : ℕ) (again : ResetInput) → again.token ≡ input.token
    → reset_password ports later again w' ≡ (err (domain_error validation), w')
reset_password_once ports now input w w' h later again same =
    let (t, found, marked) = reset_marks ports now input w w' h in
    let spent = find_reset_hash-use_rows (ports.sha256 input.token) now t w.db.reset_tokens found in
    used_is_refused ports later again w' (record t { used_at = some now }) (rw (marked, same) spent)
      refl

module _ (ports : ResetPorts) where
  pub execute-KeepsRecord :
      (draw : ResetDraw) (now user_id : ℕ)
      → KeepsRecord (execute_in_transaction ports draw now user_id)
  unfolding execute_in_transaction issue
  execute-KeepsRecord draw now user_id = record { keeps = λ w. ground arith }

  -- A job sends one email at most, and none where it fails.
  pub execute-outbox :
      (draw : ResetDraw) (now user_id : ℕ) (w : World)
      → length (execute_in_transaction ports draw now user_id w).1.outbox ≤ suc (length w.outbox)
  unfolding execute_in_transaction issue
  execute-outbox draw now user_id w = ground arith
