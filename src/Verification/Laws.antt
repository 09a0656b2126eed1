-- ===== src/Verification/Laws.antt =====
-- What verifying an address, and asking for it, do.
use lakira_backend.Base.{
  ℕ, ◌+◌, ◌*◌, ◌≡◌, refl, sym, ap, ◌∙◌, inl, inr, true, ◌&&◌, none, some, List, [], ◌∷◌, arith,
  update_where, replace_key, count_where, count_where-append, find_where-update_where,
  find_where-holds, Option-cases, ◌==◌,
}
use lakira_backend.Store.{
  EmailVerificationToken, AuthUser, World, ok, err, domain_error, validation,
}
use lakira_backend.Accounts.Users.{find_user, is_kept, user_key, saved_row, set_email_verified_at}
use lakira_backend.Verification.Tokens.{
  VerificationTokens, find_verification_hash, has_id, used, is_usable, is_open_of, revoke_open,
}
use lakira_backend.Verification.UseCases.{
  VerificationPorts, VerificationDraw, issue, execute_in_transaction, verify_email,
}

-- What holds of a call that verified an address.
pub record Verifies (ports : VerificationPorts) (now raw : ℕ) (w w' : World) : Type 0 where
  pub token : EmailVerificationToken
  pub presented : find_verification_hash (ports.sha256 raw) w.db.verification_tokens ≡ some token
  pub usable : is_usable now token ≡ true
  pub user : AuthUser
  pub verified : find_user token.user_id w'.db.users ≡ some user
  pub at : user.email_verified_at ≡ some now
  pub spent :
      w'.db.verification_tokens ≡ update_where (has_id token.id) (used now) w.db.verification_tokens

saved_user :
    (id : ℕ) (u next : AuthUser) (rows : List AuthUser)
    → find_user id rows ≡ some u
    → next.id ≡ id
    → is_kept next ≡ true
    → find_user id (replace_key user_key id next rows) ≡ some next
saved_user id u next [] h own kept = cc
saved_user id u next (v ∷ rows) h own kept = ground (arith, saved_user id u next rows)

-- Whoever verifies an address presented the token of a stored row that was neither used nor expired.
-- That row's user is verified as of the call afterwards, and the rows with its id, and no others, are
-- marked as used.
verify_marks :
    (ports : VerificationPorts) (now raw : ℕ) (w w' : World)
    → verify_email ports now raw w ≡ (ok tt, w')
    → Verifies ports now raw w w'
unfolding verify_email
verify_marks ports now raw w w' h =
    elim (Option-cases (find_verification_hash (ports.sha256 raw) w.db.verification_tokens)) [
      | inl missing ↦ ground arith
      | inr (t, found) ↦ elim (Option-cases (find_user t.user_id w.db.users)) [
        | inl unknown ↦ ground arith
        | inr (u, known) ↦
            let holds = find_where-holds (λ v. v.id == t.user_id && is_kept v) w.db.users u known in
            let own : u.id ≡ t.user_id = ground arith in
            let kept : is_kept u ≡ true = ground arith in
            let next = set_email_verified_at now now u in
            record {
              token = t;
              presented = found;
              usable = ground arith;
              user = saved_row now next u;
              verified =
                  ground (
                    arith,
                    saved_user t.user_id u (saved_row now next u) w.db.users known own kept,
                  );
              at = refl;
              spent = ground arith;
            }
      ]
    ]

used_is_refused :
    (ports : VerificationPorts) (now raw : ℕ) (w : World) (t : EmailVerificationToken)
    (then_used : ℕ)
    → find_verification_hash (ports.sha256 raw) w.db.verification_tokens ≡ some (used then_used t)
    → verify_email ports now raw w ≡ (err (domain_error validation), w)
unfolding verify_email
used_is_refused ports now raw w t then_used found = ground arith

find_verification_hash-used :
    (h now : ℕ) (t : EmailVerificationToken) (rows : VerificationTokens)
    → find_verification_hash h rows ≡ some t
    → find_verification_hash h (update_where (has_id t.id) (used now) rows) ≡ some (used now t)
unfolding find_verification_hash
find_verification_hash-used h now t rows found =
    find_where-update_where (λ u. u.token_hash == h) (has_id t.id) (used now) rows t (λ u. refl)
      found (ground arith)

nothing_owed :
    (ports : VerificationPorts) (draw : VerificationDraw) (later user_id at : ℕ) (user : AuthUser)
    (w : World)
    → find_user user_id w.db.users ≡ some user
    → user.email_verified_at ≡ some at
    → execute_in_transaction ports draw later user_id w ≡ (ok tt, w)
unfolding execute_in_transaction issue
nothing_owed ports draw later user_id at user w known verified = ground arith

-- A verification link works once, and ends the matter: after it verified an address, the same token
-- is refused with 400 at any later time, and a queued job that asks for another email to that user
-- succeeds and changes nothing.
pub verify_once :
    (ports : VerificationPorts) (now raw : ℕ) (w w' : World)
    → verify_email ports now raw w ≡ (ok tt, w')
    → (later : ℕ)
    → (verify_email ports later raw w' ≡ (err (domain_error validation), w'))
      × ((token : EmailVerificationToken) (draw : VerificationDraw)
          → find_verification_hash (ports.sha256 raw) w.db.verification_tokens ≡ some token
          → execute_in_transaction ports draw later token.user_id w' ≡ (ok tt, w'))
verify_once ports now raw w w' h later =
    let v = verify_marks ports now raw w w' h in
    let spent =
      find_verification_hash-used (ports.sha256 raw) now v.token w.db.verification_tokens
        v.presented in
    (
      used_is_refused ports later raw w' v.token now
          (ap (find_verification_hash (ports.sha256 raw)) v.spent ∙ spent),
      λ token draw found.
          let same : v.token ≡ token = ground (arith, v.presented) in
          nothing_owed ports draw later token.user_id now v.user w'
            (ap (λ t. find_user t.user_id w'.db.users) (sym same) ∙ v.verified) v.at,
    )

count_open-revoke :
    (user now : ℕ) (rows : VerificationTokens)
    → count_where (is_open_of user) (revoke_open user now rows) ≡ 0
unfolding revoke_open
count_open-revoke user now [] = refl
count_open-revoke user now (t ∷ rows) = ground (arith, count_open-revoke user now rows)

-- Whenever the job succeeds for a user whose address is not verified, that user has exactly one
-- token that is not used, and one email with its link has been accepted.
send_one_open :
    (ports : VerificationPorts) (draw : VerificationDraw) (now : ℕ) (user : AuthUser) (w w' : World)
    → find_user user.id w.db.users ≡ some user
    → user.email_verified_at ≡ none
    → execute_in_transaction ports draw now user.id w ≡ (ok tt, w')
    → (count_where (is_open_of user.id) w'.db.verification_tokens ≡ 1)
      × (w'.outbox ≡ record { to = user.email; link_token = draw.raw_token } ∷ w.outbox)
unfolding execute_in_transaction issue
send_one_open ports draw now user w w' known unverified h = ground (
  arith,
  count_open-revoke user.id now w.db.verification_tokens,
  count_where-append (is_open_of user.id) (revoke_open user.id now w.db.verification_tokens) (
      record {
        id = draw.token_id;
        user_id = user.id;
        token_hash = ports.sha256 draw.raw_token;
        expires_at = now + ports.ttl_seconds * 1000;
        used_at = none;
        created_at = now;
      }
      ∷ []),
)
