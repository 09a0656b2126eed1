-- ===== src/Session/Rotation.antt =====
-- What a rotation does to the world, by how it ends.
use lakira_backend.Base.{
  ℕ, ◌≡◌, refl, subst, ap, ◌∙◌, ◌||◌, ◌<◌, inl, inr, true, false, none, some, arith, Bool-cases,
  Option-cases, upsert_key,
}
use lakira_backend.Store.{
  RefreshToken, AuthUser, World, Result, Failure, ok, err, domain_error, unauthorized,
  unique_violation, plain_error, Step-cases,
}
use lakira_backend.Accounts.Users.{find_user}
use lakira_backend.Session.RefreshTokens.{
  Draw, Tokens, token_key, find_hash, hash_taken, revoke_rows, is_revoked, is_expired,
}
use lakira_backend.Session.UseCases.{
  issued_token, issue_refresh_token, replace_token, rotate_organization, rotate_live,
  rotate_transaction, rotate,
}
use lakira_backend.Session.Inputs.{
  SessionPorts, SessionTokens, RotateInput, RotateOutcome, rotated, rotate_input, payload_of,
}

abbrev pub tokens : World → Tokens
tokens w = w.db.refresh_tokens

-- The presented token as the rotation leaves it.
abbrev pub retired : Draw → ℕ → RefreshToken → RefreshToken
retired draw now old = record old { revoked_at = some now; replaced_by_id = some draw.token_id }

abbrev pub with_tokens : World → Tokens → World
with_tokens w rows = record w { db = record w.db { refresh_tokens = rows } }

module _ (ports : SessionPorts) (draw : Draw) (now : ℕ) (input : RotateInput) where
  abbrev pub successor : RefreshToken → ℕ → RefreshToken
  successor old org = issued_token ports draw now (rotate_input input old org)

  abbrev pub rotated_rows : RefreshToken → ℕ → Tokens → Tokens
  rotated_rows old org rows =
      upsert_key token_key (retired draw now old) (upsert_key token_key (successor old org) rows)

  replace_token_result :
      (old : RefreshToken) (user : AuthUser) (org : ℕ) (w : World) (o : RotateOutcome) (w' : World)
      → replace_token ports draw now input old user org w ≡ (ok o, w')
      → (o
          ≡ rotated (record {
            access_token = ports.sign (payload_of user org);
            raw_refresh_token = draw.raw_token;
          }))
        × (w' ≡ with_tokens w (rotated_rows old org (tokens w)))
        × (hash_taken (successor old org) (tokens w) ≡ false)
        × (old.replaced_by_id ≡ none)
  unfolding replace_token issue_refresh_token
  replace_token_result old user org w o w' h = ground arith

  rotate_organization_keeps : (old : RefreshToken) (w : World) → (rotate_organization old w).1 ≡ w
  unfolding rotate_organization
  rotate_organization_keeps old w = ground arith

  rotate_live_result :
      (old : RefreshToken) (w : World) (o : RotateOutcome) (w' : World)
      → rotate_live ports draw now input old w ≡ (ok o, w')
      → (user : AuthUser) × (org : ℕ) × (find_user old.user_id w.db.users ≡ some user)
        × (rotate_organization old w ≡ (ok org, w))
        × (replace_token ports draw now input old user org w ≡ (ok o, w'))
  unfolding rotate_live
  rotate_live_result old w o w' h = elim (Option-cases (find_user old.user_id w.db.users)) [
    | inl missing ↦ ground arith
    | inr (user, found) ↦ elim (Step-cases (rotate_organization old w)) [
      | inl (org, w1, chosen) ↦
          let same : w1 ≡ w = ground (arith, rotate_organization_keeps old w) in
          (
            user,
            org,
            found,
            subst (λ v. rotate_organization old w ≡ (ok org, v)) same chosen,
            ground arith,
          )
      | inr (e, w1, failed) ↦ ground arith
    ]
  ]

  -- A failed step changes no more than the database.
  replace_token_failure :
      (old : RefreshToken) (user : AuthUser) (org : ℕ) (w : World) (e : Failure) (w' : World)
      → replace_token ports draw now input old user org w ≡ (err e, w')
      → record w' { db = w.db } ≡ w
  unfolding replace_token issue_refresh_token
  replace_token_failure old user org w e w' h = ground arith

  rotate_live_failure :
      (old : RefreshToken) (w : World) (e : Failure) (w' : World)
      → rotate_live ports draw now input old w ≡ (err e, w')
      → record w' { db = w.db } ≡ w
  unfolding rotate_live
  rotate_live_failure old w e w' h = elim (Option-cases (find_user old.user_id w.db.users)) [
    | inl missing ↦ ground arith
    | inr (user, found) ↦ elim (Step-cases (rotate_organization old w)) [
      | inl (org, w1, chosen) ↦
          ground (arith, rotate_organization_keeps old w, replace_token_failure old user org w e w')
      | inr (f, w1, failed) ↦ ground (arith, rotate_organization_keeps old w)
    ]
  ]

  -- All that a successful rotation of `old` is.
  pub record Rotates (w : World) (r : SessionTokens) (w' : World) : Type 0 where
    pub old : RefreshToken
    pub user : AuthUser
    pub org : ℕ
    pub presented : find_hash (ports.hash_token input.raw_token) (tokens w) ≡ some old
    pub live : old.revoked_at ≡ none
    pub unexpired : now < old.expires_at
    pub known : find_user old.user_id w.db.users ≡ some user
    pub belongs : rotate_organization old w ≡ (ok org, w)
    pub answer : r ≡ record {
      access_token = ports.sign (payload_of user org);
      raw_refresh_token = draw.raw_token;
    }
    pub stored : w' ≡ with_tokens w (rotated_rows old org (tokens w))
    pub new_hash : hash_taken (successor old org) (tokens w) ≡ false

  rotate_live-Rotates :
      (old : RefreshToken) (w : World) (o : RotateOutcome) (w' : World)
      → find_hash (ports.hash_token input.raw_token) (tokens w) ≡ some old
      → old.revoked_at ≡ none
      → now < old.expires_at
      → rotate_live ports draw now input old w ≡ (ok o, w')
      → (r : SessionTokens) × (o ≡ rotated r) × Rotates w r w'
  rotate_live-Rotates old w o w' e live fresh h =
      let (user, org, known, belongs, done) = rotate_live_result old w o w' h in
      let (answer, stored, new_hash, unreplaced) = replace_token_result old user org w o w' done in
      (
        _,
        answer,
        record {
          old = old;
          user = user;
          org = org;
          presented = e;
          live = live;
          unexpired = fresh;
          known = known;
          belongs = belongs;
          answer = refl;
          stored = stored;
          new_hash = new_hash;
        },
      )

  -- Why a live token is not rotated: its user or the membership is missing, or a row stands in the
  -- way of the new one, or of the old one's update.
  pub data CannotRotate (w : World) (old : RefreshToken) (e : Failure) : Type 0 where
    no_user :
        find_user old.user_id w.db.users ≡ none
        → e ≡ domain_error unauthorized
        → CannotRotate w old e
    no_membership : rotate_organization old w ≡ (err e, w) → CannotRotate w old e
    taken :
        (org : ℕ)
        → hash_taken (successor old org) (tokens w) ≡ true
        → e ≡ unique_violation
        → CannotRotate w old e
    replaced : (old.replaced_by_id ≡ none → ⊥) → e ≡ plain_error → CannotRotate w old e
    doubled :
        (org : ℕ)
        → hash_taken (retired draw now old) (upsert_key token_key (successor old org) (tokens w))
          ≡ true
        → e ≡ unique_violation
        → CannotRotate w old e

  replace_token-CannotRotate :
      (old : RefreshToken) (user : AuthUser) (org : ℕ) (w w' : World) (e : Failure)
      → replace_token ports draw now input old user org w ≡ (err e, w')
      → CannotRotate w old e
  unfolding replace_token issue_refresh_token
  replace_token-CannotRotate old user org w w' e h =
      elim (Bool-cases (hash_taken (successor old org) (tokens w))) [
        | inl clash ↦ taken org clash (ground arith)
        | inr new ↦ elim (Option-cases old.replaced_by_id) [
          | inr (r, p) ↦ replaced (λ q. cc) (ground arith)
          | inl p ↦
              elim (Bool-cases (
                hash_taken (retired draw now old)
                  (upsert_key token_key (successor old org) (tokens w)))) [
                    | inl clash ↦ doubled org clash (ground arith)
                    | inr free ↦ absurd (ground arith)
                  ]
        ]
      ]

  rotate_live-CannotRotate :
      (old : RefreshToken) (w w' : World) (e : Failure)
      → rotate_live ports draw now input old w ≡ (err e, w')
      → CannotRotate w old e
  unfolding rotate_live
  rotate_live-CannotRotate old w w' e h = elim (Option-cases (find_user old.user_id w.db.users)) [
    | inl missing ↦ no_user missing (ground arith)
    | inr (user, found) ↦ elim (Step-cases (rotate_organization old w)) [
      | inl (org, w1, chosen) ↦
          let same : w1 ≡ w = ground (arith, rotate_organization_keeps old w) in
          replace_token-CannotRotate old user org w w' e (ground arith)
      | inr (f, w1, failed) ↦
          let same : w1 ≡ w = ground (arith, rotate_organization_keeps old w) in
          let own : f ≡ e = ground arith in
          no_membership (failed ∙ ap (λ v. (err f, v)) same ∙ ap (λ x. (err x, w)) own)
    ]
  ]

  -- The ways in which a call of `rotate` can end.
  pub data RotateCases (w : World) (step : Result SessionTokens × World) : Type 0 where
    rotates :
        (r : SessionTokens) (w' : World) → step ≡ (ok r, w') → Rotates w r w' → RotateCases w step
    unknown :
        find_hash (ports.hash_token input.raw_token) (tokens w) ≡ none
        → step ≡ (err (domain_error unauthorized), w)
        → RotateCases w step
    failed :
        (old : RefreshToken) (e : Failure)
        → find_hash (ports.hash_token input.raw_token) (tokens w) ≡ some old
        → old.revoked_at ≡ none
        → now < old.expires_at
        → CannotRotate w old e
        → step ≡ (err e, w)
        → RotateCases w step
    family_revoked :
        (old : RefreshToken)
        → find_hash (ports.hash_token input.raw_token) (tokens w) ≡ some old
        → (is_revoked old || is_expired now old) ≡ true
        → step ≡ (
          err (domain_error unauthorized),
          with_tokens w (revoke_rows old.family_id now (tokens w)),
        )
        → RotateCases w step

  pub rotate_cases : (w : World) → RotateCases w (rotate ports draw now input w)
  unfolding rotate rotate_transaction
  rotate_cases w = elim (Option-cases (find_hash (ports.hash_token input.raw_token) (tokens w))) [
    | inl absent ↦ unknown absent (ground arith)
    | inr (old, found) ↦ elim (Bool-cases (is_revoked old)) [
      | inl dead ↦ family_revoked old found (ground arith) (ground arith)
      | inr live ↦ elim (Bool-cases (is_expired now old)) [
        | inl late ↦ family_revoked old found (ground arith) (ground arith)
        | inr fresh ↦ elim (Step-cases (rotate_live ports draw now input old w)) [
          | inl (o, w', done) ↦
              let (r, same, all) =
                rotate_live-Rotates old w o w' found (ground arith) (ground arith) done in
              rotates r w' (ground arith) all
          | inr (e, w', stopped) ↦
              failed old e found (ground arith) (ground arith)
                (rotate_live-CannotRotate old w w' e stopped)
                (ground (arith, rotate_live_failure old w e w' stopped))
        ]
      ]
    ]
  ]
