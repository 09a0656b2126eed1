-- ===== src/Session/Steps.antt =====
-- Histories of session calls, and the changes of the token table that a rotation, a sign-out and an
-- issue are.
use lakira_backend.Base.{
  ℕ, ◌≡◌, refl, sym, subst, ap, ◌∙◌, inl, inr, none, arith, find_key, find_where, Option-cases,
  Bool-cases,
}
use lakira_backend.Store.{World}
use lakira_backend.Session.RefreshTokens.{Draw, Tokens, token_key, find_hash, hash_taken}
use lakira_backend.Session.UseCases.{
  issue_refresh_token, rotate, revoke_refresh_token_family, switch_organization, login,
  issued_token,
}
use lakira_backend.Session.Inputs.{SessionPorts, RotateInput, SwitchInput, LoginInput, IssueInput}
use lakira_backend.Session.Rotation.{
  tokens, successor, RotateCases, rotates, unknown, failed, family_revoked, rotate_cases,
}
use lakira_backend.Session.Changes.{Change, revokes, signs_in, rotates as rotates_rows, in_family}

-- The ids that a call draws are on no row yet.
abbrev pub IsFresh : Draw → World → Type 0
IsFresh draw w =
    (find_key token_key draw.token_id (tokens w) ≡ none)
    × (find_where (in_family draw.new_family_id) (tokens w) ≡ none)

-- One call, whatever it answers.
pub data SessionStep (ports : SessionPorts) (w w' : World) : Type 0 where
  rotating :
      (draw : Draw) (now : ℕ) (input : RotateInput)
      → IsFresh draw w
      → w' ≡ (rotate ports draw now input w).1
      → SessionStep ports w w'
  signing_out :
      (now raw : ℕ) → w' ≡ (revoke_refresh_token_family ports now raw w).1 → SessionStep ports w w'
  switching :
      (draw : Draw) (now : ℕ) (input : SwitchInput)
      → IsFresh draw w
      → w' ≡ (switch_organization ports draw now input w).1
      → SessionStep ports w w'
  signing_in :
      (draw : Draw) (now : ℕ) (input : LoginInput)
      → IsFresh draw w
      → w' ≡ (login ports draw now input w).1
      → SessionStep ports w w'

pub data SessionReach (ports : SessionPorts) (w : World) : World → Type 0 where
  here : SessionReach ports w w
  next : {u v : World} → SessionReach ports w u → SessionStep ports u v → SessionReach ports w v

-- A sequence of changes of the table.
pub data Changes (rows : Tokens) : Tokens → Type 0 where
  none_yet : Changes rows rows
  and_then : {mid last : Tokens} → Changes rows mid → Change mid last → Changes rows last

pub single_step : {rows rows' : Tokens} → Change rows rows' → Changes rows rows'
single_step c = and_then none_yet c

pub unchanged : (rows rows' : Tokens) → rows' ≡ rows → Changes rows rows'
unchanged rows rows' e = subst (λ r. Changes rows r) (sym e) none_yet

pub rotate-Changes :
    (ports : SessionPorts) (draw : Draw) (now : ℕ) (input : RotateInput) (w : World)
    → IsFresh draw w
    → Changes (tokens w) (tokens (rotate ports draw now input w).1)
rotate-Changes ports draw now input w fresh = go (rotate_cases ports draw now input w)
  where
    go :
        RotateCases ports draw now input w (rotate ports draw now input w)
        → Changes (tokens w) (tokens (rotate ports draw now input w).1)
    go (rotates r w' e all) = single_step (
        rotates_rows all.old (successor ports draw now input all.old all.org)
          (ports.hash_token input.raw_token) now all.presented all.live fresh.0 refl refl refl
          (ap (λ step. tokens step.1) e ∙ ap tokens all.stored))
    go (unknown p e) = rw e none_yet
    go (failed old f p l u c e) = rw e none_yet
    go (family_revoked old found dead e) = rw e (single_step (revokes old.family_id now refl))

pub sign_out-Changes :
    (ports : SessionPorts) (now raw : ℕ) (w : World)
    → Changes (tokens w) (tokens (revoke_refresh_token_family ports now raw w).1)
unfolding revoke_refresh_token_family
sign_out-Changes ports now raw w =
    elim (Option-cases (find_hash (ports.hash_token raw) (tokens w))) [
      | inl missing ↦ unchanged _ _ (ground arith)
      | inr (old, found) ↦ single_step (revokes old.family_id now (ground arith))
    ]

-- Issuing a token in a new family either adds it or is refused.
pub issue-Changes :
    (ports : SessionPorts) (draw : Draw) (now : ℕ) (input : IssueInput) (w : World)
    → input.family_id ≡ none
    → IsFresh draw w
    → Changes (tokens w) (tokens (issue_refresh_token ports draw now input w).1)
unfolding issue_refresh_token
issue-Changes ports draw now input w new fresh =
    elim (Bool-cases (hash_taken (issued_token ports draw now input) (tokens w))) [
      | inl taken ↦ unchanged _ _ (ground arith)
      | inr free ↦ single_step (
          signs_in (issued_token ports draw now input) fresh.0 (rw new fresh.1) refl (ground arith))
    ]

pub Changes-trans :
    {rows mid last : Tokens} → Changes rows mid → Changes mid last → Changes rows last
Changes-trans c none_yet = c
Changes-trans c (and_then d e) = and_then (Changes-trans c d) e
