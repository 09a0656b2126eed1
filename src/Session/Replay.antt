-- ===== src/Session/Replay.antt =====
-- Presenting a refresh token again after it was rotated or signed out.
use lakira_backend.Base.{
  ℕ, ◌≡◌, ◌≢◌, sym, ap, ◌∙◌, none, some, [], ◌∷◌, ◌++◌, arith, ◌==◌, if◌then◌else◌, find_key,
  upsert_key, append_one-IsKeyed, find_key-append,
}
use lakira_backend.Store.{RefreshToken, World, ok, err, domain_error, unauthorized}
use lakira_backend.Session.RefreshTokens.{Draw, Tokens, token_key, find_hash}
use lakira_backend.Session.UseCases.{rotate, rotate_transaction}
use lakira_backend.Session.Inputs.{SessionPorts, SessionTokens, RotateInput}
use lakira_backend.Session.Rotation.{
  tokens, RotateCases, rotates as has_rotated, unknown, failed, family_revoked, rotate_cases,
  rotated_rows, successor,
}
use lakira_backend.Session.Changes.{
  retire, IsSound, live_count, live_count-revoke_rows, rotated_table,
}
use lakira_backend.Session.Reach.{SessionReach-IsSound}
use lakira_backend.Session.Steps.{SessionReach, here, next, rotating, IsFresh}
use lakira_backend.Session.Spent.{
  IsSpent, found_is_keyed, find_hash-retire, find_hash-append, SessionReach-IsSpent,
}

-- A call that presents a revoked token is refused with 401, revokes the token's whole family, and
-- leaves the number of live tokens of every other family.
pub rotate_spent :
    (ports : SessionPorts) (draw : Draw) (now : ℕ) (input : RotateInput) (w : World) (family : ℕ)
    → IsSpent (ports.hash_token input.raw_token) family (tokens w)
    → ((rotate ports draw now input w).0 ≡ err (domain_error unauthorized))
      × (live_count family (tokens (rotate ports draw now input w).1) ≡ 0)
      × ((other : ℕ)
          → family ≢ other
          → live_count other (tokens (rotate ports draw now input w).1)
            ≡ live_count other (tokens w))
unfolding rotate rotate_transaction
rotate_spent ports draw now input w family p =
    let counts = λ (other : ℕ). live_count-revoke_rows family other now (tokens w) in
    (
      ground (arith, p.found, p.dead),
      ground (arith, p.found, p.dead, p.same_family, counts family),
      λ other apart. ground (arith, p.found, p.dead, p.same_family, counts other),
    )

retire-IsSpent :
    (h now : ℕ) (old t : RefreshToken) (rows : Tokens)
    → IsSound rows
    → find_hash h rows ≡ some old
    → find_key token_key t.id rows ≡ none
    → IsSpent h old.family_id
        (upsert_key token_key (retire now t.id old) (upsert_key token_key t rows))
retire-IsSpent h now old t rows s found new =
    let known = found_is_keyed h old rows s found in
    let there : find_key token_key old.id (rows ++ t ∷ []) ≡ some old =
      ground (arith, find_key-append token_key old.id rows t) in
    rw (rotated_table old t now rows known new) (record {
      token = if old.id == old.id then retire now t.id old else old;
      found =
          find_hash-retire h old.id now t.id old old (rows ++ t ∷ [])
            (append_one-IsKeyed token_key rows t s.keyed new) there
            (find_hash-append h old t rows found);
      dead = ground arith;
      same_family = ground arith;
    })

rotated-IsSpent :
    (ports : SessionPorts) (draw : Draw) (now : ℕ) (input : RotateInput) (w : World)
    (old : RefreshToken) (r : SessionTokens) (w' : World)
    → find_hash (ports.hash_token input.raw_token) (tokens w) ≡ some old
    → IsSound (tokens w)
    → IsFresh draw w
    → rotate ports draw now input w ≡ (ok r, w')
    → IsSpent (ports.hash_token input.raw_token) old.family_id (tokens w')
rotated-IsSpent ports draw now input w old r w' found s fresh h =
    go (rotate_cases ports draw now input w)
  where
    go :
        RotateCases ports draw now input w (rotate ports draw now input w)
        → IsSpent (ports.hash_token input.raw_token) old.family_id (tokens w')
    go (has_rotated r' v e all) =
        let same : all.old ≡ old = ground (arith, all.presented) in
        let last : tokens w' ≡ rotated_rows ports draw now input all.old all.org (tokens w) =
          cc (ap (λ step. tokens step.1) (sym h ∙ e), ap tokens all.stored) in
        rw (last, same)
          (retire-IsSpent (ports.hash_token input.raw_token) now old
            (successor ports draw now input old all.org) (tokens w) s found fresh.0)
    go (unknown p e) = cc
    go (failed o f p l u c e) = cc
    go (family_revoked o p q e) = cc

-- Theft is detected. Once a refresh token has been rotated, whoever presents it again, after any
-- history of session calls, is refused with 401, and no token of its family is live afterwards:
-- neither the thief's nor the owner's. The table was sound and the ids drawn by the rotation new.
pub replay_ends_family :
    (ports : SessionPorts) (draw : Draw) (now : ℕ) (input : RotateInput) (w : World)
    (old : RefreshToken) (r : SessionTokens) (w' : World)
    → IsSound (tokens w)
    → IsFresh draw w
    → find_hash (ports.hash_token input.raw_token) (tokens w) ≡ some old
    → rotate ports draw now input w ≡ (ok r, w')
    → (w'' : World) (draw' : Draw) (later : ℕ) (again : RotateInput) → SessionReach ports w' w''
    → again.raw_token ≡ input.raw_token
    → ((rotate ports draw' later again w'').0 ≡ err (domain_error unauthorized))
      × (live_count old.family_id (tokens (rotate ports draw' later again w'').1) ≡ 0)
replay_ends_family ports draw now input w old r w' s fresh found h w'' draw' later again reach
      same =
    let step = rotating draw now input fresh (sym (ap (λ p. p.1) h)) in
    let spent = rotated-IsSpent ports draw now input w old r w' found s fresh h in
    let sound = SessionReach-IsSound ports (next here step) s in
    let still =
      SessionReach-IsSpent ports (ports.hash_token input.raw_token) old.family_id reach sound
        spent in
    let result = rotate_spent ports draw' later again w'' old.family_id (rw same still) in
    (result.0, result.1)
