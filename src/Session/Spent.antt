-- ===== src/Session/Spent.antt =====
-- Refresh tokens that are revoked, and the calls that follow.
use lakira_backend.Base.{
  ℕ, ◌≡◌, subst, inl, inr, true, false, none, some, [], ◌∷◌, ◌++◌, arith, ◌==◌, ==_iff,
  if◌then◌else◌, is_some, find_key, replace_key, IsKeyed, replace_key_missing,
  find_key_of_find_where, append_one-IsKeyed, find_key-append, Bool-cases,
}
use lakira_backend.Store.{RefreshToken, World}
use lakira_backend.Session.RefreshTokens.{Tokens, token_key, find_hash, revoke_rows}
use lakira_backend.Session.Inputs.{SessionPorts}
use lakira_backend.Session.Rotation.{tokens}
use lakira_backend.Session.Changes.{
  Change, revokes, signs_in, rotates, retire, IsSound, upsert_new, rotated_table,
}
use lakira_backend.Session.Reach.{SessionStep-Changes, Changes-IsSound, SessionReach-IsSound}
use lakira_backend.Session.Steps.{Changes, none_yet, and_then, SessionReach, here, next}

-- The hash is that of a revoked token of the family.
pub record IsSpent (h family : ℕ) (rows : Tokens) : Type 0 where
  pub token : RefreshToken
  pub found : find_hash h rows ≡ some token
  pub dead : is_some token.revoked_at ≡ true
  pub same_family : token.family_id ≡ family

find_hash-revoke_rows :
    (h family now : ℕ) (t : RefreshToken) (rows : Tokens)
    → find_hash h rows ≡ some t
    → is_some t.revoked_at ≡ true
    → find_hash h (revoke_rows family now rows) ≡ some t
unfolding find_hash revoke_rows
find_hash-revoke_rows h family now t [] e dead = cc
find_hash-revoke_rows h family now t (u ∷ rows) e dead =
    ground (arith, find_hash-revoke_rows h family now t rows)

pub find_hash-append :
    (h : ℕ) (t u : RefreshToken) (rows : Tokens)
    → find_hash h rows ≡ some t
    → find_hash h (rows ++ u ∷ []) ≡ some t
unfolding find_hash
find_hash-append h t u [] e = cc
find_hash-append h t u (v ∷ rows) e = ground (arith, find_hash-append h t u rows)

pub find_hash-retire :
    (h k now n : ℕ) (old t : RefreshToken) (rows : Tokens)
    → IsKeyed token_key rows
    → find_key token_key k rows ≡ some old
    → find_hash h rows ≡ some t
    → find_hash h (replace_key token_key k (retire now n old) rows)
      ≡ some (if t.id == k then retire now n t else t)
unfolding find_hash
find_hash-retire h k now n old t [] keyed known e = cc
find_hash-retire h k now n old t (u ∷ rows) keyed known e = elim (Bool-cases (u.id == k)) [
  | inr other ↦ elim (Bool-cases (u.token_hash == h)) [
    | inl match ↦ ground arith
    | inr miss ↦ ground (arith, find_hash-retire h k now n old t rows keyed.1)
  ]
  | inl own ↦
      let gone = subst (λ j. find_key token_key j rows ≡ none) ((==_iff u.id k).0 own) keyed.0 in
      elim (Bool-cases (u.token_hash == h)) [
        | inl match ↦ ground arith
        | inr miss ↦
            let later : find_hash h rows ≡ some t = ground arith in
            let there = find_key_of_find_where token_key _ rows t keyed.1 later in
            let apart : (t.id == k) ≡ false = elim (Bool-cases (t.id == k)) [
              | inr no_match ↦ no_match
              | inl same ↦ cc (
                subst (λ j. find_key token_key j rows ≡ some t) ((==_iff t.id k).0 same) there,
                gone,
              )
            ] in
            rw (apart, replace_key_missing token_key k (retire now n old) rows gone) (ground arith)
      ]
]

pub found_is_keyed :
    (h : ℕ) (old : RefreshToken) (rows : Tokens)
    → IsSound rows
    → find_hash h rows ≡ some old
    → find_key token_key old.id rows ≡ some old
unfolding find_hash
found_is_keyed h old rows s e = find_key_of_find_where token_key _ rows old s.keyed e

Change-IsSpent :
    (h family : ℕ) (rows rows' : Tokens)
    → Change rows rows'
    → IsSound rows
    → IsSpent h family rows
    → IsSpent h family rows'
Change-IsSpent h family rows rows' (revokes f now e) s p = rw e (record {
  token = p.token;
  found = find_hash-revoke_rows h f now p.token rows p.found p.dead;
  dead = p.dead;
  same_family = p.same_family;
})
Change-IsSpent h family rows rows' (signs_in t new unused plain e) s p =
    rw (e, upsert_new t rows new)
      (record {
        token = p.token;
        found = find_hash-append h p.token t rows p.found;
        dead = p.dead;
        same_family = p.same_family;
      })
Change-IsSpent h family rows rows' (rotates old t g now found live new kin fresh plain e) s p =
    let known = found_is_keyed g old rows s found in
    let there : find_key token_key old.id (rows ++ t ∷ []) ≡ some old =
      ground (arith, find_key-append token_key old.id rows t) in
    rw (e, rotated_table old t now rows known new)
      (record {
        token = if p.token.id == old.id then retire now t.id p.token else p.token;
        found =
            find_hash-retire h old.id now t.id old p.token (rows ++ t ∷ [])
              (append_one-IsKeyed token_key rows t s.keyed new) there
              (find_hash-append h p.token t rows p.found);
        dead = ground (arith, p.dead);
        same_family = ground (arith, p.same_family);
      })

Changes-IsSpent :
    (h family : ℕ) {rows rows' : Tokens}
    → Changes rows rows'
    → IsSound rows
    → IsSpent h family rows
    → IsSpent h family rows'
Changes-IsSpent h family none_yet s p = p
Changes-IsSpent h family (and_then {mid} {last} c d) s p =
    Change-IsSpent h family mid last d (Changes-IsSound c s) (Changes-IsSpent h family c s p)

-- A spent token stays spent, whatever calls follow.
pub SessionReach-IsSpent :
    (ports : SessionPorts) (h family : ℕ) {w w' : World}
    → SessionReach ports w w'
    → IsSound (tokens w)
    → IsSpent h family (tokens w)
    → IsSpent h family (tokens w')
SessionReach-IsSpent ports h family here s p = p
SessionReach-IsSpent ports h family (next {u} {v} r st) s p =
    Changes-IsSpent h family (SessionStep-Changes ports u v st) (SessionReach-IsSound ports r s)
      (SessionReach-IsSpent ports h family r s p)
