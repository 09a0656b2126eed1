-- ===== src/Session/Changes.antt =====
-- The three ways in which the token table changes, and the invariant of the table under each.
use lakira_backend.Base.{
  ℕ, ◌≤◌, ◌≡◌, refl, ap, Bool, true, none, some, [], ◌∷◌, ◌++◌, arith, ◌==◌, if◌then◌else◌, is_some,
  All, find_where, find_key, replace_key, upsert_key, count_where, IsKeyed, count_where-append,
  find_key-append, count_where-replace_key, append_one-IsKeyed, replace_key-IsKeyed,
  find_key_of_find_where, All-append_one,
}
use lakira_backend.Store.{RefreshToken}
use lakira_backend.Session.RefreshTokens.{Tokens, token_key, find_hash, in_live_family, revoke_rows}

-- The number of tokens of a family that are not revoked.
abbrev pub live_count : ℕ → Tokens → ℕ
live_count family = count_where (in_live_family family)

-- A replaced token is revoked.
abbrev pub IsOrderly : RefreshToken → Type 0
IsOrderly t = is_some t.replaced_by_id ≡ true → is_some t.revoked_at ≡ true

-- The invariant: ids are unique, no family has two live tokens, and a replaced token is revoked.
pub record IsSound (rows : Tokens) : Type 0 where
  pub keyed : IsKeyed token_key rows
  pub single : (family : ℕ) → live_count family rows ≤ 1
  pub orderly : All IsOrderly rows

abbrev pub in_family : ℕ → RefreshToken → Bool
in_family family t = t.family_id == family

abbrev pub retire : ℕ → ℕ → RefreshToken → RefreshToken
retire now new_id old = record old { revoked_at = some now; replaced_by_id = some new_id }

-- One change of the table.
pub data Change (rows rows' : Tokens) : Type 0 where
  revokes : (family now : ℕ) → rows' ≡ revoke_rows family now rows → Change rows rows'
  signs_in :
      (t : RefreshToken)
      → find_key token_key t.id rows ≡ none
      → find_where (in_family t.family_id) rows ≡ none
      → t.replaced_by_id ≡ none
      → rows' ≡ upsert_key token_key t rows
      → Change rows rows'
  rotates :
      (old t : RefreshToken) (h now : ℕ)
      → find_hash h rows ≡ some old
      → old.revoked_at ≡ none
      → find_key token_key t.id rows ≡ none
      → t.family_id ≡ old.family_id
      → t.revoked_at ≡ none
      → t.replaced_by_id ≡ none
      → rows' ≡ upsert_key token_key (retire now t.id old) (upsert_key token_key t rows)
      → Change rows rows'

pub find_key-revoke_rows :
    (k family now : ℕ) (rows : Tokens)
    → find_key token_key k rows ≡ none
    → find_key token_key k (revoke_rows family now rows) ≡ none
unfolding revoke_rows
find_key-revoke_rows k family now [] h = refl
find_key-revoke_rows k family now (t ∷ rows) h =
    ground (arith, find_key-revoke_rows k family now rows)

revoke_rows-IsKeyed :
    (family now : ℕ) (rows : Tokens)
    → IsKeyed token_key rows
    → IsKeyed token_key (revoke_rows family now rows)
unfolding revoke_rows
revoke_rows-IsKeyed family now [] h = tt
revoke_rows-IsKeyed family now (t ∷ rows) h =
    ground (
      arith,
      revoke_rows-IsKeyed family now rows h.1,
      find_key-revoke_rows t.id family now rows h.0,
    )

pub live_count-revoke_rows :
    (family other now : ℕ) (rows : Tokens)
    → live_count other (revoke_rows family now rows)
      ≡ (if family == other then 0 else live_count other rows)
unfolding revoke_rows
live_count-revoke_rows family other now [] = ground arith
live_count-revoke_rows family other now (t ∷ rows) =
    ground (arith, live_count-revoke_rows family other now rows)

revoke_rows-IsOrderly :
    (family now : ℕ) (rows : Tokens)
    → All IsOrderly rows
    → All IsOrderly (revoke_rows family now rows)
unfolding revoke_rows
revoke_rows-IsOrderly family now [] h = tt
revoke_rows-IsOrderly family now (t ∷ rows) h =
    (ground (arith, h.0), revoke_rows-IsOrderly family now rows h.1)

pub revoke_rows-IsSound :
    (family now : ℕ) (rows : Tokens) → IsSound rows → IsSound (revoke_rows family now rows)
revoke_rows-IsSound family now rows s = record {
  keyed = revoke_rows-IsKeyed family now rows s.keyed;
  single = λ other. ground (arith, live_count-revoke_rows family other now rows, s.single other);
  orderly = revoke_rows-IsOrderly family now rows s.orderly;
}

-- An insert of a row whose id is new appends it.
pub upsert_new :
    (t : RefreshToken) (rows : Tokens)
    → find_key token_key t.id rows ≡ none
    → upsert_key token_key t rows ≡ rows ++ t ∷ []
unfolding upsert_key
upsert_new t rows h = ground arith

live_count_of_unused :
    (family : ℕ) (rows : Tokens)
    → find_where (in_family family) rows ≡ none
    → live_count family rows ≡ 0
live_count_of_unused family [] h = refl
live_count_of_unused family (t ∷ rows) h = ground (arith, live_count_of_unused family rows)

pub insert-IsSound :
    (t : RefreshToken) (rows : Tokens)
    → find_key token_key t.id rows ≡ none
    → find_where (in_family t.family_id) rows ≡ none
    → t.replaced_by_id ≡ none
    → IsSound rows
    → IsSound (upsert_key token_key t rows)
insert-IsSound t rows new unused plain s = rw (upsert_new t rows new) (record {
  keyed = append_one-IsKeyed token_key rows t s.keyed new;
  single = λ family. ground (
    arith,
    s.single family,
    count_where-append (in_live_family family) rows (t ∷ []),
    live_count_of_unused t.family_id rows unused,
    ap (λ f. live_count f rows) {x = t.family_id} {y = family},
  );
  orderly = All-append_one IsOrderly rows s.orderly (λ e. cc);
})

replace_key-IsOrderly :
    (k : ℕ) (r : RefreshToken) (rows : Tokens)
    → IsOrderly r
    → All IsOrderly rows
    → All IsOrderly (replace_key token_key k r rows)
replace_key-IsOrderly k r [] o h = tt
replace_key-IsOrderly k r (t ∷ rows) o h =
    (ground (arith, h.0), replace_key-IsOrderly k r rows o h.1)

-- The rows after a rotation, with the two saves carried out.
pub rotated_table :
    (old t : RefreshToken) (now : ℕ) (rows : Tokens)
    → find_key token_key old.id rows ≡ some old
    → find_key token_key t.id rows ≡ none
    → upsert_key token_key (retire now t.id old) (upsert_key token_key t rows)
      ≡ replace_key token_key old.id (retire now t.id old) (rows ++ t ∷ [])
unfolding upsert_key
rotated_table old t now rows known new = ground (arith, find_key-append token_key old.id rows t)

pub rotate-IsSound :
    (old t : RefreshToken) (h now : ℕ) (rows : Tokens)
    → find_hash h rows ≡ some old
    → old.revoked_at ≡ none
    → find_key token_key t.id rows ≡ none
    → t.family_id ≡ old.family_id
    → t.revoked_at ≡ none
    → t.replaced_by_id ≡ none
    → IsSound rows
    → IsSound (upsert_key token_key (retire now t.id old) (upsert_key token_key t rows))
unfolding find_hash
rotate-IsSound old t h now rows found live new family fresh plain s =
    let known = find_key_of_find_where token_key _ rows old s.keyed found in
    let grown = append_one-IsKeyed token_key rows t s.keyed new in
    let there : find_key token_key old.id (rows ++ t ∷ []) ≡ some old =
      ground (arith, find_key-append token_key old.id rows t) in
    rw (rotated_table old t now rows known new) (record {
      keyed =
          replace_key-IsKeyed token_key old.id (retire now t.id old) (rows ++ t ∷ []) refl grown;
      single = λ g. ground (
        arith,
        s.single g,
        count_where-append (in_live_family g) rows (t ∷ []),
        count_where-replace_key token_key (in_live_family g) old.id (retire now t.id old)
            (rows ++ t ∷ []) old grown there,
      );
      orderly =
          replace_key-IsOrderly old.id (retire now t.id old) (rows ++ t ∷ []) (λ e. refl)
            (All-append_one IsOrderly rows s.orderly (λ e. cc));
    })

pub Change-IsSound : (rows rows' : Tokens) → Change rows rows' → IsSound rows → IsSound rows'
Change-IsSound rows rows' (revokes family now e) s = rw e (revoke_rows-IsSound family now rows s)
Change-IsSound rows rows' (signs_in t new unused plain e) s =
    rw e (insert-IsSound t rows new unused plain s)
Change-IsSound rows rows' (rotates old t h now found live new family fresh plain e) s =
    rw e (rotate-IsSound old t h now rows found live new family fresh plain s)
