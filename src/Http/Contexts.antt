-- ===== src/Http/Contexts.antt =====
-- The contexts that authMiddleware makes.
use lakira_backend.Base.{ℕ, ◌≡◌, refl, sym, ap, ◌∙◌, true, some, List, [], ◌∷◌, find_where, arith}
use lakira_backend.Store.{AuthUser, Membership, World, Action, ◌>>=◌, Result, ok, err}
use lakira_backend.Accounts.Users.{find_user}
use lakira_backend.Members.Table.{is_active_in, is_active}
use lakira_backend.Http.Auth.{TokenClaims, AuthContext, load_context}

-- A row that is found is one that was asked for.
pub found_active :
    (user org : ℕ) (ms : List Membership) (m : Membership)
    → find_where (is_active_in user org) ms ≡ some m
    → (m.user_id ≡ user) × (m.organization_id ≡ org) × (is_active m ≡ true)
found_active user org [] m e = cc
found_active user org (x ∷ ms) m e = ground (arith, found_active user org ms m)

pub load_context_run :
    (claims : TokenClaims) (w : World) (u : AuthUser) (o : ℕ) (m : Membership)
    → find_user claims.user_id w.db.users ≡ some u
    → claims.organization_id ≡ some o
    → find_where (is_active_in u.id o) w.db.memberships ≡ some m
    → m.organization_id ≡ o
    → is_active m ≡ true
    → load_context claims w
      ≡ (ok (record { user = u; organization_id = m.organization_id; membership = m }), w)
load_context_run claims w u o m p q r mo ma = ground arith

pub found_again :
    (user org : ℕ) (w : World) (m : Membership)
    → find_where (is_active_in user org) w.db.memberships ≡ some m
    → m.organization_id ≡ org
    → find_where (is_active_in user m.organization_id) w.db.memberships ≡ some m
found_again user org w m r e = ap (λ o. find_where (is_active_in user o) w.db.memberships) e ∙ r

context_same :
    (a b : AuthContext) (w w' : World)
    → ◌≡◌ {A = Result AuthContext × World} (ok a, w) (ok b, w')
    → a ≡ b
context_same a b w w' e = cc

-- A context, taken apart.
pub granted :
    (claims : TokenClaims) (w w' : World) (c : AuthContext) (u : AuthUser) (m : Membership)
    → ◌≡◌ {A = Result AuthContext × World}
        (ok (record { user = u; organization_id = m.organization_id; membership = m }), w)
        (ok c, w')
    → find_user claims.user_id w.db.users ≡ some u
    → claims.organization_id ≡ some m.organization_id
    → find_where (is_active_in u.id m.organization_id) w.db.memberships ≡ some m
    → (w' ≡ w)
      × (claims.organization_id ≡ some c.organization_id)
      × (find_user claims.user_id w.db.users ≡ some c.user)
      × (find_where (is_active_in c.user.id c.organization_id) w.db.memberships ≡ some c.membership)
granted claims w w' c u m e p q r =
    let made : AuthContext = record {
      user = u;
      organization_id = m.organization_id;
      membership = m;
    } in
    let same : made ≡ c = context_same made c w w' e in
    (
      sym (ap (λ (x : Result AuthContext × World). x.1) e),
      q ∙ ap (λ (x : AuthContext). some x.organization_id) same,
      p ∙ ap (λ (x : AuthContext). some x.user) same,
      sym (
            ap
              (λ (x : AuthContext).
                find_where (is_active_in x.user.id x.organization_id) w.db.memberships)
              same)
          ∙ r
          ∙ ap (λ (x : AuthContext). some x.membership) same,
    )

pub >>=-eq-ok :
    {A B : Type 0} (m : Action A) (f : A → Action B) (b : B) (w w' : World)
    → (m >>= f) w ≡ (ok b, w')
    → (a : A) × (v : World) × (m w ≡ (ok a, v)) × (f a v ≡ (ok b, w'))
>>=-eq-ok {A} {B} m f b w w' e = at_result (m w) e refl
  where
    at_result :
        (r : Result A × World)
        → (elim r.0 [ ok a ↦ f a r.1 | err x ↦ (err x, r.1) ]) ≡ (ok b, w')
        → m w ≡ r
        → (a : A) × (v : World) × (m w ≡ (ok a, v)) × (f a v ≡ (ok b, w'))
    at_result (ok a, v) e p = (a, v, p, e)
    at_result (err x, v) e p = cc

pub >>=-run :
    {A B : Type 0} (m : Action A) (f : A → Action B) (a : A) (w v : World)
    → m w ≡ (ok a, v)
    → (m >>= f) w ≡ f a v
>>=-run {A} {B} m f a w v p = ap (λ (x : Result A × World). after x) p
  where
    after : Result A × World → Result B × World
    after x = elim x.0 [ ok b ↦ f b x.1 | err e ↦ (err e, x.1) ]
