-- ===== src/Http/AuthLaws.antt =====
-- Who is let in.
use lakira_backend.Base.{
  ℕ, ◌≡◌, ◌↔◌, refl, sym, ap, ◌∙◌, true, inl, inr, Option, none, some, List, any, find_where, arith,
  Bool-cases, Option-cases,
}
use lakira_backend.Text.{Text}
use lakira_backend.Store.{MembershipRole, World, ◌>>=◌, ◌>>◌, pure, ok}
use lakira_backend.Accounts.Users.{find_user}
use lakira_backend.Members.Table.{is_active_in, role_eq}
use lakira_backend.Http.Auth.{
  TokenClaims, Verified, claimed, refused, broken, AuthContext, load_context, on_token,
  bearer_token, auth_middleware, on_verified, assert_has_org_role, authorize,
}
use lakira_backend.Http.Contexts.{
  found_active, load_context_run, found_again, granted, >>=-eq-ok, >>=-run,
}

-- What a caller must present: a bearer token that verifies, of a stored user, with an organization
-- that the user is an active member of, in a role of the list.
pub record IsEntitled (verify : Text → Verified) (roles : List MembershipRole)
    (header : Option Text) (w : World) (c : AuthContext) : Type 0 where
  pub token : Text
  pub user_id : ℕ
  pub presented : bearer_token header ≡ some token
  pub verified :
      verify token
      ≡ claimed (record { user_id = user_id; organization_id = some c.organization_id })
  pub stored : find_user user_id w.db.users ≡ some c.user
  pub member :
      find_where (is_active_in c.user.id c.organization_id) w.db.memberships ≡ some c.membership
  pub role : any (λ r. role_eq r c.membership.role) roles ≡ true

module _ (verify : Text → Verified) (roles : List MembershipRole) where
  load_context_inv :
      (claims : TokenClaims) (w w' : World) (c : AuthContext)
      → load_context claims w ≡ (ok c, w')
      → (w' ≡ w)
        × (claims.organization_id ≡ some c.organization_id)
        × (find_user claims.user_id w.db.users ≡ some c.user)
        × (find_where (is_active_in c.user.id c.organization_id) w.db.memberships
            ≡ some c.membership)
  load_context_inv claims w w' c e = elim (Option-cases (find_user claims.user_id w.db.users)) [
    | inl p ↦ absurd (ground arith)
    | inr (u, p) ↦ elim (Option-cases claims.organization_id) [
      | inl q ↦ absurd (ground arith)
      | inr (o, q) ↦ elim (Option-cases (find_where (is_active_in u.id o) w.db.memberships)) [
        | inl r ↦ absurd (ground arith)
        | inr (m, r) ↦
            let (mu, mo, ma) = found_active u.id o w.db.memberships m r in
            granted claims w w' c u m (sym (load_context_run claims w u o m p q r mo ma) ∙ e) p
              (q ∙ ap some (sym mo)) (found_again u.id o w m r mo)
      ]
    ]
  ]

  roles_inv :
      (a c : AuthContext) (w w' : World)
      → (assert_has_org_role roles (some a) >> pure a) w ≡ (ok c, w')
      → (any (λ r. role_eq r a.membership.role) roles ≡ true) × (a ≡ c) × (w ≡ w')
  unfolding assert_has_org_role
  roles_inv a c w w' e = elim (Bool-cases (any (λ r. role_eq r a.membership.role) roles)) [
    | inl p ↦ (p, ground arith, ground arith)
    | inr p ↦ absurd (ground arith)
  ]

  verified_inv :
      (v : Verified) (c : AuthContext) (w w' : World)
      → (on_verified v >>= λ (a : AuthContext). assert_has_org_role roles (some a) >> pure a) w
        ≡ (ok c, w')
      → (claims : TokenClaims) × (v ≡ claimed claims)
        × (load_context claims w ≡ (ok c, w'))
        × (any (λ r. role_eq r c.membership.role) roles ≡ true)
  verified_inv refused c w w' e = cc
  verified_inv (broken x) c w w' e = cc
  verified_inv (claimed claims) c w w' e =
      let (a, w1, p, q) =
        >>=-eq-ok (load_context claims)
          (λ (a : AuthContext). assert_has_org_role roles (some a) >> pure a) c w w' e in
      let (r, same, state) = roles_inv a c w1 w' q in
      (
        claims,
        refl,
        cc,
        sym (ap (λ (x : AuthContext). any (λ r. role_eq r x.membership.role) roles) same) ∙ r,
      )

  token_inv :
      (o : Option Text) (c : AuthContext) (w w' : World)
      → (on_token verify o >>= λ (a : AuthContext). assert_has_org_role roles (some a) >> pure a) w
        ≡ (ok c, w')
      → (token : Text) × (o ≡ some token)
        × ((on_verified (verify token) >>= λ (a : AuthContext).
                assert_has_org_role roles (some a) >> pure a)
              w
            ≡ (ok c, w'))
  token_inv none c w w' e = cc
  token_inv (some token) c w w' e = (token, refl, e)

  entitled :
      (header : Option Text) (w w' : World) (c : AuthContext)
      → authorize verify roles header w ≡ (ok c, w')
      → (w' ≡ w) × IsEntitled verify roles header w c
  unfolding authorize auth_middleware
  entitled header w w' c e =
      let (token, p, e1) = token_inv (bearer_token header) c w w' e in
      let (claims, q, r, role) = verified_inv (verify token) c w w' e1 in
      let (state, org, stored, member) = load_context_inv claims w w' c r in
      (
        state,
        record {
          token = token;
          user_id = claims.user_id;
          presented = p;
          verified = cc;
          stored = stored;
          member = member;
          role = role;
        },
      )

  admitted :
      (v : Verified) (claims : TokenClaims) (w : World) (c : AuthContext)
      → v ≡ claimed claims
      → load_context claims w ≡ (ok c, w)
      → any (λ r. role_eq r c.membership.role) roles ≡ true
      → (o : Option Text) (token : Text) → o ≡ some token
      → verify token ≡ v
      → (on_token verify o >>= λ (a : AuthContext). assert_has_org_role roles (some a) >> pure a) w
        ≡ (ok c, w)
  unfolding assert_has_org_role
  admitted v claims w c p q r none token e f = cc
  admitted v claims w c p q r (some t) token e f =
      let at : verify t ≡ claimed claims = cc in
      ap
        (λ (x : Verified).
          (on_verified x >>= λ (a : AuthContext). assert_has_org_role roles (some a) >> pure a) w)
        at
      ∙ >>=-run (load_context claims)
          (λ (a : AuthContext). assert_has_org_role roles (some a) >> pure a) c w w q
      ∙ ground arith

  let_in :
      (header : Option Text) (w : World) (c : AuthContext)
      → IsEntitled verify roles header w c
      → authorize verify roles header w ≡ (ok c, w)
  unfolding authorize auth_middleware assert_has_org_role
  let_in header w c h =
      let (mu, mo, ma) =
        found_active c.user.id c.organization_id w.db.memberships c.membership h.member in
      let claims : TokenClaims = record {
        user_id = h.user_id;
        organization_id = some c.organization_id;
      } in
      let run : load_context claims w ≡ (ok c, w) =
        load_context_run claims w c.user c.organization_id c.membership h.stored refl h.member mo ma
        ∙ ap (λ (o : ℕ). (ok (record c { organization_id = o }), w)) mo in
      admitted (verify h.token) claims w c h.verified run h.role (bearer_token header) h.token
        h.presented refl

  -- A request is authorized, in any of the roles, exactly with what it is entitled to; nothing
  -- changes.
  pub authorize_iff :
      (header : Option Text) (w : World) (c : AuthContext)
      → (authorize verify roles header w ≡ (ok c, w)) ↔ IsEntitled verify roles header w c
  authorize_iff header w c = (λ e. (entitled header w w c e).1, let_in header w c)
