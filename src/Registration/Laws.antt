-- ===== src/Registration/Laws.antt =====
-- How a registration ends.
use lakira_backend.Base.{
  ℕ, ◌≡◌, ◌⊎◌, refl, sym, ap, ◌∙◌, ◌&&◌, inl, inr, [], ◌∷◌, ◌++◌, arith, Bool-cases, any, true,
  none, get_or_else, count_where, count_where-append,
}
use lakira_backend.Text.{trim, text_eq}
use lakira_backend.Store.{
  domain_error, validation, conflict, active, Membership, World, Failure, ok, err, owner,
  Step-cases, Action, ◌>>=◌, pure, run_in_transaction,
}
use lakira_backend.Accounts.Users.{is_kept}
use lakira_backend.Members.Table.{counts_as}
use lakira_backend.Session.UseCases.{issue_refresh_token}
use lakira_backend.Registration.UseCase.{
  RegisterPorts, RegisterDraw, RegisterInput, Registered, Account, registered_of, CreateUser,
  create_account, register_user, user_data, created_user,
}

-- A failure rolls the database back, and this action touches nothing else when it fails.
KeepsOutside : {A : Type 0} → Action A → Type 0
KeepsOutside m = (w w' : World) (e : Failure) → m w ≡ (err e, w') → record w' { db = w.db } ≡ w

failed_transaction :
    {A : Type 0} (m : Action A) (w w' : World) (e : Failure)
    → KeepsOutside m
    → run_in_transaction m w ≡ (err e, w')
    → w' ≡ w
unfolding KeepsOutside
failed_transaction m w w' e keeps h = elim (Step-cases (m w)) [
  | inl (r, v, done) ↦ ground arith
  | inr (f, v, failed) ↦ ground (arith, keeps w v f failed)
]

-- A call is refused before the transaction, or is the transaction.
past_guards :
    (ports : RegisterPorts) (draw : RegisterDraw) (now : ℕ) (input : RegisterInput) (w : World)
    → ((e : Failure) × (register_user ports draw now input w ≡ (err e, w)))
      ⊎ (register_user ports draw now input w
          ≡ (run_in_transaction (create_account ports draw now input (user_data ports draw input))
                >>= λ account. pure (registered_of ports account))
              w)
unfolding register_user
past_guards ports draw now input w =
    elim (Bool-cases (text_eq input.password input.password_confirmation)) [
      | inr differ ↦ inl (domain_error validation, ground arith)
      | inl agree ↦
          elim (Bool-cases (
            any (λ u. text_eq u.email (ports.session.to_lower_case (trim input.email)) && is_kept u)
              w.db.users)) [
                | inl taken ↦ inl (domain_error conflict, ground arith)
                | inr free ↦
                    elim (Bool-cases (
                      any (λ u. text_eq u.username (trim input.username) && is_kept u)
                        w.db.users)) [
                          | inl named ↦ inl (domain_error conflict, ground arith)
                          | inr new ↦ inr (ground arith)
                        ]
              ]
    ]

account_keeps :
    (ports : RegisterPorts) (draw : RegisterDraw) (now : ℕ) (input : RegisterInput)
    (dto : CreateUser)
    → KeepsOutside (create_account ports draw now input dto)
unfolding create_account issue_refresh_token KeepsOutside
account_keeps ports draw now input dto = λ w w' e h. ground arith

-- What a use case makes of the answer of its transaction changes neither its failure nor its world.
answered_failure :
    {A B : Type 0} (m : Action A) (f : A → B) (w w' : World) (e : Failure)
    → (run_in_transaction m >>= λ a. pure (f a)) w ≡ (err e, w')
    → run_in_transaction m w ≡ (err e, w')
answered_failure m f w w' e h = elim (Step-cases (run_in_transaction m w)) [
  | inl (a, v, done) ↦ absurd (ground arith)
  | inr (g, v, failed) ↦ ground arith
]

answered :
    {A B : Type 0} (m : Action A) (f : A → B) (w w' : World) (b : B)
    → (run_in_transaction m >>= λ a. pure (f a)) w ≡ (ok b, w')
    → (a : A) × (run_in_transaction m w ≡ (ok a, w'))
answered m f w w' b h = elim (Step-cases (run_in_transaction m w)) [
  | inl (a, v, done) ↦ (a, ground arith)
  | inr (g, v, failed) ↦ absurd (ground arith)
]

-- A registration that fails, for whatever reason and at whatever step, leaves the world as it was.
pub failed_register :
    (ports : RegisterPorts) (draw : RegisterDraw) (now : ℕ) (input : RegisterInput) (w w' : World)
    (e : Failure)
    → register_user ports draw now input w ≡ (err e, w')
    → w' ≡ w
failed_register ports draw now input w w' e h = elim (past_guards ports draw now input w) [
  | inl (f, refused) ↦ cc (ap (λ s. s.1) (sym h ∙ refused))
  | inr same ↦
      let account = create_account ports draw now input (user_data ports draw input) in
      failed_transaction account w w' e
        (account_keeps ports draw now input (user_data ports draw input))
        (answered_failure account (registered_of ports) w w' e (sym same ∙ h))
]

done_transaction :
    {A : Type 0} (m : Action A) (w w' : World) (a : A)
    → run_in_transaction m w ≡ (ok a, w')
    → m w ≡ (ok a, w')
done_transaction m w w' a h = elim (Step-cases (m w)) [
  | inl (r, v, done) ↦ ground arith
  | inr (f, v, failed) ↦ ground arith
]

abbrev owner_membership : RegisterDraw → ℕ → Membership
owner_membership draw now = record {
  id = draw.membership_id;
  user_id = draw.user_id;
  organization_id = draw.organization_id;
  role = owner;
  status = active;
  joined_at = now;
}

account_result :
    (ports : RegisterPorts) (draw : RegisterDraw) (now : ℕ) (input : RegisterInput)
    (dto : CreateUser) (w w' : World) (r : Account)
    → dto.id ≡ draw.user_id
    → create_account ports draw now input dto w ≡ (ok r, w')
    → (w'.db.users ≡ w.db.users ++ created_user now dto ∷ [])
      × (w'.db.memberships ≡ w.db.memberships ++ owner_membership draw now ∷ [])
unfolding create_account issue_refresh_token
account_result ports draw now input dto w w' r own h = (ground arith, ground arith)

-- A registration that succeeds appends one user: of the drawn id, with the trimmed and lower-cased
-- address, the trimmed username and the hash of the password, public unless the input says no, and
-- not verified. It appends one membership: of that user, an active owner, in the drawn organization,
-- so that this organization has exactly one active owner where it had none.
pub register_owns :
    (ports : RegisterPorts) (draw : RegisterDraw) (now : ℕ) (input : RegisterInput) (w w' : World)
    (r : Registered)
    → register_user ports draw now input w ≡ (ok r, w')
    → count_where (counts_as draw.organization_id owner) w.db.memberships ≡ 0
    → (w'.db.users
        ≡ w.db.users
          ++ record {
            id = draw.user_id;
            email = ports.session.to_lower_case (trim input.email);
            username = trim input.username;
            password_hash = ports.hash_password input.password;
            is_public_profile = get_or_else input.is_public_profile true;
            email_verified_at = none;
            created_at = now;
            updated_at = now;
            deleted_at = none;
          }
            ∷ [])
      × (w'.db.memberships
          ≡ w.db.memberships
            ++ record {
              id = draw.membership_id;
              user_id = draw.user_id;
              organization_id = draw.organization_id;
              role = owner;
              status = active;
              joined_at = now;
            }
              ∷ [])
      × (count_where (counts_as draw.organization_id owner) w'.db.memberships ≡ 1)
register_owns ports draw now input w w' r h none_yet = elim (past_guards ports draw now input w) [
  | inl (f, refused) ↦ cc (sym h ∙ refused)
  | inr same ↦
      let action = create_account ports draw now input (user_data ports draw input) in
      let (account, committed) = answered action (registered_of ports) w w' r (sym same ∙ h) in
      let done = done_transaction action w w' account committed in
      let (users, rows) =
        account_result ports draw now input (user_data ports draw input) w w' account refl done in
      (
        users,
        rows,
        ground (
          arith,
          rows,
          count_where-append (counts_as draw.organization_id owner) w.db.memberships
              (owner_membership draw now ∷ []),
        ),
      )
]
