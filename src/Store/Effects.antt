-- ===== src/Store/Effects.antt =====
-- The world that the use cases act on, their results, and the monad. A database error other than
-- a unique violation is not modelled: every statement is answered.
use lakira_backend.Base.{ℕ, Bool, true, false, Option, none, some, List}
use lakira_backend.Text.{Text}
use lakira_backend.Store.Tracked.{Tracking}
use lakira_backend.Store.Rows.{
  RefreshToken, PasswordResetToken, EmailVerificationToken, Membership, OrganizationInvite,
  Organization, AuthUser,
}

-- `DomainErrorKind`
pub data DomainErrorKind : Type 0 where
  validation unauthorized forbidden not_found conflict : DomainErrorKind

-- What a call can throw: a domain error by its kind, an `AppError` by its status, a
-- `TerminalMessageError`, a failed send, a unique violation, or a plain `Error`.
pub data Failure : Type 0 where
  domain_error : DomainErrorKind → Failure
  app_error : ℕ → Failure
  terminal_message send_failed unique_violation plain_error : Failure

-- The tables, each in the order of insertion.
pub record Db : Type 0 where
  pub users : List AuthUser
  pub organizations : List Organization
  pub memberships : List Membership
  pub invites : List OrganizationInvite
  pub refresh_tokens : List RefreshToken
  pub reset_tokens : List PasswordResetToken
  pub verification_tokens : List EmailVerificationToken
  pub processed : List (Text × Text)
  pub tracking : Tracking

pub record EmailMessage : Type 0 where
  pub to : Text
  pub link_token : ℕ

pub record JobMessage : Type 0 where
  pub routing_key : Text
  pub subject_id : ℕ
  pub message_id : Text

-- A Redis counter with its expiry, and what the client's calls come to: whether the connection is
-- open, and which commands throw.
pub record Counter : Type 0 where
  pub count : ℕ
  pub expires_at : Option ℕ

pub record RedisHealth : Type 0 where
  pub is_open : Bool
  pub get_throws : Bool
  pub incr_throws : Bool
  pub expire_throws : Bool
  pub del_throws : Bool

-- The database, and what a rollback does not undo: the emails that the provider took, the jobs that
-- the broker took, and the failed logins that are counted.
pub record World : Type 0 where
  pub db : Db
  pub outbox : List EmailMessage
  pub published : List JobMessage
  pub redis : RedisHealth
  pub failures : List (ℕ × Counter)

pub data Result (A : Type 0) : Type 0 where
  ok : A → Result A
  err : Failure → Result A

abbrev pub Action : Type 0 → Type 0
Action A = World → Result A × World

module _ {A : Type 0} where
  abbrev pub pure : A → Action A
  pure a w = (ok a, w)

  abbrev pub throw : Failure → Action A
  throw e w = (err e, w)

  -- `if (!value) throw e`
  abbrev pub or_throw : Option A → Failure → Action A
  or_throw none e = throw e
  or_throw (some a) _ = pure a

  -- A select.
  abbrev pub gets : (Db → A) → Action A
  gets f w = (ok (f w.db), w)

  -- `runInTransaction`: a throw rolls the database back, and nothing else.
  abbrev pub run_in_transaction : Action A → Action A
  run_in_transaction body w =
      let (r, w') = body w in
      elim r [ ok a ↦ (ok a, w') | err e ↦ (err e, record w' { db = w.db }) ]

infixl 5 ◌>>=◌ ◌>>◌
abbrev pub ◌>>=◌ : {A B : Type 0} → Action A → (A → Action B) → Action B
◌>>=◌ m f w = let (r, w') = m w in elim r [ ok a ↦ f a w' | err e ↦ (err e, w') ]

abbrev pub ◌>>◌ : {A B : Type 0} → Action A → Action B → Action B
m >> k = m >>= λ _. k

abbrev pub throw_if : Bool → Failure → Action (Unit {0})
throw_if true e w = (err e, w)
throw_if false e w = (ok tt, w)

-- An insert, update or delete.
abbrev pub modify_db : (Db → Db) → Action (Unit {0})
modify_db f w = (ok tt, record w { db = f w.db })
