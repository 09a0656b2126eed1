-- ===== src/Mail.antt =====
-- What the use cases do with the mail server and the queue: `EmailSender.send`
-- (src/features/shared/auth/application/ports/EmailSender.ts), and a caught error.
use lakira_backend.Base.{Bool, ◌∷◌, if◌then◌else◌}
use lakira_backend.Store.{EmailMessage, Action, ok, err, send_failed}

-- What a publish comes to: whether the broker took the message, and whether it said so. One that
-- failed may still have reached the broker.
pub record PublishAnswer : Type 0 where
  pub reaches : Bool
  pub confirms : Bool

-- What a send comes to: whether the call returns, and, where it throws, as when its time ran out,
-- whether the provider delivers the message all the same.
pub record SendAnswer : Type 0 where
  pub delivers : Bool
  pub returns : Bool

-- The outbox has what the provider took, be it from a send that throws.
abbrev pub send_mail : (EmailMessage → SendAnswer) → EmailMessage → Action (Unit {0})
send_mail answers mail w =
    if (answers mail).returns then (ok tt, record w { outbox = mail ∷ w.outbox }) else (
      err send_failed,
      if (answers mail).delivers then record w { outbox = mail ∷ w.outbox } else w,
    )

-- `try { … } catch { log }`
abbrev pub swallow : {A : Type 0} → Action A → Action (Unit {0})
swallow m w = (ok tt, (m w).1)
