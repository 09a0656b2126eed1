-- ===== src/Invites/Sending.antt =====
-- What a call that invites someone leaves behind when it fails.
use lakira_backend.Base.{
  ℕ, ◌≡◌, refl, sym, ap, ◌∙◌, inl, inr, true, false, none, some, [], ◌∷◌, ◌++◌, arith, find_where,
  delete_where, find_where-delete_where, Option-cases, Bool-cases,
}
use lakira_backend.Text.{Text, trim}
use lakira_backend.Store.{
  OrganizationInvite, World, Failure, send_failed, Action, ok, err, Step-cases,
}
use lakira_backend.Messaging.Idempotency.{run_once, is_unusable}
use lakira_backend.Messaging.Once.{run_once_cases}
use lakira_backend.Invites.Table.{
  Invites, has_id, has_lapsed, is_pending, save_invite, created_invite, CreateInvite,
}
use lakira_backend.Invites.UseCases.{
  InvitePorts, InviteInput, InviteDraw, invite_user, invite_email, invite_and_send,
  invite_and_publish, fall_back, published_to, execute_in_transaction, invite_data,
}

unusable_run :
    (i q : Text) (work : Action (Unit {0})) (w w' : World) (e : Failure)
    → is_unusable (some i) ≡ true
    → run_once (some i) q work w ≡ (err e, w')
    → w'.db ≡ w.db
unfolding run_once
unusable_run i q work w w' e bad h = ground arith

failed_run_once-db :
    (i q : Text) (work : Action (Unit {0})) (w w' : World) (e : Failure)
    → run_once (some i) q work w ≡ (err e, w')
    → w'.db ≡ w.db
failed_run_once-db i q work w w' e h = elim (Bool-cases (is_unusable (some i))) [
  | inl bad ↦ unusable_run i q work w w' e bad h
  | inr usable ↦ elim (run_once_cases i q work w usable) [
    | inl (seen, skipped) ↦ cc
    | inr (inl (v, new, done, kept)) ↦ cc
    | inr (inr (f, v, new, failed, rolled_back)) ↦ cc (ap (λ s. s.1.db) (sym h ∙ rolled_back))
  ]
]

module _ (ports : InvitePorts) (draw : InviteDraw) (now : ℕ) where
  delete_new :
      (rows : Invites) (i : OrganizationInvite)
      → find_where (has_id i.id) rows ≡ none
      → delete_where (has_id i.id) (rows ++ i ∷ []) ≡ rows
  delete_new [] i h = ground arith
  delete_new (j ∷ rows) i h = ground (arith, delete_new rows i)

  failed_fall_back :
      (w w' : World) (e : Failure)
      → fall_back ports draw now w ≡ (err e, w')
      → w'.db.invites ≡ delete_where (has_id draw.invite_id) w.db.invites
  unfolding fall_back
  failed_fall_back w w' e h =
      elim (Step-cases (
        run_once (some draw.message_id) ports.queue_name
          (execute_in_transaction ports draw.job_token now draw.invite_id) w)) [
            | inl (o, v, done) ↦ ground arith
            | inr (f, v, failed) ↦
                let same =
                  failed_run_once-db draw.message_id ports.queue_name
                    (execute_in_transaction ports draw.job_token now draw.invite_id) w v f failed in
                ground (arith, ap (λ d. delete_where (has_id draw.invite_id) d.invites) same)
          ]

  saved_invites :
      (dto : CreateInvite) (w w' : World) (i : OrganizationInvite)
      → save_invite ports.sql_lower now dto w ≡ (ok i, w')
      → w'.db.invites ≡ w.db.invites ++ created_invite now dto ∷ []
  unfolding save_invite
  saved_invites dto w w' i h = ground arith

  unsaved_invites :
      (dto : CreateInvite) (w w' : World) (e : Failure)
      → save_invite ports.sql_lower now dto w ≡ (err e, w')
      → w'.db.invites ≡ w.db.invites
  unfolding save_invite
  unsaved_invites dto w w' e h = ground arith

  published_to-db : (w : World) → (published_to ports draw w).db ≡ w.db
  published_to-db w = ground arith

  failed_publish :
      (dto : CreateInvite) (w w' : World) (e : Failure)
      → dto.id ≡ draw.invite_id
      → find_where (has_id draw.invite_id) w.db.invites ≡ none
      → invite_and_publish ports draw now dto w ≡ (err e, w')
      → w'.db.invites ≡ w.db.invites
  unfolding invite_and_publish
  failed_publish dto w w' e own new h = elim (Step-cases (save_invite ports.sql_lower now dto w)) [
    | inr (f, v, refused) ↦ ground (arith, unsaved_invites dto w v f refused)
    | inl (i, v, saved) ↦ elim (Bool-cases ports.publish_answer.confirms) [
      | inl told ↦ ground arith
      | inr lost ↦
          let fell : fall_back ports draw now (published_to ports draw v) ≡ (err e, w') =
            ground arith in
          let there : (published_to ports draw v).db.invites
              ≡ w.db.invites ++ created_invite now dto ∷ [] =
            ap (λ d. d.invites) (published_to-db v) ∙ saved_invites dto w v i saved in
          failed_fall_back (published_to ports draw v) w' e fell
          ∙ ap (delete_where (has_id draw.invite_id)) there
          ∙ ground (arith, delete_new w.db.invites (created_invite now dto))
    ]
  ]

  failed_send :
      (dto : CreateInvite) (w w' : World) (e : Failure)
      → invite_and_send ports draw now dto w ≡ (err e, w')
      → w'.db.invites ≡ w.db.invites
  unfolding invite_and_send
  failed_send dto w w' e h = ground arith

  failed_invite_email :
      (input : InviteInput) (email : Text) (w w' : World) (e : Failure)
      → find_where (has_id draw.invite_id) w.db.invites ≡ none
      → invite_email ports draw now input email w ≡ (err e, w')
      → w'.db.invites
        ≡ delete_where
            (has_lapsed ports.sql_lower (ports.to_lower_case email) input.organization_id now)
            w.db.invites
  unfolding invite_email
  failed_invite_email input email w w' e new h =
      let lapsed =
        has_lapsed ports.sql_lower (ports.to_lower_case email) input.organization_id now in
      let left = delete_where lapsed w.db.invites in
      let swept = record w { db = record w.db { invites = left } } in
      let dto = invite_data ports draw now input email in
      elim (Option-cases (find_where (is_pending email input.organization_id now) left)) [
        | inr (i, there) ↦ ground arith
        | inl clear ↦ elim (Bool-cases ports.queue_is_enabled) [
          | inl on ↦
              failed_publish dto swept w' e refl
                (find_where-delete_where (has_id draw.invite_id) lapsed w.db.invites new)
                (ground arith)
          | inr off ↦ failed_send dto swept w' e (ground arith)
        ]
      ]

  clear_invite_email :
      (input : InviteInput) (email : Text) (w w' : World)
      → invite_email ports draw now input email w ≡ (err send_failed, w')
      → find_where (is_pending email input.organization_id now) (
          delete_where
            (has_lapsed ports.sql_lower (ports.to_lower_case email) input.organization_id now)
            w.db.invites)
        ≡ none
  unfolding invite_email
  clear_invite_email input email w w' h =
      let lapsed =
        has_lapsed ports.sql_lower (ports.to_lower_case email) input.organization_id now in
      elim (Option-cases (
        find_where (is_pending email input.organization_id now)
          (delete_where lapsed w.db.invites))) [ inl clear ↦ clear | inr (i, there) ↦ ground arith ]

  past_guards :
      (input : InviteInput) (w w' : World)
      → invite_user ports draw now input w ≡ (err send_failed, w')
      → invite_email ports draw now input (ports.to_lower_case (trim input.email)) w
        ≡ (err send_failed, w')
  unfolding invite_user
  past_guards input w w' h = ground arith

  unconfirmed :
      (input : InviteInput) (email : Text) (w w' : World)
      → invite_email ports draw now input email w ≡ (err send_failed, w')
      → ports.queue_is_enabled ≡ true
      → ports.publish_answer.confirms ≡ false
  unfolding invite_email invite_and_publish save_invite
  unconfirmed input email w w' h on = elim (Bool-cases ports.publish_answer.confirms) [
    | inl told ↦ absurd (ground arith)
    | inr lost ↦ lost
  ]

  -- A call that itself ends in a failed send leaves nothing behind: the invites that were there
  -- stay, less this address's expired ones, and none is pending for the address, so that the retry
  -- is not refused with 409. With the queue off that is the send in the call; with the queue on, the
  -- call ends so only where the publish was not confirmed and the send of its fallback failed. An
  -- email that the broker took and that fails later is no such call. The drawn invite id was on no
  -- row.
  pub failed_invite_leaves_none :
      (input : InviteInput) (w w' : World)
      → find_where (has_id draw.invite_id) w.db.invites ≡ none
      → invite_user ports draw now input w ≡ (err send_failed, w')
      → (w'.db.invites
          ≡ delete_where
              (has_lapsed ports.sql_lower
                (ports.to_lower_case (ports.to_lower_case (trim input.email)))
                input.organization_id
                now)
              w.db.invites)
        × (find_where
              (is_pending (ports.to_lower_case (trim input.email)) input.organization_id now)
              w'.db.invites
            ≡ none)
        × (ports.queue_is_enabled ≡ true → ports.publish_answer.confirms ≡ false)
  failed_invite_leaves_none input w w' new h =
      let email = ports.to_lower_case (trim input.email) in
      let sent = past_guards input w w' h in
      let stored = failed_invite_email input email w w' send_failed new sent in
      (
        stored,
        ap (find_where (is_pending email input.organization_id now)) stored
            ∙ clear_invite_email input email w w' sent,
        unconfirmed input email w w' sent,
      )
