-- ===== src/Logs/JobLaws.antt =====
-- How many logs the job of the dummy logs makes.
use lakira_backend.Base.{
  ℕ, zero, suc, ◌+◌, ◌≤◌, ◌≡◌, ◌⊎◌, inl, inr, refl, sym, subst, ◌∙◌, true, false, Option, none,
  some, List, [], ◌∷◌, ◌++◌, arith, length, length-append, any, find_where, ◌==◌, if◌then◌else◌,
  Bool, Bool-cases, Option-cases,
}
use lakira_backend.Text.{Text}
use lakira_backend.Store.{
  World, Action, Failure, ok, err, unique_violation, terminal_message, domain_error, not_found,
  forbidden, Step-cases,
}
use lakira_backend.Messaging.Idempotency.{is_unusable, was_processed, record_key, run_once}
use lakira_backend.Messaging.Once.{run_once_cases, same_record, was_processed-record_key}
use lakira_backend.Metrics.Table.{is_metric_of, ensure_metric_ownership}
use lakira_backend.Logs.Table.{CreateLog, set_logs, created_log, collides, create_log}
use lakira_backend.Logs.DummyJob.{
  JobBody, JobPayload, LogDraw, max_dummy_metric_logs, count_is_wrong, is_terminal_access,
  dummy_log, parse_job, create_dummy_logs, rounds, ensure_access, handle_dummy_job,
}

abbrev pub log_count : World → ℕ
log_count w = length w.db.tracking.logs

create_log_cases :
    (now id : ℕ) (dto : CreateLog) (w : World)
    → ((e : Failure) × (create_log now id dto w ≡ (err e, w)))
      ⊎ ((v : World) × (create_log now id dto w ≡ (ok (created_log now id dto), v))
          × (log_count v ≡ log_count w + 1)
          × (v.db.processed ≡ w.db.processed))
unfolding create_log
create_log_cases now id dto w =
    elim (Bool-cases (any (collides dto.metric_id dto.logged_at) w.db.tracking.logs)) [
      | inl taken ↦ inl (unique_violation, ground arith)
      | inr free ↦ inr (
        record w { db = set_logs (λ ls. ls ++ created_log now id dto ∷ []) w.db },
        ground arith,
        length-append w.db.tracking.logs (created_log now id dto ∷ []),
        refl,
      )
    ]

length-rounds : (n : ℕ) (draw : ℕ → LogDraw) → length (rounds n draw) ≡ n
length-rounds zero draw = refl
length-rounds (suc n) draw = omega (arith, length-rounds n draw)

-- The loop adds one log for each draw, or fails.
create_dummy_logs_counts :
    (org metric : ℕ) (draws : List LogDraw) (w v : World)
    → create_dummy_logs org metric draws w ≡ (ok tt, v)
    → (log_count v ≡ log_count w + length draws) × (v.db.processed ≡ w.db.processed)
unfolding create_dummy_logs
create_dummy_logs_counts org metric [] w v h = ground arith
create_dummy_logs_counts org metric (d ∷ ds) w v h =
    elim (create_log_cases d.now d.id (dummy_log org metric d) w) [
      | inl (e, failed) ↦ ground arith
      | inr (u, made, more, same) ↦
          let rest : create_dummy_logs org metric ds u ≡ (ok tt, v) = ground arith in
          let (count, kept) = create_dummy_logs_counts org metric ds u v rest in
          (omega arith, kept ∙ same)
    ]

parse_job_cases :
    (content : Option JobBody) (w : World)
    → ((e : Failure) × (parse_job content w ≡ (err e, w)))
      ⊎ ((job : JobPayload) × (parse_job content w ≡ (ok job, w))
          × (job.count ≤ max_dummy_metric_logs))
unfolding parse_job
parse_job_cases none w = inl (terminal_message, refl)
parse_job_cases (some body) w = elim (Option-cases body.job_id) [
  | inl h ↦ inl (terminal_message, ground arith)
  | inr (job, h0) ↦ elim (Option-cases body.user_id) [
    | inl h ↦ inl (terminal_message, ground arith)
    | inr (user, h1) ↦ elim (Option-cases body.organization_id) [
      | inl h ↦ inl (terminal_message, ground arith)
      | inr (org, h2) ↦ elim (Option-cases body.metric_id) [
        | inl h ↦ inl (terminal_message, ground arith)
        | inr (metric, h3) ↦ elim (Option-cases body.count) [
          | inl h ↦ inl (terminal_message, ground arith)
          | inr (count, h4) ↦ elim (Bool-cases (count_is_wrong count)) [
            | inl h ↦ inl (terminal_message, ground arith)
            | inr h ↦ inr (
              record {
                job_id = job;
                user_id = user;
                organization_id = org;
                metric_id = metric;
                count = count;
              },
              ground arith,
              ground arith,
            )
          ]
        ]
      ]
    ]
  ]
]

ensure_metric_cases :
    (u : ℕ) (org metric : ℕ) (w : World)
    → (ensure_metric_ownership (some u) org metric w ≡ (ok tt, w))
      ⊎ ((e : Failure) × (ensure_metric_ownership (some u) org metric w ≡ (err e, w)))
unfolding ensure_metric_ownership
ensure_metric_cases u org metric w =
    elim (Option-cases (find_where (is_metric_of org metric) w.db.tracking.metrics)) [
      | inl gone ↦ inr (domain_error not_found, ground arith)
      | inr (m, found) ↦ elim (Bool-cases (m.user_id == u)) [
        | inl own ↦ inl (ground arith)
        | inr other ↦ inr (domain_error forbidden, ground arith)
      ]
    ]

ensure_access_cases :
    (u : ℕ) (org metric : ℕ) (w : World)
    → (ensure_access (some u) org metric w ≡ (ok tt, w))
      ⊎ ((e : Failure) × (ensure_access (some u) org metric w ≡ (err e, w)))
unfolding ensure_access
ensure_access_cases u org metric w = elim (ensure_metric_cases u org metric w) [
  | inl h ↦ inl (ground arith)
  | inr (e, h) ↦ inr ((if is_terminal_access e then terminal_message else e), ground arith)
]

-- Before the job is processed there are at most `n` logs, and afterwards at most 1000 more.
abbrev Stage : Text → Text → ℕ → World → Type 0
Stage i q n w =
    (log_count w ≤ n)
    ⊎ ((was_processed i q w.db ≡ true) × (log_count w ≤ n + max_dummy_metric_logs))

run_once_unusable :
    (i q : Text) (work : Action (Unit {0})) (w : World)
    → is_unusable (some i) ≡ true
    → run_once (some i) q work w ≡ (err terminal_message, w)
unfolding run_once
run_once_unusable i q work w bad = rw bad refl

few_before :
    (i q : Text) (n : ℕ) (w : World)
    → Stage i q n w
    → was_processed i q w.db ≡ false
    → log_count w ≤ n
few_before i q n w (inl few) new = few
few_before i q n w (inr (seen, few)) new = cc

-- A delivery changes the world only by its job's run.
handle_worlds :
    (fails : Bool) (i q : Text) (content : Option JobBody) (draw : ℕ → LogDraw) (w : World)
    → ((handle_dummy_job fails (some i) q content draw w).1 ≡ w)
      ⊎ ((job : JobPayload) × (job.count ≤ max_dummy_metric_logs)
          × ((handle_dummy_job fails (some i) q content draw w).1
              ≡ (run_once
                  (some i)
                  q
                  (create_dummy_logs job.organization_id job.metric_id (rounds job.count draw))
                  w).1))
unfolding handle_dummy_job
handle_worlds fails i q content draw w = elim (parse_job_cases content w) [
  | inl (e, bad) ↦ inl (ground arith)
  | inr (job, read, small) ↦
      elim (ensure_access_cases job.user_id job.organization_id job.metric_id w) [
        | inr (e, refused) ↦ inl (ground arith)
        | inl allowed ↦
            let work =
              create_dummy_logs job.organization_id job.metric_id (rounds job.count draw) in
            elim (Step-cases (run_once (some i) q work w)) [
              | inl (o, v, ran) ↦ inr (job, small, ground arith)
              | inr (e, v, failed) ↦ inr (job, small, ground arith)
            ]
      ]
]

run_once-Stage :
    (i q : Text) (n org metric : ℕ) (draws : List LogDraw) (w : World)
    → length draws ≤ max_dummy_metric_logs
    → Stage i q n w
    → Stage i q n (run_once (some i) q (create_dummy_logs org metric draws) w).1
run_once-Stage i q n org metric draws w short stage =
    let work = create_dummy_logs org metric draws in
    elim (Bool-cases (is_unusable (some i))) [
      | inl bad ↦
          let e = run_once_unusable i q work w bad in subst (λ r. Stage i q n r.1) (sym e) stage
      | inr usable ↦ elim (run_once_cases i q work w usable) [
        | inl (seen, e) ↦ subst (λ r. Stage i q n r.1) (sym e) stage
        | inr (inr (f, v, new, failed, e)) ↦ subst (λ r. Stage i q n r.1) (sym e) stage
        | inr (inl (v, new, done, e)) ↦
            let recorded = record w { db = record_key i q w.db } in
            let (count, kept) = create_dummy_logs_counts org metric draws recorded v done in
            let seen = same_record i q recorded.db v.db kept ∙ was_processed-record_key i q w.db in
            let few : log_count w ≤ n = few_before i q n w stage new in
            subst (λ r. Stage i q n r.1) (sym e) (inr (seen, omega arith))
      ]
    ]

handle-Stage :
    (fails : Bool) (i q : Text) (n : ℕ) (content : Option JobBody) (draw : ℕ → LogDraw) (w : World)
    → Stage i q n w
    → Stage i q n (handle_dummy_job fails (some i) q content draw w).1
handle-Stage fails i q n content draw w stage = elim (handle_worlds fails i q content draw w) [
  | inl same ↦ subst (Stage i q n) (sym same) stage
  | inr (job, small, ran) ↦ subst (Stage i q n) (sym ran) (
      run_once-Stage i q n job.organization_id job.metric_id (rounds job.count draw) w
        (omega (arith, length-rounds job.count draw)) stage)
]

-- The deliveries of one message, each with its own draws; between them nothing else runs.
unfoldable pub deliver_dummy_job :
    Bool → Text → Text → Option JobBody → List (ℕ → LogDraw) → World → World
deliver_dummy_job fails i q content [] w = w
deliver_dummy_job fails i q content (draw ∷ draws) w =
    deliver_dummy_job fails i q content draws (handle_dummy_job fails (some i) q content draw w).1

deliver-Stage :
    (fails : Bool) (i q : Text) (n : ℕ) (content : Option JobBody) (draws : List (ℕ → LogDraw))
    (w : World)
    → Stage i q n w
    → Stage i q n (deliver_dummy_job fails i q content draws w)
unfolding deliver_dummy_job
deliver-Stage fails i q n content [] w stage = stage
deliver-Stage fails i q n content (draw ∷ draws) w stage =
    deliver-Stage fails i q n content draws (handle_dummy_job fails (some i) q content draw w).1
      (handle-Stage fails i q n content draw w stage)

-- However often a message is delivered, whatever its body asks for and wherever a delivery fails,
-- its job adds at most a thousand logs.
pub deliver_dummy_job_bounded :
    (fails : Bool) (i q : Text) (content : Option JobBody) (draws : List (ℕ → LogDraw)) (w : World)
    → log_count (deliver_dummy_job fails i q content draws w) ≤ log_count w + max_dummy_metric_logs
deliver_dummy_job_bounded fails i q content draws w =
    elim (deliver-Stage fails i q (log_count w) content draws w (inl (omega arith))) [
      | inl few ↦ omega arith
      | inr (seen, few) ↦ few
    ]
