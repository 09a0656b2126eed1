-- ===== src/Lib.antt =====
-- The core of lakira-backend, a TypeScript service on Express, Sequelize, Redis and RabbitMQ:
-- sign-in sessions, organization memberships and invites, password resets, email verification, the
-- login lockout, the job queue's retries and idempotency, what users track (metrics with their
-- settings, categories, logs and the time ranges and statistics of their visualizations), and what
-- stands around it: authentication, rate limits, configuration, readiness and shutdown.
--
-- Parts and files. Paths are from the repository's root; `auth` is src/features/shared/auth, and
-- `public` is src/features/public.
--   Base, Text: shared helpers; tables as lists of rows with a key; texts as lists of UTF-16 code
--     units, with `trim` and equality.
--   Store: the rows of the tables (auth/domain/entities), the errors
--     (src/shared/domain/errors/DomainError.ts) and the effects. A `World` is the database, the
--     emails that the provider took, the jobs that reached the broker, and Redis. An `Action`
--     passes it on and ends in a value or a `Failure`. `run_in_transaction`
--     (src/shared/infrastructure/persistence/SequelizeTransactionPort.ts) puts the database back
--     after a failure, and only that: an email stays sent.
--   Session: RefreshTokens is the entity and its repository; Inputs and UseCases have
--     RotateRefreshToken, IssueRefreshToken, RevokeRefreshTokenFamily, SwitchOrganization and
--     LoginUser of auth/application/use-cases as `rotate`, `issue_refresh_token`,
--     `revoke_refresh_token_family`, `switch_organization` and `login`. Rotation has what a
--     rotation does, Changes what a change of the table keeps, Steps, Switching, SigningIn and
--     Reach the histories of calls, and Spent and Replay a token that is presented
--     again.
--   Members: Table is the entity and MembershipRepositorySequelize; UseCases has RemoveMembership
--     and ChangeMemberRole, each with its checks as a definition of their own, since another
--     request can come between the checks and the write. Owners, Roles and Race prove what becomes
--     of an organization's owners, and Pages has the listings.
--   Accounts: Users is AuthUser and its repository, whose selects pass over the rows that were
--     deleted softly; Lockout is auth/infrastructure/http/loginLockout.ts, and Blocking proves when
--     it blocks.
--   PasswordReset: Tokens (the entity and its table), Requests (RequestPasswordReset with the
--     queued job and the fallback in the request), Resets (ResetPassword), Laws and OneEmail.
--   Invites: Table (OrganizationInvite and its table with the index of pending invites), UseCases
--     (InviteUserToOrganization as `invite_user`, AcceptInvite as `accept_invite`), Accepting and
--     Sending.
--   Verification: Tokens (EmailVerificationToken and its table), UseCases
--     (RequestEmailVerification, VerifyEmail) and Laws.
--   Registration: UseCase (RegisterUser as `register_user`) and Laws.
--   Mail: what a publish and a send come to. A send that throws, as where TimeoutEmailSender gave
--     it up, may be delivered all the same.
--   Messaging: RetryPolicy, Consumer and Idempotency are retryPolicy.ts, RabbitMQConsumer.ts and
--     SequelizeMessageIdempotency.ts of src/shared/infrastructure/queue; Bounds, Lifecycle and Once
--     prove what they promise together. `handle` is told whether the channel takes its ack or nack;
--     where it does not, the broker delivers the message again as it was (`unsettled`).
--   Paging: Window is one page of a select by a cursor, which the repositories of memberships,
--     categories, settings and logs have in common; Order, Following and Cursors prove what a
--     client reads who follows the cursors, also where a cursor holds less than the column.
--   Analytics: public/analytics/domain. Buckets, Windows (relative-range.ts), Fallback and Stats
--     are its files. Calendar is what relative-range.ts computes with of JavaScript's Date, and
--     Zone its zoneFor. CalendarLaws, ZoneSearch, ZoneLaws, WindowLaws, Parsing, RangeLaws,
--     FallbackLaws and StatsLaws have the proofs.
--   Metrics: Texts (src/shared/utils/text-validation.ts), Entity, Table (MetricRepoSequelize, and
--     validateMetricAccess of src/utils/db-helper.ts), UseCases (CreateMetric, UpdateMetric,
--     DeleteMetric as `create_metric`, `update_metric`, `delete_metric`) and Laws.
--   Settings: Entity (MetricSettings.updateDetails as `update_details`), EntityLaws, Table,
--     UseCases of public/metric-settings, Listing (listByCursor) and Laws.
--   Logs: Table, UseCases, Listing (listLogs) and DummyJob (GenerateDummyMetricLogsHandler.handle
--     as `handle_dummy_job`) of public/metric-log, and JobLaws.
--   Categories: Values (the value objects, the entity and the factory), Table, UseCases and Listing
--     of public/metric-category. Snapshots and Cached are CachedMetricCategoryRepository.ts
--     (`cached_list`) with the entries of MetricCategoryCacheRedis.ts; CachedLaws is about
--     snapshots, ListedRows about the rows of a page, CacheHistory about what the cache holds and
--     CachedLists about its answers.
--   Cache: Keys is src/shared/cache/keys.ts (buildCursorCacheKey as `build_cursor_cache_key`),
--     ListKeys the keys of the lists of metrics, settings and categories. Parts takes a key apart
--     at its colons; KeyLaws, Isolation, PlainIds and Tenants show what keys tell apart.
--   RateLimits: Addresses (`client_ip_key` is clientIpKey) and Limiters (the limiters' options and
--     keys) are src/shared/middleware/rate-limiter.ts, with hashEmail of src/utils/email-hash.ts;
--     AddressLaws, Written and LimiterLaws show which requests share a key.
--   Config: Reading, Fields, Schema, Refusals and Normalizing are src/config/zodEnv.ts
--     (`parse_env`, `refusals`, `normalize`, `build_env`); RefusalLaws, Spreading and Hardening
--     show what an accepted environment has.
--   Runtime: Readiness (src/shared/utils/readiness-probe.ts), Shutdown (src/utils/shutdown.ts) and
--     Background (src/utils/background-tasks.ts) are machines whose events are what the event loop
--     brings; ReadinessLaws and ShutdownLaws follow them.
--   Http: Auth is authMiddleware, requireVerifiedEmail and assertHasOrgRole of
--     auth/infrastructure/http, and assertAuthenticated of src/utils/auth-guards.ts; Issues is
--     src/shared/utils/zod-error-formatter.ts; Errors is src/shared/middleware/error.ts with
--     error-envelope.ts (`handle_error` is createErrorHandler). Contexts, AuthLaws and ErrorLaws
--     prove who is let in and what an error shows.
--   Samples and the Tests modules: concrete worlds, and runs of the code in them.
--
-- How the parts meet: the queued password-reset and invite jobs run under `run_once`, their
-- failures are settled by `handle`, and sign-in counts its refusals in the lockout's counters. The
-- dummy-log job makes its rows under `run_once` too, creating a metric inserts its settings in the
-- same transaction, and the settings, logs and categories are found through the user's metrics. The
-- authentication reads the users and the memberships that the use cases write, and the error
-- handler and the refusals of the configuration share one notion of a local environment.
--
-- Conventions. Ids, hashes and raw tokens are numbers, as the code only compares them. Dates are
-- milliseconds; a call reads the clock once, as its argument `now`. What randomUUID and the token
-- generator answer are arguments (Draw, ResetDraw, InviteDraw, VerificationDraw, RegisterDraw).
-- Hashing, signing, password comparison, lower-casing, the broker's answers and the mail server are
-- ports, records of functions that the theorems quantify over. An error keeps its kind and loses
-- its text; an email keeps its address and the token in its link. Database errors other than a
-- violated unique column are not modelled, nor are log lines. `digits` prints a number with one
-- more fuel than the number, and a number has no more digits than that; `deliver` has the
-- deliveries as its fuel, and a theorem says how many are enough. A timestamp column is in
-- microseconds where a listing tells them from milliseconds (Members/Pages, Categories/Listing),
-- and `run_jobs` says of each run whether its transaction's commit fails after the work.
--
-- The tracked rows stand in one field of the database. The times of Analytics are milliseconds
-- since the first of January of the year -272400, which is before every Date; its figures, like
-- those of goals and logs, are exact whole numbers of a unit so small that each is one, and the
-- mean is an exact ratio, where JavaScript rounds doubles. The search for a
-- move of the clocks has the distance of its ends as fuel, which is enough since every round
-- shortens it; a month is found in at most three steps from its estimate. A cursor is the position
-- that its text decodes to, and to the use cases the caches are whether their invalidation throws.
-- A number in a cache key is a natural one, and a lone surrogate makes no key.
--
-- The variables of the configuration that are read as origins, DSNs, fractions or chart bounds are
-- left out, and a variable that is refused or a value that throws is a missing result. isIPv6, URL,
-- decodeURIComponent, the verification of a token, SHA-256 and toLowerCase are parameters. A
-- group of an address is printed with one more fuel than its value, and has no more digits than that.
--
-- Not modelled: the controllers and routers, logging, OpenAPI documents, migrations, the broker's,
-- the caches' and the database's clients, the counting inside the rate limiters' library, the SQL
-- of the visualizations and of the read models, and what the other caches hold.
pub mod Base
pub mod Text
pub mod Store
pub mod Samples
pub mod Mail
pub mod Accounts
pub mod Members
pub mod Messaging
pub mod PasswordReset
pub mod Invites
pub mod Verification
pub mod Session
pub mod Registration
pub mod Paging
pub mod Analytics
pub mod Settings
pub mod Metrics
pub mod Logs
pub mod Categories
pub mod Cache
pub mod RateLimits
pub mod Config
pub mod Runtime
pub mod Http
