-- ===== src/Lib.antt =====
-- Verification of the server of Beecon, an integration platform: its Go code under server/internal.
--
-- The parts and the files that model them (paths from the root of the repository):
--
-- * The outbound webhook channel, server/internal/delivery. An organization registers endpoints; the
--   other modules call Enqueue, which writes one event for each endpoint that takes its type (a fan-out)
--   or one NO_ENDPOINT event; a worker calls DispatchOnce, which claims due events under a lease, signs
--   and posts each, records the outcome, and schedules a retry or disables an endpoint that keeps
--   failing; another calls PurgeOnce. Delivery/Types models types.go and errors.go, Delivery/Schedule
--   schedule.go, Delivery/Signing signing.go, Delivery/Memory driven/memory/repository.go,
--   Delivery/Ports port.go and the Facade struct, and Delivery/Endpoints, Delivery/Outbox and
--   Delivery/Dispatch the requests, the enqueueing and the worker runs of facade.go. The functions keep
--   their Go names in snake case. Delivery/Operations is the whole surface as a state machine:
--   `step` runs one operation, `run` a history of them.
-- * The operator console, server/internal/access: accounts, sign-in with a lockout, sessions.
--   Access/Operators models operator.go, operator_session.go and the two in-memory repositories,
--   Access/Console operator_facade.go, Access/Errors errors.go. Access/Console/History is the facade as
--   a state machine (`serve`, `serve_all`).
-- * Machine access, server/internal/access: API keys, whose secrets are stored as a prefix and a hash and
--   are rotated with an overlap, the secrets that sign user tokens and webhooks, and the check of a user
--   token. Access/Keys models types.go, secret.go and the repositories of these secrets, as one store;
--   Access/KeyFacade facade.go and signing_secret.go, Access/WebhookSecrets webhook_secret.go, and
--   Access/UserTokens usertoken.go. Access/Rotation is about the loop that retires secrets, for any kind.
-- * Connections, server/internal/connections: a user authorizes an integration. Initiate mints a connect
--   link; the connect page collects parameters and mints a single-use state; the provider calls back
--   with the state, and the connection becomes ACTIVE; a tool call takes its token, which is refreshed
--   when it runs out; two workers refresh ahead of time and probe the provider; a refresh that the
--   provider denies makes the connection EXPIRED and sends one event. Connections/Types models types.go,
--   Connections/Errors errors.go, Connections/Memory driven/memory/repository.go, Connections/Ports
--   port.go and the Facade struct, Connections/Facade facade.go, Connections/Handshake and
--   Connections/Templates oauth.go, Connections/Refresh refresh.go, refreshlock.go, expired_event.go,
--   scheduler.go and reconcile.go, and Connections/Access execution_access.go. Connections/History is
--   the facade as a state machine (`serve`, `serve_all`); Connections/Invariant says once what each
--   operation keeps, for any property that the changes of a connection and the methods of the
--   repository keep, and its children fill that interface.
-- * The retries of tool calls, server/internal/execution: Execution/RateLimit models ratelimit.go,
--   Execution/Retry the loop of retry.go.
-- * Triggers, server/internal/triggers: which of the records that a poll fetched fire. Triggers/Types
--   models types.go, Triggers/Watermark watermark.go; the poll worker is not modelled.
-- * The registry service, server/internal/registryservice, a program of its own that publishes bundles of
--   tools under versions: Registry/Types models types.go and server/internal/registrybundle,
--   Registry/Errors errors.go, Registry/Versions semver.go, Registry/Diff bundlediff.go, Registry/Store
--   driven/memory/store.go, and Registry/Facade facade.go, schemagate.go and strict_parse.go.
-- * The error values of server/internal/httpx/errors.go: Httpx/Errors.
--
-- How code is modelled. A method that changes state and may fail is an `Exec S A`, which is `S →
-- Result A × S`: what it wrote before it failed stays written (Base/Effects; Base/Effects/Ends and
-- Base/Effects/Gives are its rules of inference, Base/Effects/Ports its calls of ports). A map with
-- keys in its values is a list with one entry for each key (Base/Keyed). What the facade reaches
-- through a port is a function of the number of port calls made so far, so that a clock advances, an
-- id source gives new ids, and any call can fail (`fault`); the repository behind the port is the
-- in-memory one, and a call that fails has changed nothing. Times are counts of nanoseconds, ids
-- opaque numbers with 0 for the empty one (texts in the registry), and a request body the list of
-- its bytes. HMAC-SHA256, SHA-256, base64, the vault, Argon2id, schema.Validate, url.Parse,
-- json.Marshal, json.Unmarshal, http.ParseTime, the case folding of an address and the random
-- sources are parameters; a duration is an int64 with its wrap-around (Base/Clock).
--
-- The loops run over lists, but for the retry loop, which runs on fuel: it ends by itself at its third
-- attempt, so it is given fuel for three rounds.
--
-- Not modelled: the SQL adapters under driven/bun (they repeat the contract of the in-memory ones in
-- SQL), the store on disk of the registry, the HTTP handlers, the wiring, logging and metrics
-- export, the admin user interface and the SDKs. An operation runs to its end before the next one
-- starts: two workers are told apart by their claims, and the interleaving of their single port
-- calls is not modelled.
pub mod Access
pub mod Base
pub mod Connections
pub mod Delivery
pub mod Execution
pub mod Httpx
pub mod Registry
pub mod Triggers
