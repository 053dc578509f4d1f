-- ===== src/Lib.antt =====
-- A boilerplate of NestJS microservices: an HTTP gateway that authenticates mobile clients, a user
-- service that owns the accounts, and the libraries that connect them over RabbitMQ. The gateway
-- turns a request into an RPC call of the user service and its errors into HTTP answers; the user
-- service reads and writes MongoDB and stages domain events in an outbox, from which a dispatcher
-- publishes them to a topic exchange; a failed event handler is recorded in a dead-letter queue.
--
-- Prelude: Boolean tests on the native numbers, lists, optional texts. Json: values on the wire.
-- Trim, Words: `String.prototype.trim`, and matching with word boundaries on character codes. The
--   decimal text of a number is in Prelude/Decimal.
-- Entities: libs/database/src/entities and libs/common/src/enums/index.ts. The database is three
--   lists of documents. A date is its number of milliseconds, and an id is its text.
-- Driver: MikroORM's `findOne` and `flush`, argon2 and SHA-256 as parameters, with laws. A query
--   may return any document that passes its filter, so no theorem rests on an order of documents.
-- Errors: libs/common/src/exceptions/rpc.exception.ts, libs/common/src/filters, the RPC client's
--   `send` (libs/common/src/services/rpc-client.service.ts), and the gateway's filter
--   apps/gateway/src/common/filters/http-exception.filter.ts.
-- DuplicateKey: libs/common/src/db.
-- EventBus: libs/messaging/src/amqp/event-bus.service.ts, event-dead-letter.interceptor.ts, and the
--   options and clients that libs/messaging/src/messaging.module.ts builds (Peers has the clients). Boot
--   has the wait for the first connect and the shutdown.
-- Outbox: libs/messaging/src/outbox/outbox.service.ts. Schedule has its lifecycle, as a step relation
--   whose events are timers that fire and sweeps that end; Everywhere lifts a property of one row.
-- Users: apps/user/src/modules/users/users.service.ts, one module per use case: Autoreg (the account
--   of a device), Login, Upgrade, OAuth, Password (forgot and reset), Profile (update and delete).
--   Email: apps/user/src/modules/email/email.service.ts. Controller: the handlers of
--   apps/user/src/modules/users/users.controller.ts that change their payload.
-- Gateway: apps/gateway/src/modules/auth: TokenStore (the blacklist in Redis), Tokens (strategies
--   and guards), Session (issue, refresh and logout), Revocation (the refresh route together with
--   the user service's answer), Flows (registration, login, OAuth and reset, together with the
--   handlers of apps/user/src/modules/users/users.controller.ts), OAuth (the verifiers of VK and
--   Yandex in apps/gateway/src/modules/auth/oauth, their factory, and the retry they share), Platforms
--   (apps/gateway/src/common/utils/parse-platform.ts), Linking (OAuth login and upgrade over the
--   verifiers, forgotPassword, and the handlers of auth.controller.ts), Profile
--   (apps/gateway/src/modules/users/users.controller.ts), Health
--   (apps/gateway/src/modules/health/health.controller.ts).
-- History: sequences of the operations on the database, as a step relation with reachability. Holds
--   is the invariant of one account's document, by a predicate that every operation keeps.
-- Redaction: libs/common/src/bootstrap/redact-secrets.ts. Config: require-env.ts and validate-env.ts
--   in libs/common/src/config. Events: libs/common/src/events/schemas.ts. Context: the trace id in
--   libs/messaging/src/amqp/custom-amqp-proxy.ts and the interceptors of the gateway and of
--   libs/common. Requests: apps/gateway/src/common/guards/fingerprint-throttler.guard.ts,
--   libs/common/src/pipes/parse-object-id.pipe.ts and the access log of
--   apps/gateway/src/common/interceptors/http-log.interceptor.ts.
-- Purge: tasks/user-purge/src/task.service.ts. Migrate: tasks/db-migrate/src/task.service.ts;
--   Scripts has the choice and the loading of the script files.
-- Startup: `attachCommonErrorResponses` of apps/gateway/src/main.ts (ApiDocs), bootstrap-task.ts with
--   the job of tasks/db-migrate/src/main.ts (Tasks), telemetry.ts (Telemetry) and bootstrap-service.ts
--   (Services) in libs/common/src/bootstrap, with metrics-server.ts and log-and-capture.ts (Reports) in
--   libs/common/src/observability.
-- Tools: tools/audit-env.mjs and tools/scaffold-service.mjs.
-- Tests: the theorems at concrete inputs, with concrete drivers.
--
-- A method that reads or writes the database takes it as an argument and returns it with a result or
-- an exception, and `Outcome` is that result or exception. A rejected flush may have written part of
-- its documents: the parameter says what it left. An id, a salt, a token or the time that the code
-- generates is an argument, and so is what `fetch` answers, by the number of the attempt. Loops are
-- recursion on lists, so no fuel is needed, except for the digits of a number n in decimal, where
-- n + 1 steps are enough. An operation runs from its reads to its flush without another between,
-- and a flush stamps `updatedAt` of a document that it changes.
--
-- Not modelled: dependency injection and the database module, the reconnects of the AMQP connection
-- manager, the Prometheus registry and logs (reports to Sentry by the filters are counted, the lines of
-- the access log are texts, and telemetry has what a line carries), DTO validation and OpenAPI
-- decorators, SMTP itself, and what the scripts in tools read and generate as files. Reads of the driver
-- do not fail, nor its native deletes outside of the purge task.
pub mod Config
pub mod Context
pub mod Driver
pub mod DuplicateKey
pub mod Entities
pub mod Errors
pub mod EventBus
pub mod Events
pub mod Gateway
pub mod History
pub mod Json
pub mod Migrate
pub mod Outbox
pub mod Prelude
pub mod Purge
pub mod Redaction
pub mod Requests
pub mod Startup
pub mod Tests
pub mod Tools
pub mod Trim
pub mod Users
pub mod Words
