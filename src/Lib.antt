-- ===== src/Lib.antt =====
-- A model of the AmbaGrid edge agent (services/edge-agent-go), which collects telemetry at a site,
-- keeps it in a durable queue, uploads it to the ingestion service and falls back to SMS for critical
-- incidents, of the ingestion service that receives the uploads (services/ingestion-go), and of the
-- parts of the API service (services/api-go) that receive the SMS, apply payments, and list and resolve
-- alerts, with the theorems that make these parts correct.
--
-- The program's parts and how they interact:
--   * The collector (internal/collector) reads its sources, turns a reading into an event, watches
--     critical conditions with a debounce, stores each event with `Persist`, opens the incident and
--     only then releases the event with `MarkPendingUpload`.
--   * The queue (internal/repository/sqlite) is one SQLite database: events, incidents, SMS attempts,
--     debounced conditions, heartbeats and the state of the synchronisation.
--   * The uploader (internal/uploader) takes batches from `Ready`, sends them over HTTP, and settles
--     each record by the answer: completed, rejected, abandoned or retried.
--   * The coordinator (internal/fallback) sends critical incidents and heartbeats by SMS while uploads
--     fail, within limits per incident, hour and day.
--   * The ingestion service (services/ingestion-go/internal) authenticates a batch, records the
--     contact, validates each record, publishes it to Kafka and answers record by record; its MQTT
--     side parses the topics that the collector writes.
--   * The API service (services/api-go/internal) takes each SMS from a provider's webhook: it checks the
--     signature, parses the text as the inverse of what the agent formats, and in one PostgreSQL
--     transaction stores the event with an alert and an outbox row, or the heartbeat, and the receipt.
--     The same service takes the webhooks of the payment provider Paystack, grants the energy of a
--     payment at the site's tariff, raises the customer's balance and requests that a meter which ran
--     empty is connected again. It
--     lists the alerts in pages, whose cursors a client sends back, and resolves an open alert with a row
--     of its history and an outbox row in one transaction.
--
-- Files, with the code they model (paths below services/edge-agent-go/internal):
--   Edge/Domain, Edge/Errors    domain/*.go: events, records, statuses, readings; the errors, and how
--                               SQLite may fail
--   Edge/Store/Schema           repository/sqlite/schema.go: a table is the list of its rows
--   Edge/Store/Capacity         config.go, capacity.go, and checkAdmission of mutations.go
--   Edge/Store/Mutations        mutations.go: insert, Enqueue, Persist, transition and its uses
--   Edge/Store/Completion       mutations.go: CompleteUpload, Abandon, markFailed, Purge, recovery
--   Edge/Store/Queries          queries.go: Ready, Record, Stats, queueState
--   Edge/Store/Incidents, SmsAttempts, Debounces   fallback.go
--   Edge/Store/Heartbeats       heartbeat.go
--   Edge/Store/Initialize       the steps of Open behind the migration
--   Edge/Fallback/Message, Heartbeat, Policy, Coordinator   fallback/*.go; `FallbackStore` is the
--                               interface of the coordinator's store, `CountsAttempts` (Limits) what it
--                               relies on, and SqliteStore shows that the queue fills both
--   Edge/Uploader/Client, Batch   uploader/client.go, uploader/uploader.go
--   Edge/Collector/Conditions, Collect   collector/*.go
-- and below services/ingestion-go/internal:
--   Ingest/Types, Validate, Handler   ingest/types.go, ingest/ports.go, ingest/handler.go
--   Ingest/Wire                 the JSON fields that both ends of an upload name alike
--   Ingest/Auth                 ingest/auth.go: API keys and bearer tokens
--   Ingest/Topic                telemetry/telemetry.go: topics and filters
-- and below services/api-go/internal:
--   Api/Sms/Fields, Parse       webhook/sms.go and the types of domain/fallback.go, domain/heartbeat.go
--   Api/Database                the tables (services/engine-rust/migrations) and the errors
--   Api/Fallback/Details, Queries, Receive   domain/fallback.go, repository/postgres/fallback.go,
--                               services/fallback.go
--   Api/Heartbeats/Receive      repository/postgres/heartbeat.go, services/heartbeat.go
--   Api/Webhook/Handle          handleSMSFallback of controller/handlers.go, writeError of response.go
--   Api/Pages/Cursor            page/page.go: the cursors of the lists
--   Api/Alerts/Listing          services/alerts.go, services/limits.go, `ListAlerts` of
--                               repository/postgres/alerts.go, `Build` of page/page.go; `follow` is a client
--   Api/Alerts/Resolve          `Resolve` of services/alerts.go, `ResolveAlert` of repository/postgres/alerts.go
--   Api/Payments/Tables, Checks   domain/payment.go, webhook/paystack.go, the checks of services/payments.go
--   Api/Payments/Queries, Writes   repository/postgres/payments.go
--   Api/Payments/Apply, Webhook   services/payments.go, handleWebhookPayment and handleApplyDevPayment
-- The other files prove. Edge/Store/Lifecycle and Lifecycle/Calls give the calls on the queue as data
-- and the ways one call may change a row; Cases, Untouched, Evolution, Replay, Survival and Invariant
-- follow from them; Ready and Batches are about `Ready`, Outcomes, Completed and Admission about single
-- operations, IncidentLife and IncidentHistory about incidents, Startup and
-- StartupIncidents about `initialize`. Edge/Store/History states that what a
-- client does is a history of calls; Uploader/Calls and Session and Collector/Calls and Session show it
-- for the clients. Ingest/Accounts is about the answer of the service, Ingest/EdgeUpload about the
-- uploader against the service, Ingest/TopicShape about topics, Ingest/Keys about API keys. Api/Sms/RoundTrip
-- puts the parser behind the agent's Format, over Render, Values, HeartbeatTrip and CriticalTrip;
-- Api/Fallback/Outcomes says what a call may do, Repeats, Integrity and Accepts follow from it;
-- Api/Heartbeats/Recorded is about heartbeats, Api/Webhook/Refusals and Delivery about whole requests.
-- In Api/Payments, Steps and Grants lead to Outcomes, what a payment may do in the terms of Booked, and
-- Effects says it in amounts over Tariffs;
-- Balances, Books and Conserved are about the sums, Repeats and Delivery about payments told again,
-- Refusals about requests that are refused.
-- Api/Pages/RoundTrip is about cursors; Api/Alerts/Order leads to Coverage, about all pages of a listing, and Once is
-- about the resolution of an alert. The
-- Examples files hold the tests, over the data of the Samples files. Common holds what
-- all share: lists over native numbers, SQL-style tables, Go strings, times and results.
--
-- How the code is read:
--   * Strings and byte slices are lists of bytes. A time.Time is the nanoseconds since the zero time,
--     and a column of milliseconds is that divided by 10^6: the Unix epoch is a constant shift away.
--     float64 is its IEEE bit pattern.
--   * A method takes `Faults`, SQLite's answer to its n-th statement (BEGIN and COMMIT counted), and
--     returns the database with its result; a transaction that fails leaves the database as it was.
--     RowsAffected and LastInsertId do not fail. Foreign keys are taken as enforced, as the DSN asks
--     with `_foreign_keys`; whether the driver heeds that is not known here, and no result needs it.
--   * Sizes of the queue are natural numbers: the products of the code stay below 2^63 for storage
--     budgets up to 2^56 bytes. Free bytes of the file system keep their wrap-around modulo 2^64.
--   * Retry delays are exact: below 2^53 ns a float64 doubles without rounding.
--   * Errors that the code only logs are dropped, with the state that the failed call left.
--   * The loops over readings, records and candidates are structural. `drainOnce` runs over the
--     rounds that the environment grants before the context is cancelled; the decimal digits of n take
--     fuel n + 1, which is more than n has digits.
--   * The HTTP exchange, JSON decoding, the clock, the file system and the modem are arguments, and so
--     are ParseFloat, HMAC-SHA256 and the map of SMS senders.
--   * A PostgreSQL transaction takes `Faults` too, one for each statement. Its key lock makes the
--     transactions of one event follow each other. A new alert ID is a number not used before, where
--     gen_random_uuid draws one. Times are kept in nanoseconds, where timestamptz keeps microseconds;
--     the times of an SMS are whole seconds. Foreign keys to sites and assets and the unique keys are
--     enforced; those to alerts and events always hold, as the development shows.
--   * `seen` of a payment's environment is the database at its first SELECT: other payments may commit
--     until it inserts its own. From there on the transaction is taken to run alone, so a race for the
--     balance of one assignment is not in the model. An amount of energy is counted in the millionths
--     of a kWh that numeric(18, 6) keeps; float64 arithmetic and its conversions are arguments. The
--     trigger on the payer and the foreign keys to rows that the transaction has read always hold.
--   * Base64, the texts of RFC 3339 times and of UUIDs are arguments of the cursors; that they are read
--     back is a hypothesis, for times and IDs of the rows only. A UUID is its number. The rows of a
--     listing are a list in the order that the query asks for, and its SELECT does not fail. `follow` has
--     a number of pages as fuel: one more than the rows of the filter is enough.
--   * The JSON between the uploader and the service is taken field by field, as both ends name it. A
--     contact that the service could not record is taken as not published, although a produce call that
--     times out may still deliver it.
--   * The seconds of an SMS time are not bounded: `time.Unix` near the largest int64 wraps around.
--   * An error of the SMS parser has a constructor for each text, without the key of an unknown field.
--     A failed statement is taken for one that met no deadline.
--
-- Not modelled: the migration of older schemas and the PRAGMAs of SQLite, the tickers that repeat the
-- passes, the modem's subprocess, the health endpoint, the configuration and the simulator of the
-- agent; the bridge and the Kafka producers of the ingestion service; the warning
-- about the monthly SMS budget, a log line; the detail of an alert, the
-- lists of other rows and the sites of the API service; the engine.
pub mod Api
pub mod Common
pub mod Edge
pub mod Ingest
