-- ===== src/Lib.antt =====
-- The transaction ingest service: producers push tolling transactions over HTTP, the service
-- validates and records each of them once, and a relay publishes an event for each.
--
-- How the parts work together. A request passes the middlewares of internal/httpapi/middleware and
-- the contract validator, and meets the handler of internal/httpapi/ingest.go. That hands a
-- submission to `Rules.Accept` of internal/transaction/validate.go, which reads the amount with
-- internal/money. What is accepted goes to a store of the contract in internal/transaction/store.go:
-- the one in memory or the one over PostgreSQL, which writes an event to the outbox in the same
-- database transaction. cmd/outbox-relay runs the relay of internal/outbox/relay.go, which publishes
-- the events and marks their rows.
--
-- Files, in the order of their dependence.
--   Base      what the others share: texts as lists of bytes, Go's maps, times, strings.TrimSpace,
--             ToLower, slices.Sort and slices.Compact.
--   Platform  the code outside the repository that the program relies on, as one record of
--             functions: decimals, JSON encoding, SHA-256, Unicode tables. Theorems that need more
--             of them than their types say so in a hypothesis.
--   Money     internal/money: `Currency.lookup` is Lookup, `Amount.parse` is Parse, and `Syntax` the
--             regular expression and decimalPlaces. `Syntax.Grammar` is the grammar in its own right.
--   Transaction  internal/transaction: `Identity`, `Types`, `Model`, `Fingerprint` and `Validate`,
--             where `accept` is Rules.Accept with its three ways to return. `Validate.Accepted` says
--             what the rules ask for without the order of the checks.
--   Store     `Interface` is the contract of transaction.Store; `Memory` is internal/store/memory;
--             `Postgres` is internal/store/postgres over `Postgres.Database`, the tables and
--             constraints of db/migrations and the statements. A call takes as an argument which
--             statement fails, and whether the commit fails, is done, or is done with its answer lost.
--   Outbox    internal/outbox: `Event` and `Body` (outbox.go), `Publisher`, `Backoff`, `Relay` and `Loop` (relay.go).
--             A pass takes as an argument what the publisher answers and which statements fail; a
--             failed statement makes the server refuse those that follow.
--             `Relay.Overlap` is two passes at once under FOR UPDATE SKIP LOCKED; `Loop.run_loop` is
--             Run over rounds that are given, and `Loop.run_rounds` Run over a stream of them, on fuel;
--             `Loop.Telemetry` is Run as its metrics see it.
--   System    ingests and relay passes on one database, as a step relation, and `History` with the
--             events that the publisher took. `Service` has the server and the relay together: each
--             turn of it is a request or a pass.
--   HttpApi   internal/httpapi: `Request`, `Mapping`, `ApiError`, `Reply` and `Ingest`, where
--             `ingest_transaction` is IngestTransaction with its response, metrics and log records;
--             `Contract` is the answer to a request that the validator refuses; `Middleware` is the
--             chain of NewRouter, and `Server` the whole of it, with the validator and the generated
--             wrapper; `Telemetry` is what the handler's calls leave in the collectors.
--   Metrics, Logging, Health  internal/platform. `Health.Checker` has the registered checks.
--   Config    internal/config: `load` is Load.
--   Startup   what the three commands of cmd decide from the configuration. `Process` has
--             Connect of internal/store/postgres and what the two servers do, as a list of acts; `Api`
--             and `OutboxRelay` are the two `run` functions, over what pgx, the network and the
--             operating system answer; `Main` has the healthcheck mode, and `Migrate` is cmd/migrate
--             with internal/store/postgres/migrate.go over what goose answers.
--   Examples  a small world in which the definitions run, and the theorems in it.
--
-- Conventions. A function that may fail returns a `Result`, with the text of the error. Where the
-- source holds a lock for a whole operation the operation is one step; the label of the metrics,
-- which has two lock sections, is modelled by its sections in any order. A call of the durable
-- store and a pass of the relay are one step each on the tables: the server isolates them, and a
-- pass marks rows that it has locked. Loops are recursion over their lists. Two functions have
-- fuel: the decimal digits of a number n have n + 1, which is enough since every step divides by
-- ten, and the loop of the relay has a number of rounds; k + 1 are enough where round k meets a
-- cancelled context. An instant is its nanoseconds counted from 2^63 seconds before the zero time;
-- durations and counts that the program keeps positive are natural numbers, and a conversion to
-- int32 wraps.
--
-- A call of the collectors with a producer's label panics where the Prometheus client does not take
-- the label: which values it takes is a parameter, `takes_label`. The other labels are ASCII constants,
-- patterns and tokens, which it takes. `Server.replied` makes the calls of a handler before the answer
-- is written, and `Middleware.recover` answers for a handler that panics.
--
-- Not modelled: sockets, the delivery of signals, the connection pool itself, goose, the contract
-- validator itself, routing by the mux, the output formats of slog and the Prometheus registry,
-- since they are libraries or pure I/O; how the time a request took comes about; the normal form
-- in which the server keeps the payload of an event.
pub mod Base
pub mod Platform
pub mod Money
pub mod Transaction
pub mod Store
pub mod Outbox
pub mod System
pub mod HttpApi
pub mod Metrics
pub mod Logging
pub mod Health
pub mod Config
pub mod Startup
pub mod Examples
