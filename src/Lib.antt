-- ===== src/Lib.antt =====
-- The fraud-detection scoring service: a caller sends an application, vendors are asked for risk
-- signals under a deadline, a decision is made from those that arrive, and the audit, review and
-- retraining work is done later from an event on a queue.
--
-- Parts and files (paths from the repository's root):
--   * Domain: internal/domain/domain.go, the business types.
--   * Scorer (decide), Scorer.Decide (its laws): `decide` of internal/scorer/pipeline.go.
--   * Scorer.FanIn with its child modules: `runStageA` of internal/scorer/scorer.go and of
--     internal/scorer/naive.go. A state holds the goroutines, the buffered results channel, the
--     collecting loop's counter and its deadline; `step` is one event (a fetch returns, a goroutine
--     sends, the loop receives, the deadline passes). A schedule is a list of such events, so every
--     interleaving is covered; `none` is a schedule that cannot happen. Scorer.FanIn.Progress counts
--     the events that a run has left.
--   * Scorer.Pipeline: `Score`, `ScoreObserved` and `callDependent`, both stages with the decision.
--   * Context: internal/reqid/reqid.go and the context helpers of internal/auth/auth.go; what
--     crypto/rand gives is an argument of `generate`.
--   * Audit: the port, the log sink and the in-memory sink of internal/audit/audit.go, Audit.Hash
--     its `HashInputs`. Audit.Dynamo: internal/audit/dynamodb.go over a table with a conditional put
--     (`IsConditional`).
--   * Events: internal/events, the event and its publishers.
--   * Consumer: internal/consumer, which acts on the stores of an audit, a review and a retraining
--     sink. What it asks of them is `IsWriteOnce`, `IsIdempotent`, and where a duplicate must be
--     answered as one, `Dedups`. `IsSettled` and `IsWritten` are what it does for an event.
--     Consumer.Concurrent runs deliveries at the same time: a delivery stands before one of its
--     calls of a sink, and a schedule says whose call is made next. Consumer.Reused is about a
--     second event under the ids of a first.
--   * Auth: internal/auth/auth.go, the validators and the bearer token; base64, HMAC and JSON are
--     the record `Jose`.
--   * HttpApi: internal/httpapi, its handlers and the status recorder, HttpApi.Router its middleware
--     and routes. A handler acts on an exchange (response, access log, the scorer's world) and may
--     panic.
--   * GrpcApi: internal/grpcapi, the interceptors and the server, with child modules for the names
--     of its enums (GrpcApi.Named) and for its access log (GrpcApi.Logged).
--   * Metrics: internal/metrics/metrics.go, the port and the collector in memory over association
--     lists, with the wrap-around of its int64; Metrics.Emf: emf.go, the document as a tree;
--     Metrics.Series reads from a log what an alarm of deploy/terraform/modules/app/alarms.tf sees.
--   * Providers: internal/providers/guarded.go, the guard's budget, breaker and recorder over a
--     breaker with the laws that gobreaker documents; Providers.Simulated: simulated.go;
--     Providers.Defaults: defaults.go and `GuardSet`. A fetch is one step, also where vendors are
--     called concurrently. The state of a guard's breaker is an argument of its fetch, so that
--     `GuardSet` makes a breaker for each vendor is not modelled. Providers.Streaks and
--     Providers.Tripping are about a breaker that keeps its settings (`KeepsSettings`, as gobreaker
--     documents them).
--   * Config: internal/config/config.go, with the parsers of strconv and time as parameters, and
--     Config.Malformed values that they cannot read.
--   * Server: cmd/server/main.go up to its `select`, which of validator, publisher, recorder and
--     demonstration is chosen, and where it exits; the vendors' answers and the schedules of the
--     scorers' runs are parameters. Server.Shutdown: the `select` and `gracefulShutdown`. A state
--     holds where the main goroutine and the two that close the transports are, the probe, the
--     requests in flight and a clock; `step` is one event of them, of the callers or of time, as
--     documented of http.Server and grpc.Server.
--   * Aws: internal/awscfg/awscfg.go, the endpoint of the clients.
--   * Worker: cmd/worker/main.go, its refusals to start, and the polling loop over a list of what
--     SQS returns.
--   * Lambda: cmd/consumer/main.go, the function that Lambda calls. Consumer.Deployed is the handler
--     that both build.
--   * Service: internal/service/scoring.go, which scores and publishes one event.
--   * Journey: no file of its own, but the way of an answer from the service by the queue to the
--     audit records, and in Journey.Requested from the HTTP request on; the codec reads back what it
--     wrote (`IsFaithful`).
--
-- float64 is a parameter, the record `Float64`, and `IsIeee` states the two IEEE facts that the
-- theorems use; whole millionths are an instance of both, on which the tests run. A Go error is
-- `Option Error`, a typed string is a string, an `int` is an integer without a width, since nothing
-- adds to one, and a duration is an integer of nanoseconds. A mutex is what makes an operation on a
-- store one step. No definition runs on fuel: loops are recursion on the list that they range over,
-- and a schedule ends by its length.
--
-- Parameters: the circuit breaker, FNV-1a, the JSON codec, SHA-256, HMAC, base64, the SQS and
-- DynamoDB clients, the mux's reply to a request that no pattern matches, the clock and the random
-- id. Not modelled: diagnostic log lines and spans, the generated protobuf code, and the timeouts of
-- http.Server.
mod Prelude
pub mod Float
pub mod Errors
pub mod Domain
pub mod Scorer
pub mod Context
pub mod Audit
pub mod Events
pub mod Consumer
pub mod Service
mod Tests
pub mod Auth
pub mod HttpApi
pub mod GrpcApi
pub mod Metrics
pub mod Providers
pub mod Server
pub mod Worker
pub mod Lambda
pub mod Config
pub mod Aws
pub mod Journey
