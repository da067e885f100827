-- ===== src/Server.antt =====
-- cmd/server/main.go: what `main` builds before it serves, and its refusals to start; `Shutdown` has the
-- end of its life. What the vendors answer, the schedules of
-- the scorers' runs and the AWS configuration are parameters.
pub mod Shutdown
pub mod Orderly
pub mod Drained
pub mod Steps
pub mod Finished
pub mod Startup
use fraud_detection_scoring.Prelude.{
  ℕ, String, Bool, true, false, not, Option, none, some, List, [], ◌∷◌, ℤ, str_eq, if◌then◌else◌,
}
use fraud_detection_scoring.Errors.{Error, exit, Result, ok, err}
use fraud_detection_scoring.Float.{Float64}
use fraud_detection_scoring.Domain.{Application, ScoreResult}
use fraud_detection_scoring.Scorer.Pipeline.{
  Scorer, Dependent, Schedule, new_scorer, new_naive, score_observed,
}
use fraud_detection_scoring.Auth.{Jose, Validator, hs256_validate}
use fraud_detection_scoring.Audit.Hash.{Digest}
use fraud_detection_scoring.Events.{Codec, Publisher, PublishedLine, log_publisher, sqs_publisher}
use fraud_detection_scoring.Metrics.{Observation, Recorder, Collector, collector}
use fraud_detection_scoring.Metrics.Emf.{Json, EmfRecorder, new_emf_recorder, emf_recorder}
use fraud_detection_scoring.Providers.{Provider, Settings, CircuitBreaker, GuardedProvider}
use fraud_detection_scoring.Providers.Defaults.{
  VendorSet, guard_set, default_providers, demo_sick_providers,
}
use fraud_detection_scoring.Service.{ScorerPort, ScoringService, new_service}
use fraud_detection_scoring.HttpApi.{Request, Decoded, Port}
use fraud_detection_scoring.HttpApi.Router.{RouterDeps}
use fraud_detection_scoring.Config.{AppConfig, Environment}
use fraud_detection_scoring.Aws.{sqs}
use fraud_detection_scoring.Server.Shutdown.{Delays}

-- What the recorders write to: the collector in memory, that of the demonstration, and the process's
-- output; with the clock that they read, in milliseconds.
pub record Telemetry : Type 0 where
  pub collected : Collector
  pub demo_collected : Collector
  pub output : List String
  pub now : ℤ

-- Where the publishers publish to: the structured log and the queue.
pub record Outbox (Q : Type 0) : Type 0 where
  pub lines : List PublishedLine
  pub queue : Q

-- The naive and the guarded demonstration.
pub record Demo (A : Type 0) : Type 0 where
  pub naive : A
  pub guarded : A

-- The code that is not in the repository, or that runs when the server does.
pub record Platform (F B V Q W : Type 0) : Type 0 where
  pub jose : Jose F
  -- `[]byte(s)`
  pub bytes : String → List ℕ
  pub codec : Codec F
  pub digest : Digest F
  pub encode : Json F → Result String
  pub sum32a : String → ℕ
  pub tie : Bool
  pub new_circuit_breaker : Settings → CircuitBreaker F B V
  pub env : Environment
  -- `awscfg.Load`, with the `SendMessage` of a client with an endpoint where it succeeds
  pub aws : Result (Option String → String → String → Q → Option Error × Q)
  -- what a vendor answers, and the schedule of a run
  pub answers : GuardedProvider F B V Telemetry → Dependent F
  pub naive_answers : Provider F V → Dependent F
  pub schedule : Application F → Schedule F
  -- a call of a demonstration's scorer, or of the service, from a transport
  pub call_scorer : Scorer F → Port F W
  pub call_naive : Scorer F → Port F W
  pub call_service : ScoringService F (Outbox Q) → Port F W
  pub decode : String → Decoded F
  pub marshals : ScoreResult F → Bool
  pub unmatched : Request → ℕ × String

module _ {F Q : Type 0} where
  abbrev pub log_to_outbox : Publisher F (Outbox Q)
  log_to_outbox = record {
    publish = λ ev box.
        let (e, lines) = log_publisher.publish ev box.lines in (e, record box { lines = lines });
  }

  abbrev pub queue_to_outbox :
      Codec F → (String → String → Q → Option Error × Q) → String → Publisher F (Outbox Q)
  queue_to_outbox codec send_message queue_url = record {
    publish = λ ev box.
        let (e, queue) = (sqs_publisher codec send_message queue_url).publish ev box.queue in
        (e, record box { queue = queue });
  }

abbrev pub into_collector : Recorder Telemetry
into_collector = record {
  observe_provider = λ o t. record t { collected = collector.observe_provider o t.collected };
}

abbrev pub into_demo_collector : Recorder Telemetry
into_demo_collector = record {
  observe_provider =
      λ o t. record t { demo_collected = collector.observe_provider o t.demo_collected };
}

-- The server before it serves; the router is that for a state of the readiness probe.
pub record Running (F Q W : Type 0) : Type 0 where
  pub auth : Option (Validator F)
  pub service : ScoringService F (Outbox Q)
  pub scorer : Port F W
  pub router : Bool → RouterDeps F W
  pub delays : Delays

module _ {F B V Q W : Type 0} ⦃fl : Float64 F⦄ (p : Platform F B V Q W) (cfg : AppConfig F) where
  abbrev into_output : Recorder Telemetry
  into_output = record {
    observe_provider = λ o t. record t {
      output =
          (emf_recorder p.encode (new_emf_recorder cfg.metrics_namespace) t.now).observe_provider o
            t.output;
    };
  }

  unfoldable pub recorder : Recorder Telemetry
  recorder = if cfg.metrics_emf then into_output else into_collector

  -- `pickValidator`
  unfoldable pub pick_validator : Result (Option (Validator F))
  pick_validator =
      if not cfg.auth_enabled
      then ok none
      else if str_eq cfg.jwt_secret ""
      then exit "AUTH_ENABLED but JWT_SECRET is empty; refusing to start with broken auth"
      else ok (some (hs256_validate p.jose (p.bytes cfg.jwt_secret)))

  abbrev over_sqs :
      Result (Option String → String → String → Q → Option Error × Q)
      → Result (Publisher F (Outbox Q))
  over_sqs (err e) = exit "failed to load AWS config"
  over_sqs (ok aws) = ok (queue_to_outbox p.codec (sqs p.env aws) cfg.queue_url)

  -- `buildPublisher`
  unfoldable pub build_publisher : Result (Publisher F (Outbox Q))
  unfolding sqs
  build_publisher =
      if not cfg.async_enabled
      then ok log_to_outbox
      else if str_eq cfg.queue_url ""
      then exit "ASYNC_ENABLED but AUDIT_QUEUE_URL is empty; refusing to start"
      else over_sqs p.aws

  -- `buildDemo`; the guarded demonstration has a collector of its own.
  unfoldable pub build_demo : Option (Demo (Port F W))
  unfolding guard_set demo_sick_providers
  build_demo =
      if not cfg.demo_endpoints
      then none
      else some (record {
        naive =
            let sick = demo_sick_providers p.sum32a p.tie in
            p.call_naive (new_naive p.naive_answers sick.independent sick.dependent cfg.scorer);
        guarded =
            let sick =
              guard_set p.new_circuit_breaker (demo_sick_providers p.sum32a p.tie) cfg.guard
                (some into_demo_collector) in
            p.call_scorer (new_scorer p.answers sick.independent sick.dependent cfg.scorer);
      })

  -- The service over the guarded default vendors.
  unfoldable pub build_service : Publisher F (Outbox Q) → ScoringService F (Outbox Q)
  unfolding guard_set default_providers recorder new_service score_observed
  build_service publisher =
      let prov =
        guard_set p.new_circuit_breaker (default_providers p.sum32a p.tie) cfg.guard
          (some recorder) in
      let sc = new_scorer p.answers prov.independent prov.dependent cfg.scorer in
      new_service (λ obs app. score_observed sc obs app (p.schedule app)) publisher cfg.persist_mode
        p.digest

  abbrev naive_demo : Option (Demo (Port F W)) → Option (Port F W)
  naive_demo none = none
  naive_demo (some d) = some d.naive

  abbrev guarded_demo : Option (Demo (Port F W)) → Option (Port F W)
  guarded_demo none = none
  guarded_demo (some d) = some d.guarded

  -- Both transports, over the service and the validator.
  abbrev pub wire : ScoringService F (Outbox Q) → Option (Validator F) → Running F Q W
  wire service auth = record {
    auth = auth;
    service = service;
    scorer = p.call_service service;
    router = λ ready. record {
      scorer = p.call_service service;
      naive = naive_demo build_demo;
      guarded = guarded_demo build_demo;
      auth = auth;
      probe = some ready;
      decode = p.decode;
      marshals = p.marshals;
      unmatched = p.unmatched;
    };
    delays = record {
      drain_delay = cfg.shutdown_drain_delay;
      shutdown_timeout = cfg.shutdown_timeout;
    };
  }

  abbrev pub with_validator :
      ScoringService F (Outbox Q) → Result (Option (Validator F)) → Result (Running F Q W)
  with_validator service (err e) = err e
  with_validator service (ok auth) = ok (wire service auth)

  abbrev pub with_publisher : Result (Publisher F (Outbox Q)) → Result (Running F Q W)
  with_publisher (err e) = err e
  with_publisher (ok publisher) = with_validator (build_service publisher) pick_validator

  -- `main` up to its `select`, or where it exits.
  unfoldable pub start : Result (Running F Q W)
  unfolding build_publisher build_service build_demo pick_validator
  start = with_publisher build_publisher
