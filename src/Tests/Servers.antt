-- ===== src/Tests/Servers.antt =====
-- A server that starts with authentication enabled, and its shutdown.
use fraud_detection_scoring.Prelude.{
  ℕ, String, Bool, true, false, none, some, List, [], ◌∷◌, ◌++◌, ◌≡◌, ◌≢◌, ◌⊎◌, ◌↔◌, refl, ℤ, pos,
  ◌+ℤ◌, ◌*ℤ◌, ◌≤ℤ◌, ltb_ℤ, ◌≤◌, ◌+◌,
}
use fraud_detection_scoring.Errors.{ok, err, message, sentinel, invalid_token}
use fraud_detection_scoring.Float.{Millionths, millionths_float}
use fraud_detection_scoring.Auth.{bearer_token, hs256_validate}
use fraud_detection_scoring.Config.{AppConfig, load}
use fraud_detection_scoring.HttpApi.{Request, malformed}
use fraud_detection_scoring.HttpApi.Router.{business, readiness, find_route, serve}
use fraud_detection_scoring.HttpApi.Traced.{final_status}
use fraud_detection_scoring.GrpcApi.{serve_rpc}
use fraud_detection_scoring.Server.{
  Platform, Running, wire, build_service, log_to_outbox, pick_validator, build_publisher, start,
}
use fraud_detection_scoring.Server.Shutdown
use fraud_detection_scoring.Server.Shutdown.{
  Delays, Event, Lifecycle, http, grpc, tick, arrives, answered, signalled, woke, close_called,
  gracefully_closed, forced, all_closed, started, transport, is_not_started, run, step,
}
use fraud_detection_scoring.Server.Drained.{unready_since, deadline_of, run-drains}
use fraud_detection_scoring.Server.Steps.{count_own, steps_left}
use fraud_detection_scoring.Server.Finished.{is_resting, due, CanStep, shutdown-terminates}
use fraud_detection_scoring.Server.Startup.{
  is_err, LacksSecret, LacksQueue, start-refuses_iff, start-secures,
}
use fraud_detection_scoring.Tests.Edges as Edges
use fraud_detection_scoring.Tests.Settings.{parsers, env}
use fraud_detection_scoring.Tests.Tokens.{toy}
use fraud_detection_scoring.Scorer.FanIn as FanIn
use fraud_detection_scoring.Scorer.FanIn.Stages.{production}
use fraud_detection_scoring.Events.{log_publisher}
use fraud_detection_scoring.Scorer.{
  decide, totals, is_uncovered, add_signal, apply_thresholds, aggregate_score,
}
use fraud_detection_scoring.Scorer.Pipeline.{score_observed}
use fraud_detection_scoring.Service.{service_score}
use fraud_detection_scoring.Tests.Publishing.{ctx, at}
use fraud_detection_scoring.Tests.Samples.{app, identity, txn, bureau, on_time}
use fraud_detection_scoring.Tests.Vendors.{fuse}

abbrev delays : Delays
delays = record { drain_delay = pos 2; shutdown_timeout = pos 15 }

-- A request is stuck on each transport; the one by gRPC is answered in time.
abbrev schedule : List Event
schedule =
    arrives http
    ∷ arrives grpc
    ∷ signalled
    ∷ tick 2
    ∷ woke
    ∷ close_called http
    ∷ close_called grpc
    ∷ answered grpc
    ∷ tick 15
    ∷ gracefully_closed grpc
    ∷ forced http
    ∷ []

abbrev cut : Lifecycle
cut = record {
  phase = Shutdown.waiting (pos 0) (pos 17);
  ready = false;
  errors = 0;
  http_server = record { accepting = false; in_flight = 0; closer = Shutdown.closed; dropped = 1 };
  grpc_server = record { accepting = false; in_flight = 0; closer = Shutdown.closed; dropped = 0 };
  clock = pos 17;
}

ran : run delays schedule (started (pos 0)) ≡ some cut
unfolding step ◌+ℤ◌
ran = refl

abbrev probe_request : Request
probe_request = record Edges.anonymous { method = "GET"; path = "/readyz" }

probed : find_route (record Edges.deps { probe = some false }) probe_request ≡ readiness
unfolding find_route
probed = refl

run-drains_example :
    ((is_not_started (transport cut http).closer ≡ true)
      ⊎ ((since : ℤ) × (unready_since cut.phase ≡ some since)
          × (since +ℤ delays.drain_delay ≤ℤ cut.clock)
          × (final_status
                (serve (record Edges.deps { probe = some false }) Edges.at probe_request 0).1.writer
              ≡ 503)))
    × (((transport cut http).dropped ≡ 0)
        ⊎ ((deadline : ℤ) × (deadline_of cut.phase ≡ some deadline) × (deadline ≤ℤ cut.clock)))
run-drains_example =
    run-drains delays (pos 0) schedule cut ran http (record Edges.deps { probe = some false })
      Edges.at probe_request 0 refl probed

shutdown-terminates_example :
    (count_own schedule + steps_left cut ≤ 7)
    × ((is_resting cut.phase ≡ true)
        ⊎ ((at : ℤ) × (due delays cut.phase ≡ some at) × (ltb_ℤ cut.clock at ≡ true))
        ⊎ CanStep delays cut)
shutdown-terminates_example = shutdown-terminates delays (pos 0) schedule cut ran

-- The variables that a deployment sets, with a secret that is one text.
abbrev cfg : AppConfig Millionths
cfg = record (load parsers env) { auth_enabled = true; jwt_secret = "s3cret" }

abbrev platform : Platform Millionths Bool (Unit {0}) (List String) ℕ
platform = record {
  jose = toy;
  bytes = λ s. [];
  codec = record { marshal = λ ev. ok ev.event_id; unmarshal = λ body. err (message "unknown") };
  digest = record { marshal = λ fields. some []; sha256_hex = λ bytes. "e3b0c442" };
  encode = λ doc. ok "{}";
  sum32a = λ s. 0;
  tie = true;
  new_circuit_breaker = λ st. fuse;
  env = λ key. none;
  aws = ok (λ at url body q. (none, q ++ body ∷ []));
  answers = λ g app. ok bureau;
  naive_answers = λ v app. ok bureau;
  schedule = λ app. on_time;
  call_scorer = λ sc. Edges.port;
  call_naive = λ sc. Edges.port;
  call_service = λ s. Edges.port;
  decode = λ body. malformed "unexpected end";
  marshals = λ r. true;
  unmatched = λ r. (404, "404 page not found");
}

abbrev server : Running Millionths (List String) ℕ
server = wire platform cfg (build_service platform cfg log_to_outbox) (some (hs256_validate toy []))

began : start platform cfg ≡ ok server
unfolding start build_publisher pick_validator load
began = refl

start-refuses_iff_example :
    (is_err (start platform cfg) ≡ true) ↔ (LacksSecret platform cfg ⊎ LacksQueue platform cfg)
start-refuses_iff_example = start-refuses_iff platform cfg

routed : find_route (server.router true) Edges.request ≡ business Edges.port
unfolding find_route
routed = refl

rejected :
    hs256_validate toy [] Edges.at.now (bearer_token Edges.request.authorization)
    ≡ err (sentinel invalid_token)
unfolding hs256_validate bearer_token
rejected = refl

start-secures_example :
    let x = (serve (server.router true) Edges.at Edges.request 0).1 in
    (cfg.jwt_secret ≢ "")
    × (final_status x.writer ≡ 401)
    × (x.world ≡ 0)
    × ((serve_rpc server.scorer server.auth Edges.at "Score" Edges.md
          (some Edges.message)
          0).1.world
        ≡ 0)
start-secures_example =
    start-secures platform cfg server true Edges.at Edges.request "Score" Edges.md Edges.message 0
      Edges.port (sentinel invalid_token) began refl routed Edges.id_in_both Edges.token_in_both
      rejected

-- The service that was built scores over the vendors, and its event goes to the log.
decided :
    service_score server.service ctx at app (record { lines = []; queue = [] })
    ≡ some (
      decide cfg.scorer (txn ∷ identity ∷ bureau ∷ []),
      none,
      record {
        lines = record { event_id = "req-1"; request_id = "req-1"; decision = "DECLINE" } ∷ [];
        queue = [];
      },
    )
unfolding service_score score_observed FanIn.run FanIn.start production load build_service
    log_publisher decide totals is_uncovered add_signal apply_thresholds aggregate_score ◌*ℤ◌ ◌+ℤ◌
decided = refl
