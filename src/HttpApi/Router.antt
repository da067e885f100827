-- ===== src/HttpApi/Router.antt =====
-- internal/httpapi/middleware.go and router.go: the decorators, the routes and the whole edge.
use fraud_detection_scoring.Prelude.{
  ℕ, String, Bool, true, false, ◌||◌, Option, none, some, List, [], ◌∷◌, ◌++◌, str_eq,
  if◌then◌else◌,
}
use fraud_detection_scoring.Errors.{Result, ok, err}
use fraud_detection_scoring.Domain.{ScoreResult}
use fraud_detection_scoring.Context.{
  Claims, Context, background, with_request_id, with_claims, request_id_of,
}
use fraud_detection_scoring.Auth.{Validator, bearer_token}
use fraud_detection_scoring.HttpApi.{
  Request, plain, Writer, Exchange, Arrival, Handler, Port, Decoded, set_header, write_header,
  write_body, on_writer, refuse, score_handler, liveness_handler, readiness_handler,
}

-- A handler around a handler.
abbrev pub Middleware : Type 0 → Type 0 → Type 0
Middleware F W = Handler F W → Handler F W

-- The first one listed is outermost.
abbrev pub chain : {F W : Type 0} → Handler F W → List (Middleware F W) → Handler F W
chain h [] = h
chain h (m ∷ ms) = m (chain h ms)

abbrev pub header_name : String
header_name = "X-Request-ID"

-- The inbound id, or a generated one.
unfoldable pub inbound_id : Arrival → Request → String
inbound_id at r = if str_eq r.request_id "" then at.generated else r.request_id

-- A new `statusRecorder` around the response.
abbrev pub start_recording : {F : Type 0} → Writer F → Writer F
start_recording w = record w { recorded = 200; written = false }

module _ {F W : Type 0} (at : Arrival) where
  unfoldable pub request_id_mw : Middleware F W
  unfolding inbound_id set_header
  request_id_mw next ctx r x =
      let id = inbound_id at r in
      next (with_request_id ctx id) r (on_writer (set_header header_name id) x)

module _ {F W : Type 0} where
  -- A panic passes by the log line.
  unfoldable pub log_access : Context F → Request → Bool × Exchange F W → Bool × Exchange F W
  log_access ctx r (true, y) = (true, y)
  log_access ctx r (false, y) = (
    false,
    record y {
      access =
          y.access
          ++ (record {
            request_id = request_id_of ctx;
            method = r.method;
            path = r.path;
            status = y.writer.recorded;
          }
              ∷ []);
    },
  )

  unfoldable pub logging_mw : Middleware F W
  unfolding log_access
  logging_mw next ctx r x = log_access ctx r (next ctx r (on_writer start_recording x))

  unfoldable pub recover : Bool × Exchange F W → Bool × Exchange F W
  recover (true, y) = refuse 500 "internal_error" "internal server error" y
  recover (false, y) = (false, y)

  unfoldable pub recover_mw : Middleware F W
  unfolding recover
  recover_mw next ctx r x = recover (next ctx r x)

  unfoldable pub authorize :
      Handler F W → Context F → Request → Exchange F W → Result (Claims F) → Bool × Exchange F W
  authorize next ctx r x (err e) = refuse 401 "unauthorized" "invalid or missing credentials" x
  authorize next ctx r x (ok claims) = next (with_claims ctx claims) r x

  -- A nil validator turns authentication off.
  unfoldable pub auth_mw : Arrival → Option (Validator F) → Middleware F W
  unfolding authorize bearer_token
  auth_mw at none next = next
  auth_mw at (some v) next =
      λ ctx r x. authorize next ctx r x (v at.now (bearer_token r.authorization))

-- `RouterDeps` with the parameters of the edge; the scorers of `Demo` may be absent.
pub record RouterDeps (F W : Type 0) : Type 0 where
  pub scorer : Port F W
  pub naive : Option (Port F W)
  pub guarded : Option (Port F W)
  pub auth : Option (Validator F)
  pub probe : Option Bool
  pub decode : String → Decoded F
  pub marshals : ScoreResult F → Bool
  pub unmatched : Request → ℕ × String

pub data Route (F W : Type 0) : Type 0 where
  business : Port F W → Route F W
  liveness : Route F W
  readiness : Route F W
  other : Route F W

-- A nil probe is always ready.
abbrev pub is_ready : Option Bool → Bool
is_ready none = true
is_ready (some b) = b

abbrev pub to_route : {F W : Type 0} → Option (Port F W) → Route F W
to_route none = other
to_route (some port) = business port

module _ {F W : Type 0} (d : RouterDeps F W) where
  abbrev post_route : String → Route F W
  post_route path =
      if str_eq path "/v1/score"
      then business d.scorer
      else if str_eq path "/demo/naive/score"
      then to_route d.naive
      else if str_eq path "/demo/guarded/score"
      then to_route d.guarded
      else other

  abbrev get_route : String → Route F W
  get_route path =
      if str_eq path "/healthz"
      then liveness
      else if str_eq path "/readyz"
      then readiness
      else other

  -- The patterns; one for GET also takes HEAD.
  unfoldable pub find_route : Request → Route F W
  find_route r =
      if str_eq r.method "POST"
      then post_route r.path
      else if str_eq r.method "GET" || str_eq r.method "HEAD"
      then get_route r.path
      else other

  abbrev pub not_matched : Request → Exchange F W → Bool × Exchange F W
  not_matched r x =
      let (code, said) = d.unmatched r in
      (false, on_writer (λ w. write_body (plain said) (write_header code w)) x)

  unfoldable pub serve_route : Arrival → Route F W → Handler F W
  unfolding auth_mw score_handler liveness_handler readiness_handler
  serve_route at (business port) = auth_mw at d.auth (score_handler d.marshals at d.decode port)
  serve_route at liveness = liveness_handler
  serve_route at readiness = readiness_handler (is_ready d.probe)
  serve_route at other = λ ctx r x. not_matched r x

  unfoldable pub mux : Arrival → Handler F W
  unfolding find_route serve_route
  mux at ctx r x = serve_route at (find_route r) ctx r x

  -- `NewRouter`
  unfoldable pub router : Arrival → Handler F W
  unfolding request_id_mw logging_mw recover_mw mux
  router at = chain (mux at) (request_id_mw at ∷ logging_mw ∷ recover_mw ∷ [])

  -- A response on which nothing was written.
  abbrev pub fresh : W → Exchange F W
  fresh world = record {
    writer = record { headers = []; status = none; bodies = []; recorded = 200; written = false };
    access = [];
    world = world;
  }

  -- What the server does with one request.
  unfoldable pub serve : Arrival → Request → W → Bool × Exchange F W
  unfolding router
  serve at r world = router at background r (fresh world)
