-- ===== src/GrpcApi.antt =====
-- internal/grpcapi/server.go and interceptors.go: the gRPC edge. The generated messages are the
-- records below, an `int32` is an integer; what `metadata` finds under a key is a function.
pub mod Agreement
pub mod Refusals
pub mod Named
pub mod Logged
use fraud_detection_scoring.Prelude.{
  String, Bool, true, false, ◌||◌, Option, none, some, List, [], ◌∷◌, ◌++◌, ℤ, str_eq,
  if◌then◌else◌,
}
use fraud_detection_scoring.Errors.{Result, ok, err}
use fraud_detection_scoring.Domain.{
  Decision, decision_approve, decision_decline, decision_manual_review, Application, ScoreResult,
}
use fraud_detection_scoring.Context.{
  Claims, Context, background, with_request_id, with_claims, request_id_of,
}
use fraud_detection_scoring.Auth.{Validator, bearer_token}
use fraud_detection_scoring.HttpApi.{Arrival, Port, Call, returned, panicked}

pub record PbApplication (F : Type 0) : Type 0 where
  pub applicant_id : String
  pub product : String
  pub full_name : String
  pub email : String
  pub country : String
  pub age_years : ℤ
  pub requested_amount : F
  pub account_age_days : ℤ
  pub recent_txn_count : ℤ

pub data PbDecision : Type 0 where
  unspecified approve decline manual_review : PbDecision

pub record ScoreResponse (F : Type 0) : Type 0 where
  pub score : F
  pub decision : PbDecision
  pub signals_used : List String
  pub logic_version : String

pub data Code : Type 0 where
  ok_code invalid_argument unauthenticated : Code

-- `crashed`: the handler panicked, and no interceptor recovers.
pub data Reply (F : Type 0) : Type 0 where
  response : ScoreResponse F → Reply F
  failed : Code → String → Reply F
  crashed : Reply F

pub record RpcLine : Type 0 where
  pub request_id : String
  pub method : String
  pub code : Code

pub record Rpc (W : Type 0) : Type 0 where
  pub access : List RpcLine
  pub world : W

-- `metadata.FromIncomingContext`, with `Get`.
abbrev pub Metadata : Type 0
Metadata = Option (String → List String)

-- A nil request and one without an application are both `none`.
abbrev pub UnaryHandler : Type 0 → Type 0 → Type 0
UnaryHandler F W = Context F → Option (PbApplication F) → Rpc W → Reply F × Rpc W

abbrev first : List String → String
first [] = ""
first (v ∷ vs) = v

unfoldable pub metadata_value : Metadata → String → String
metadata_value none key = ""
metadata_value (some get) key = first (get key)

unfoldable pub to_proto_decision : Decision → PbDecision
to_proto_decision d =
    if str_eq d decision_approve
    then approve
    else if str_eq d decision_decline
    then decline
    else if str_eq d decision_manual_review
    then manual_review
    else unspecified

module _ {F : Type 0} where
  unfoldable pub to_domain : PbApplication F → Application F
  to_domain a = record {
    applicant_id = a.applicant_id;
    product = a.product;
    full_name = a.full_name;
    email = a.email;
    country = a.country;
    age_years = a.age_years;
    requested_amount = a.requested_amount;
    account_age_days = a.account_age_days;
    recent_txn_count = a.recent_txn_count;
    prior_signals = [];
  }

  unfoldable pub to_response : ScoreResult F → ScoreResponse F
  unfolding to_proto_decision
  to_response r = record {
    score = r.score;
    decision = to_proto_decision r.decision;
    signals_used = r.signals_used;
    logic_version = r.logic_version;
  }

module _ {F W : Type 0} where
  unfoldable pub respond : Rpc W → Call F × W → Reply F × Rpc W
  unfolding to_response
  respond x (returned r, w) = (response (to_response r), record x { world = w })
  respond x (panicked, w) = (crashed, record x { world = w })

  -- `Server.Score`
  unfoldable pub score_rpc : Port F W → UnaryHandler F W
  unfolding respond to_domain
  score_rpc port ctx none x = (failed invalid_argument "application is required", x)
  score_rpc port ctx (some a) x =
      if str_eq a.applicant_id "" || str_eq a.product ""
      then (failed invalid_argument "applicant_id and product are required", x)
      else respond x (port ctx (to_domain a) x.world)

  unfoldable pub authorize_rpc :
      UnaryHandler F W
      → Context F
      → Option (PbApplication F)
      → Rpc W
      → Result (Claims F)
      → Reply F × Rpc W
  authorize_rpc next ctx req x (err e) =
      (failed unauthenticated "invalid or missing credentials", x)
  authorize_rpc next ctx req x (ok claims) = next (with_claims ctx claims) req x

  unfoldable pub auth_interceptor :
      Arrival → Metadata → Option (Validator F) → UnaryHandler F W → UnaryHandler F W
  unfolding authorize_rpc bearer_token metadata_value
  auth_interceptor at md none next = next
  auth_interceptor at md (some v) next = λ ctx req x.
      authorize_rpc next ctx req x (v at.now (bearer_token (metadata_value md "authorization")))

  abbrev line_after : Context F → String → Code → Rpc W → Rpc W
  line_after ctx method code x = record x {
    access =
        x.access ++ (record { request_id = request_id_of ctx; method = method; code = code } ∷ []);
  }

  -- A panic passes by the log line.
  unfoldable pub log_rpc : Context F → String → Reply F × Rpc W → Reply F × Rpc W
  log_rpc ctx method (response r, x) = (response r, line_after ctx method ok_code x)
  log_rpc ctx method (failed code m, x) = (failed code m, line_after ctx method code x)
  log_rpc ctx method (crashed, x) = (crashed, x)

  unfoldable pub logging_interceptor : String → UnaryHandler F W → UnaryHandler F W
  unfolding log_rpc
  logging_interceptor method next ctx req x = log_rpc ctx method (next ctx req x)

  unfoldable pub request_id_interceptor : Arrival → Metadata → UnaryHandler F W → UnaryHandler F W
  unfolding metadata_value
  request_id_interceptor at md next ctx req x =
      let id = metadata_value md "X-Request-ID" in
      next (with_request_id ctx (if str_eq id "" then at.generated else id)) req x

  -- `ChainUnary` around the server; the method is that of `info.FullMethod`.
  unfoldable pub serve_rpc :
      Port F W
      → Option (Validator F)
      → Arrival
      → String
      → Metadata
      → Option (PbApplication F)
      → W
      → Reply F × Rpc W
  unfolding request_id_interceptor logging_interceptor auth_interceptor score_rpc
  serve_rpc port v at method md req world =
      request_id_interceptor at md
        (logging_interceptor method (auth_interceptor at md v (score_rpc port))) background req
        (record { access = []; world = world })
