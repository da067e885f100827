-- ===== src/Tests/Edges.antt =====
-- The two edges with a scorer that counts its calls.
use fraud_detection_scoring.Prelude.{
  ℕ, ◌+◌, true, none, some, [], ◌∷◌, ◌≡◌, refl, ◌⊎◌, inr, pos, str_eq, if◌then◌else◌,
}
use fraud_detection_scoring.Errors.{ok, err, sentinel, no_token}
use fraud_detection_scoring.Float.{Millionths, millionths_float}
use fraud_detection_scoring.Domain.{ScoreResult}
use fraud_detection_scoring.Context.{Claims, text}
use fraud_detection_scoring.Auth.{allow_all, bearer_token}
use fraud_detection_scoring.Scorer.{decide}
use fraud_detection_scoring.HttpApi.{
  Request, Arrival, Port, returned, decoded, malformed, result, validate,
}
use fraud_detection_scoring.HttpApi.Router.{RouterDeps, business, find_route, inbound_id, serve}
use fraud_detection_scoring.HttpApi.Traced.{final_status}
use fraud_detection_scoring.HttpApi.Logged.{IsLogged, serve-IsLogged}
use fraud_detection_scoring.HttpApi.Guarded.{verdict}
use fraud_detection_scoring.GrpcApi.{PbApplication, Metadata, metadata_value, serve_rpc, to_domain}
use fraud_detection_scoring.GrpcApi.Agreement.{SameApplication, IsReply, transports_agree}
use fraud_detection_scoring.GrpcApi.Logged.{lines_for, rpc_id, serve_rpc-lines}
use fraud_detection_scoring.GrpcApi.Refusals.{IsRefused, transports_refuse}
use fraud_detection_scoring.Tests.Samples.{cfg}

abbrev scored : ScoreResult Millionths
scored = decide cfg []

-- It counts its calls.
abbrev pub port : Port Millionths ℕ
port ctx app calls = (returned scored, calls + 1)

abbrev pub message : PbApplication Millionths
message = record {
  applicant_id = "acct-123";
  product = "checking";
  full_name = "";
  email = "";
  country = "";
  age_years = pos 0;
  requested_amount = pos 5000000000;
  account_age_days = pos 0;
  recent_txn_count = pos 0;
}

abbrev nameless : PbApplication Millionths
nameless = record message { applicant_id = "" }

abbrev pub deps : RouterDeps Millionths ℕ
deps = record {
  scorer = port;
  naive = none;
  guarded = none;
  auth = some allow_all;
  probe = none;
  decode = λ body.
      if str_eq body "app"
      then decoded (to_domain message)
      else if str_eq body "nameless"
      then decoded (to_domain nameless)
      else malformed "unexpected end";
  marshals = λ r. true;
  unmatched = λ r. (404, "404 page not found");
}

abbrev pub request : Request
request = record {
  method = "POST";
  path = "/v1/score";
  request_id = "req-1";
  authorization = "Bearer svc";
  body = "app";
}

abbrev pub anonymous : Request
anonymous = record request { authorization = "" }

abbrev lacking : Request
lacking = record request { body = "nameless" }

abbrev pub at : Arrival
at = record { generated = "fresh"; now = pos 0; latency = "12" }

abbrev claims : Claims Millionths
claims = record { subject = "svc"; raw = ("sub", text "svc") ∷ [] }

abbrev pub md : Metadata
md = some (λ key.
    if str_eq key "X-Request-ID"
    then "req-1" ∷ []
    else if str_eq key "authorization"
    then "Bearer svc" ∷ []
    else [])

routed : find_route deps request ≡ business port
unfolding find_route
routed = refl

routed_anonymous : find_route deps anonymous ≡ business port
unfolding find_route
routed_anonymous = refl

routed_lacking : find_route deps lacking ≡ business port
unfolding find_route
routed_lacking = refl

trusted : verdict deps.auth at request ≡ ok (some claims)
unfolding bearer_token
trusted = refl

untrusted :
    allow_all {F = Millionths} at.now (bearer_token anonymous.authorization)
    ≡ err (sentinel no_token)
unfolding bearer_token
untrusted = refl

complete : validate (to_domain message) ≡ none
unfolding validate to_domain
complete = refl

incomplete : validate (to_domain nameless) ≡ some "applicant_id is required"
unfolding validate to_domain
incomplete = refl

pub id_in_both : request.request_id ≡ metadata_value md "X-Request-ID"
unfolding metadata_value
id_in_both = refl

pub token_in_both : request.authorization ≡ metadata_value md "authorization"
unfolding metadata_value
token_in_both = refl

serve-IsLogged_example : IsLogged (inbound_id at request) request (serve deps at request 0)
serve-IsLogged_example = serve-IsLogged deps at request 0

alike : SameApplication message (to_domain message)
unfolding to_domain
alike = record {
  applicant_id = refl;
  product = refl;
  full_name = refl;
  email = refl;
  country = refl;
  age_years = refl;
  requested_amount = refl;
  account_age_days = refl;
  recent_txn_count = refl;
  prior_signals = refl;
}

transports_agree_example :
    let (_, x) = serve deps at request 0 in
    let (reply, y) = serve_rpc port deps.auth at "Score" md (some message) 0 in
    (x.world ≡ y.world)
    × (x.writer.bodies ≡ result scored ∷ [])
    × (final_status x.writer ≡ 200)
    × IsReply reply (returned scored)
transports_agree_example =
    transports_agree deps port at "Score" md message 0 request (to_domain message) (some claims)
      (returned scored) 1 id_in_both token_in_both routed trusted refl alike complete refl

refused : IsRefused deps.auth at lacking nameless
refused = inr (some claims, trusted, ("applicant_id is required", incomplete))

transports_refuse_example :
    ((final_status (serve deps at lacking 0).1.writer ≡ 401)
      ⊎ (final_status (serve deps at lacking 0).1.writer ≡ 400))
    × ((serve deps at lacking 0).1.world ≡ 0)
    × ((serve_rpc port deps.auth at "Score" md (some nameless) 0).1.world ≡ 0)
transports_refuse_example =
    transports_refuse deps port at "Score" md nameless 0 lacking id_in_both token_in_both
      routed_lacking refl refused

serve_rpc-lines_example :
    (serve_rpc port deps.auth at "Score" md (some message) 0).1.access
    ≡ lines_for (rpc_id at md) "Score" (serve_rpc port deps.auth at "Score" md (some message) 0).0
serve_rpc-lines_example = serve_rpc-lines port deps.auth at "Score" md (some message) 0
