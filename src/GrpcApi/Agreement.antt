-- ===== src/GrpcApi/Agreement.antt =====
-- The two transports do the same with the same request.
use fraud_detection_scoring.Prelude.{
  String, Option, none, some, [], ◌≡◌, refl, sym, ◌∙◌, ap, subst, arith, false, ◌⊎◌, inl, inr,
  str_eq, eq_iff, Bool-cases,
}
use fraud_detection_scoring.Errors.{Result, ok, err}
use fraud_detection_scoring.Domain.{
  Application, Decision, decision_approve, decision_decline, decision_manual_review,
}
use fraud_detection_scoring.GrpcApi.Named.{IsDecision, decision_of}
use fraud_detection_scoring.Context.{Claims, Context, background, with_request_id}
use fraud_detection_scoring.Auth.{Validator, bearer_token}
use fraud_detection_scoring.HttpApi.{
  Request, Arrival, Port, Call, returned, panicked, decoded, validate,
}
use fraud_detection_scoring.HttpApi.Router.{RouterDeps, business, find_route, inbound_id, serve}
use fraud_detection_scoring.HttpApi.Traced.{final_status}
use fraud_detection_scoring.HttpApi.Guarded.{verdict, caller_context, answer, serve-scores}
use fraud_detection_scoring.GrpcApi.{
  PbApplication, PbDecision, unspecified, ScoreResponse, to_proto_decision, Reply, response,
  crashed, Rpc, Metadata, UnaryHandler, metadata_value, to_domain, to_response, respond, score_rpc,
  authorize_rpc, auth_interceptor, log_rpc, logging_interceptor, request_id_interceptor, serve_rpc,
}

-- The reply for what a scorer did.
abbrev pub reply_of : {F : Type 0} → Call F → Reply F
reply_of (returned r) = response (to_response r)
reply_of panicked = crashed

-- What a caller over gRPC sends is what one over HTTP sends, with no signals of the vendors.
pub record SameApplication {F : Type 0} (a : PbApplication F) (app : Application F) : Type 0 where
  pub applicant_id : a.applicant_id ≡ app.applicant_id
  pub product : a.product ≡ app.product
  pub full_name : a.full_name ≡ app.full_name
  pub email : a.email ≡ app.email
  pub country : a.country ≡ app.country
  pub age_years : a.age_years ≡ app.age_years
  pub requested_amount : a.requested_amount ≡ app.requested_amount
  pub account_age_days : a.account_age_days ≡ app.account_age_days
  pub recent_txn_count : a.recent_txn_count ≡ app.recent_txn_count
  pub prior_signals : [] ≡ app.prior_signals

to_domain-eq :
    {F : Type 0} (a : PbApplication F) (app : Application F)
    → SameApplication a app
    → to_domain a ≡ app
unfolding to_domain
to_domain-eq a app s = λ i. record {
  applicant_id = s.applicant_id i;
  product = s.product i;
  full_name = s.full_name i;
  email = s.email i;
  country = s.country i;
  age_years = s.age_years i;
  requested_amount = s.requested_amount i;
  account_age_days = s.account_age_days i;
  recent_txn_count = s.recent_txn_count i;
  prior_signals = s.prior_signals i;
}

-- The enum names the decision, or the decision is none that it could name.
abbrev pub Names : PbDecision → Decision → Type 0
Names p d = (decision_of p ≡ d) ⊎ ((p ≡ unspecified) × (IsDecision d → ⊥))

-- A reply over gRPC for what a scorer did.
abbrev pub IsReply : {F : Type 0} → Reply F → Call F → Type 0
IsReply {F} reply (returned r) =
    (resp : ScoreResponse F) × (reply ≡ response resp)
    × (resp.score ≡ r.score)
    × Names resp.decision r.decision
    × (resp.signals_used ≡ r.signals_used)
    × (resp.logic_version ≡ r.logic_version)
IsReply reply panicked = reply ≡ crashed

not_named :
    (d : Decision)
    → str_eq d decision_approve ≡ false
    → str_eq d decision_decline ≡ false
    → str_eq d decision_manual_review ≡ false
    → IsDecision d
    → ⊥
not_named d e f g (inl h) = ground (arith, eq_iff d decision_approve)
not_named d e f g (inr (inl h)) = ground (arith, eq_iff d decision_decline)
not_named d e f g (inr (inr h)) = ground (arith, eq_iff d decision_manual_review)

to_proto_decision-Names : (d : Decision) → Names (to_proto_decision d) d
unfolding to_proto_decision
to_proto_decision-Names d = elim (Bool-cases (str_eq d decision_approve)) [
  | inl e ↦ let same = (eq_iff d decision_approve).0 e in rw same (inl refl)
  | inr e ↦ elim (Bool-cases (str_eq d decision_decline)) [
    | inl f ↦ let same = (eq_iff d decision_decline).0 f in rw same (inl refl)
    | inr f ↦ elim (Bool-cases (str_eq d decision_manual_review)) [
      | inl g ↦ let same = (eq_iff d decision_manual_review).0 g in rw same (inl refl)
      | inr g ↦ rw (e, f, g) (inr (refl, not_named d e f g))
    ]
  ]
]

reply_of-IsReply : {F : Type 0} (call : Call F) → IsReply (reply_of call) call
unfolding to_response
reply_of-IsReply (returned r) =
    (to_response r, refl, refl, to_proto_decision-Names r.decision, refl, refl)
reply_of-IsReply panicked = refl

module _ {F W : Type 0} (at : Arrival) (md : Metadata) (next : UnaryHandler F W) (id : String)
    (req : Option (PbApplication F)) (x : Rpc W) where
  authorize_rpc-verdict :
      (v : Result (Claims F)) (claims : Option (Claims F))
      → elim v [ ok c ↦ ok (some c) | err e ↦ err e ] ≡ ok claims
      → authorize_rpc next (with_request_id background id) req x v
        ≡ next (caller_context id claims) req x
  unfolding authorize_rpc
  authorize_rpc-verdict (ok c) none h = absurd (ground arith)
  authorize_rpc-verdict (ok c) (some k) h = let same : c ≡ k = ground arith in rw same refl
  authorize_rpc-verdict (err e) claims h = absurd (ground arith)

  pub auth_interceptor-verdict :
      (r : Request) (v : Option (Validator F)) (claims : Option (Claims F))
      → r.authorization ≡ metadata_value md "authorization"
      → verdict v at r ≡ ok claims
      → auth_interceptor at md v next (with_request_id background id) req x
        ≡ next (caller_context id claims) req x
  unfolding auth_interceptor
  auth_interceptor-verdict r none none same h = refl
  auth_interceptor-verdict r none (some c) same h = absurd (ground arith)
  auth_interceptor-verdict r (some v) claims same h =
      rw (sym same) (authorize_rpc-verdict (v at.now (bearer_token r.authorization)) claims h)

module _ {F W : Type 0} (port : Port F W) (a : PbApplication F) where
  score_rpc-valid :
      (ctx : Context F) (x : Rpc W)
      → validate (to_domain a) ≡ none
      → score_rpc port ctx (some a) x ≡ respond x (port ctx (to_domain a) x.world)
  unfolding score_rpc validate to_domain
  score_rpc-valid ctx x h = ground arith

  pub score_rpc-invalid :
      (ctx : Context F) (x : Rpc W) (m : String)
      → validate (to_domain a) ≡ some m
      → (score_rpc port ctx (some a) x).1 ≡ x
  unfolding score_rpc validate to_domain
  score_rpc-invalid ctx x m h = ground arith

logged-respond :
    {F W : Type 0} (ctx : Context F) (method : String) (x : Rpc W) (call : Call F) (after : W)
    → ((log_rpc ctx method (respond x (call, after))).0 ≡ reply_of call)
      × ((log_rpc ctx method (respond x (call, after))).1.world ≡ after)
unfolding respond log_rpc
logged-respond ctx method x (returned r) after = (refl, refl)
logged-respond ctx method x panicked after = (refl, refl)

module _ {F W : Type 0} (port : Port F W) (v : Option (Validator F)) (at : Arrival)
    (method : String) (md : Metadata) (a : PbApplication F) (world : W) (r : Request) where
  serve_rpc-scores :
      (claims : Option (Claims F)) (call : Call F) (after : W)
      → r.request_id ≡ metadata_value md "X-Request-ID"
      → r.authorization ≡ metadata_value md "authorization"
      → verdict v at r ≡ ok claims
      → validate (to_domain a) ≡ none
      → port (caller_context (inbound_id at r) claims) (to_domain a) world ≡ (call, after)
      → ((serve_rpc port v at method md (some a) world).0 ≡ reply_of call)
        × ((serve_rpc port v at method md (some a) world).1.world ≡ after)
  unfolding serve_rpc request_id_interceptor logging_interceptor inbound_id
  serve_rpc-scores claims call after same_id same_auth said valid called =
      let id = inbound_id at r in
      let x : Rpc W = record { access = []; world = world } in
      rw
        (
          sym same_id,
          auth_interceptor-verdict at md (score_rpc port) id (some a) x r v claims same_auth said,
          score_rpc-valid port a (caller_context id claims) x valid,
          called,
        )
        (logged-respond (with_request_id background id) method x call after)

module _ {F W : Type 0} (d : RouterDeps F W) (port : Port F W) (at : Arrival) (method : String)
    (md : Metadata) (a : PbApplication F) (world : W) (r : Request) where
  agree_on :
      (claims : Option (Claims F)) (call : Call F) (after : W)
      → r.request_id ≡ metadata_value md "X-Request-ID"
      → r.authorization ≡ metadata_value md "authorization"
      → find_route d r ≡ business port
      → verdict d.auth at r ≡ ok claims
      → d.decode r.body ≡ decoded (to_domain a)
      → validate (to_domain a) ≡ none
      → port (caller_context (inbound_id at r) claims) (to_domain a) world ≡ (call, after)
      → let (_, x) = serve d at r world in
        let (reply, y) = serve_rpc port d.auth at method md (some a) world in
        (x.world ≡ y.world)
        × (x.writer.bodies ≡ (answer d.marshals call).1)
        × (final_status x.writer ≡ (answer d.marshals call).0)
        × (reply ≡ reply_of call)
  agree_on claims call after same_id same_auth route said parsed valid called =
      let (status, bodies, there) =
        serve-scores d at r world port claims (to_domain a) call after route said parsed valid
          called in
      let (reply, here) =
        serve_rpc-scores port d.auth at method md a world r claims call after same_id same_auth said
          valid called in
      (there ∙ sym here, bodies, status, reply)

  -- A valid request that comes by HTTP to a scoring route, or by gRPC to a server with the route's
  -- scorer, with the same id, credentials and application, field by field, and passes the validator:
  -- both leave the world that the scorer's call leaves, and both callers get the scorer's result, as
  -- JSON with status 200 if it can be marshalled, and as a proto response with its score, signals and
  -- version, and the enum that names its decision, left unspecified only if that is none of the three;
  -- if the scorer panics, the HTTP caller gets a 500 and the gRPC server crashes.
  pub transports_agree :
      (app : Application F) (claims : Option (Claims F)) (call : Call F) (after : W)
      → r.request_id ≡ metadata_value md "X-Request-ID"
      → r.authorization ≡ metadata_value md "authorization"
      → find_route d r ≡ business port
      → verdict d.auth at r ≡ ok claims
      → d.decode r.body ≡ decoded app
      → SameApplication a app
      → validate app ≡ none
      → port (caller_context (inbound_id at r) claims) app world ≡ (call, after)
      → let (_, x) = serve d at r world in
        let (reply, y) = serve_rpc port d.auth at method md (some a) world in
        (x.world ≡ y.world)
        × (x.writer.bodies ≡ (answer d.marshals call).1)
        × (final_status x.writer ≡ (answer d.marshals call).0)
        × IsReply reply call
  transports_agree app claims call after same_id same_auth route said parsed alike valid called =
      let same = to_domain-eq a app alike in
      let ctx = caller_context (inbound_id at r) claims in
      let (worlds, bodies, status, reply) =
        agree_on claims call after same_id same_auth route said (parsed ∙ ap decoded (sym same))
          (ap validate same ∙ valid) (ap (λ (x : Application F). port ctx x world) same ∙ called) in
      (
        worlds,
        bodies,
        status,
        subst (λ (x : Reply F). IsReply x call) (sym reply) (reply_of-IsReply call),
      )
