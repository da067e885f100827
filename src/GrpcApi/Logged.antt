-- ===== src/GrpcApi/Logged.antt =====
-- The interceptors leave one line in the access log.
use fraud_detection_scoring.Prelude.{
  String, ◌||◌, Option, none, some, List, [], ◌∷◌, ◌≡◌, refl, str_eq, inl, inr, Bool-cases,
  if◌then◌else◌,
}
use fraud_detection_scoring.Errors.{Result, ok, err}
use fraud_detection_scoring.Context.{Claims, Context, background, with_request_id, request_id_of}
use fraud_detection_scoring.Auth.{Validator, bearer_token}
use fraud_detection_scoring.HttpApi.{Arrival, Port, Call, returned, panicked}
use fraud_detection_scoring.GrpcApi.{
  PbApplication, ok_code, Reply, response, failed, crashed, RpcLine, Rpc, Metadata, metadata_value,
  to_domain, respond, score_rpc, authorize_rpc, auth_interceptor, log_rpc, logging_interceptor,
  request_id_interceptor, serve_rpc,
}

-- The line for a reply; a crash leaves none.
abbrev pub lines_for : {F : Type 0} → String → String → Reply F → List RpcLine
lines_for id method (response r) = record { request_id = id; method = method; code = ok_code } ∷ []
lines_for id method (failed code m) = record { request_id = id; method = method; code = code } ∷ []
lines_for id method crashed = []

-- The id that the metadata carry, or a fresh one.
abbrev pub rpc_id : Arrival → Metadata → String
rpc_id at md =
    if str_eq (metadata_value md "X-Request-ID") ""
    then at.generated
    else metadata_value md "X-Request-ID"

module _ {F W : Type 0} where
  respond-access : (x : Rpc W) (r : Call F × W) → (respond x r).1.access ≡ x.access
  unfolding respond
  respond-access x (returned r, w) = refl
  respond-access x (panicked, w) = refl

  score_rpc-access :
      (port : Port F W) (ctx : Context F) (req : Option (PbApplication F)) (x : Rpc W)
      → (score_rpc port ctx req x).1.access ≡ x.access
  unfolding score_rpc
  score_rpc-access port ctx none x = refl
  score_rpc-access port ctx (some a) x =
      elim (Bool-cases (str_eq a.applicant_id "" || str_eq a.product "")) [
        | inl lacking ↦ rw lacking refl
        | inr whole ↦ rw whole (respond-access x (port ctx (to_domain a) x.world))
      ]

  authorize_rpc-access :
      (port : Port F W) (ctx : Context F) (req : Option (PbApplication F)) (x : Rpc W)
      (v : Result (Claims F))
      → (authorize_rpc (score_rpc port) ctx req x v).1.access ≡ x.access
  unfolding authorize_rpc
  authorize_rpc-access port ctx req x (err e) = refl
  authorize_rpc-access port ctx req x (ok c) = score_rpc-access port _ req x

  auth_interceptor-access :
      (at : Arrival) (md : Metadata) (port : Port F W) (v : Option (Validator F)) (ctx : Context F)
      (req : Option (PbApplication F)) (x : Rpc W)
      → (auth_interceptor at md v (score_rpc port) ctx req x).1.access ≡ x.access
  unfolding auth_interceptor
  auth_interceptor-access at md port none ctx req x = score_rpc-access port ctx req x
  auth_interceptor-access at md port (some v) ctx req x =
      authorize_rpc-access port ctx req x
        (v at.now (bearer_token (metadata_value md "authorization")))

  log_rpc-lines :
      (ctx : Context F) (method : String) (reply : Reply F) (x : Rpc W)
      → x.access ≡ []
      → (log_rpc ctx method (reply, x)).1.access
        ≡ lines_for (request_id_of ctx) method (log_rpc ctx method (reply, x)).0
  unfolding log_rpc
  log_rpc-lines ctx method (response r) x e = rw e refl
  log_rpc-lines ctx method (failed code m) x e = rw e refl
  log_rpc-lines ctx method crashed x e = e

module _ {F W : Type 0} (port : Port F W) (v : Option (Validator F)) (at : Arrival)
    (method : String) (md : Metadata) where
  -- Whatever the scorer and the validator do: a request over gRPC that is answered leaves one line in the
  -- access log, with the method, the code that the client gets, and the id of the metadata, or a fresh one
  -- if that is missing; a request whose handler panics leaves none.
  pub serve_rpc-lines :
      (req : Option (PbApplication F)) (world : W)
      → (serve_rpc port v at method md req world).1.access
        ≡ lines_for (rpc_id at md) method (serve_rpc port v at method md req world).0
  unfolding serve_rpc request_id_interceptor logging_interceptor
  serve_rpc-lines req world =
      let ctx : Context F = with_request_id background (rpc_id at md) in
      let x : Rpc W = record { access = []; world = world } in
      let (reply, y) = auth_interceptor at md v (score_rpc port) ctx req x in
      log_rpc-lines ctx method reply y (auth_interceptor-access at md port v ctx req x)
