-- ===== src/GrpcApi/Refusals.antt =====
-- The two transports refuse the same requests.
use fraud_detection_scoring.Prelude.{
  String, Option, none, some, [], ◌≡◌, refl, sym, ap, arith, ◌⊎◌, inl, inr,
}
use fraud_detection_scoring.Errors.{Error, ok, err}
use fraud_detection_scoring.Context.{Claims, Context, background, with_request_id}
use fraud_detection_scoring.Auth.{Validator, bearer_token}
use fraud_detection_scoring.HttpApi.{Request, Arrival, Port, decoded, validate}
use fraud_detection_scoring.HttpApi.Router.{RouterDeps, business, find_route, inbound_id, serve}
use fraud_detection_scoring.HttpApi.Traced.{final_status}
use fraud_detection_scoring.HttpApi.Guarded.{
  verdict, caller_context, serve-unauthorized, serve-invalid,
}
use fraud_detection_scoring.GrpcApi.{
  PbApplication, Reply, response, failed, crashed, Rpc, Metadata, UnaryHandler, metadata_value,
  to_domain, score_rpc, authorize_rpc, auth_interceptor, log_rpc, logging_interceptor,
  request_id_interceptor, serve_rpc,
}
use fraud_detection_scoring.GrpcApi.Agreement.{auth_interceptor-verdict, score_rpc-invalid}

world-log_rpc :
    {F W : Type 0} (ctx : Context F) (method : String) (out : Reply F × Rpc W)
    → (log_rpc ctx method out).1.world ≡ out.1.world
unfolding log_rpc
world-log_rpc ctx method (response r, x) = refl
world-log_rpc ctx method (failed code m, x) = refl
world-log_rpc ctx method (crashed, x) = refl

verdict-eq-err :
    {F : Type 0} (v : Option (Validator F)) (at : Arrival) (r : Request) (e : Error)
    → verdict v at r ≡ err e
    → (f : Validator F) × (v ≡ some f) × (f at.now (bearer_token r.authorization) ≡ err e)
verdict-eq-err none at r e h = absurd (ground arith)
verdict-eq-err (some f) at r e h = (f, refl, ground arith)

module _ {F W : Type 0} (at : Arrival) (md : Metadata) (next : UnaryHandler F W) (ctx : Context F)
    (req : Option (PbApplication F)) (x : Rpc W) where
  auth_interceptor-rejected :
      (f : Validator F) (e : Error)
      → f at.now (bearer_token (metadata_value md "authorization")) ≡ err e
      → (auth_interceptor at md (some f) next ctx req x).1 ≡ x
  unfolding auth_interceptor authorize_rpc
  auth_interceptor-rejected f e h = rw h refl

-- Why a request is refused: its credentials, or a field that its application lacks.
abbrev pub IsRefused :
    {F : Type 0} → Option (Validator F) → Arrival → Request → PbApplication F → Type 0
IsRefused {F} v at r a =
    ((e : Error) × (verdict v at r ≡ err e))
    ⊎ ((claims : Option (Claims F)) × (verdict v at r ≡ ok claims)
        × ((m : String) × (validate (to_domain a) ≡ some m)))

module _ {F W : Type 0} (d : RouterDeps F W) (port : Port F W) (at : Arrival) (method : String)
    (md : Metadata) (a : PbApplication F) (world : W) (r : Request)
    (same_id : r.request_id ≡ metadata_value md "X-Request-ID")
    (same_auth : r.authorization ≡ metadata_value md "authorization") where
  pub serve_rpc-refused :
      (v : Option (Validator F))
      → IsRefused v at r a
      → (serve_rpc port v at method md (some a) world).1.world ≡ world
  unfolding serve_rpc request_id_interceptor logging_interceptor inbound_id
  serve_rpc-refused v (inl (e, said)) =
      let (f, set, rejected) = verdict-eq-err v at r e said in
      rw (world-log_rpc, sym same_id, set)
        (ap (λ (s : Rpc W). s.world)
          (auth_interceptor-rejected at md (score_rpc port)
            (with_request_id background (inbound_id at r)) (some a) _ f e
            (rw same_auth at rejected)))
  serve_rpc-refused v (inr (claims, said, (m, invalid))) =
      let x : Rpc W = record { access = []; world = world } in
      let id = inbound_id at r in
      rw
        (
          world-log_rpc,
          sym same_id,
          auth_interceptor-verdict at md (score_rpc port) id (some a) x r v claims same_auth said,
        )
        (ap (λ (s : Rpc W). s.world)
          (score_rpc-invalid port a (caller_context id claims) x m invalid))

  -- A request that comes by HTTP to a scoring route, or by gRPC, with the same id, credentials and
  -- application, and that the validator rejects or whose application lacks a field: neither
  -- transport changes the world, and the HTTP caller gets a 401 or a 400.
  pub transports_refuse :
      find_route d r ≡ business port
      → d.decode r.body ≡ decoded (to_domain a)
      → IsRefused d.auth at r a
      → ((final_status (serve d at r world).1.writer ≡ 401)
          ⊎ (final_status (serve d at r world).1.writer ≡ 400))
        × ((serve d at r world).1.world ≡ world)
        × ((serve_rpc port d.auth at method md (some a) world).1.world ≡ world)
  transports_refuse route parsed (inl (e, said)) =
      let (f, set, rejected) = verdict-eq-err d.auth at r e said in
      let (status, kept) = serve-unauthorized d at r world port f e route set rejected in
      (inl status, kept, serve_rpc-refused d.auth (inl (e, said)))
  transports_refuse route parsed (inr (claims, said, (m, invalid))) =
      let (status, kept) =
        serve-invalid d at r world port claims (to_domain a) m route said parsed invalid in
      (inr status, kept, serve_rpc-refused d.auth (inr (claims, said, (m, invalid))))
