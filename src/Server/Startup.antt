-- ===== src/Server/Startup.antt =====
-- When the server refuses to start, and what it enforces when it does.
use fraud_detection_scoring.Prelude.{
  String, Bool, true, false, Option, some, ◌≡◌, ◌≢◌, ◌⊎◌, ◌↔◌, inl, inr, refl, sym, ap, ◌∙◌, subst,
  arith, str_eq, eq_iff, Bool-cases,
}
use fraud_detection_scoring.Errors.{Error, Result, ok, err}
use fraud_detection_scoring.Float.{Float64}
use fraud_detection_scoring.Context.{Claims}
use fraud_detection_scoring.Auth.{Validator, bearer_token, hs256_validate}
use fraud_detection_scoring.Events.{Publisher}
use fraud_detection_scoring.HttpApi.{Request, Arrival, Port}
use fraud_detection_scoring.HttpApi.Router.{business, find_route, serve}
use fraud_detection_scoring.HttpApi.Traced.{final_status}
use fraud_detection_scoring.HttpApi.Guarded.{serve-unauthorized}
use fraud_detection_scoring.GrpcApi.{PbApplication, Metadata, metadata_value, serve_rpc}
use fraud_detection_scoring.GrpcApi.Refusals.{serve_rpc-refused}
use fraud_detection_scoring.Config.{AppConfig}
use fraud_detection_scoring.Service.{ScoringService}
use fraud_detection_scoring.Server.{
  Outbox, Platform, Running, pick_validator, build_publisher, build_service, wire, with_validator,
  with_publisher, start,
}

abbrev pub is_err : {A : Type 0} → Result A → Bool
is_err (ok a) = false
is_err (err e) = true

module _ {F B V Q W : Type 0} ⦃fl : Float64 F⦄ (p : Platform F B V Q W) (cfg : AppConfig F) where
  -- Authentication without a secret; publishing to SQS without a queue or without AWS.
  abbrev pub LacksSecret : Type 0
  LacksSecret = (cfg.auth_enabled ≡ true) × (cfg.jwt_secret ≡ "")

  abbrev pub LacksQueue : Type 0
  LacksQueue = (cfg.async_enabled ≡ true) × ((cfg.queue_url ≡ "") ⊎ (is_err p.aws ≡ true))

  pick_validator-refuses_iff : (is_err (pick_validator p cfg) ≡ true) ↔ LacksSecret
  unfolding pick_validator
  pick_validator-refuses_iff = grind (arith, eq_iff cfg.jwt_secret "")

  build_publisher-refuses_iff : (is_err (build_publisher p cfg) ≡ true) ↔ LacksQueue
  unfolding build_publisher
  build_publisher-refuses_iff = grind (arith, eq_iff cfg.queue_url "")

  with_validator-refuses :
      (service : ScoringService F (Outbox Q)) (v : Result (Option (Validator F)))
      → is_err (with_validator p cfg service v) ≡ is_err v
  with_validator-refuses service (err e) = refl
  with_validator-refuses service (ok auth) = refl

  with_publisher-refuses_iff :
      (o : Result (Publisher F (Outbox Q)))
      → (is_err (with_publisher p cfg o) ≡ true)
        ↔ ((is_err (pick_validator p cfg) ≡ true) ⊎ (is_err o ≡ true))
  with_publisher-refuses_iff (err e) = (λ h. inr refl, λ h. refl)
  with_publisher-refuses_iff (ok publisher) =
      let same = with_validator-refuses (build_service p cfg publisher) (pick_validator p cfg) in
      (λ h. inl (sym same ∙ h), λ h. elim h [ inl e ↦ same ∙ e | inr e ↦ absurd cc ])

  -- The server refuses to start exactly when authentication is enabled without a secret, or publishing
  -- to SQS is enabled without a queue's URL or without an AWS configuration.
  pub start-refuses_iff : (is_err (start p cfg) ≡ true) ↔ (LacksSecret ⊎ LacksQueue)
  unfolding start
  start-refuses_iff =
      let (out, back) = with_publisher-refuses_iff (build_publisher p cfg) in
      let (secret_out, secret_back) = pick_validator-refuses_iff in
      let (queue_out, queue_back) = build_publisher-refuses_iff in
      (
        λ h. elim (out h) [ inl e ↦ inl (secret_out e) | inr e ↦ inr (queue_out e) ],
        λ h. back (elim h [ inl e ↦ inl (secret_back e) | inr e ↦ inr (queue_back e) ]),
      )

  -- The validator of a server that started is the one that was picked, on both transports.
  with_validator-auth :
      (service : ScoringService F (Outbox Q)) (v : Result (Option (Validator F)))
      (srv : Running F Q W)
      → with_validator p cfg service v ≡ ok srv
      → (v ≡ ok srv.auth) × ((ready : Bool) → (srv.router ready).auth ≡ srv.auth)
  with_validator-auth service (err e) srv h = absurd cc
  with_validator-auth service (ok auth) srv h =
      let same : wire p cfg service auth ≡ srv = cc in
      subst
        (λ (s : Running F Q W).
          (ok auth ≡ ok s.auth) × ((ready : Bool) → (s.router ready).auth ≡ s.auth))
        same (refl, λ ready. refl)

  with_publisher-auth :
      (o : Result (Publisher F (Outbox Q))) (srv : Running F Q W)
      → with_publisher p cfg o ≡ ok srv
      → (pick_validator p cfg ≡ ok srv.auth) × ((ready : Bool) → (srv.router ready).auth ≡ srv.auth)
  with_publisher-auth (err e) srv h = absurd cc
  with_publisher-auth (ok publisher) srv h =
      with_validator-auth (build_service p cfg publisher) (pick_validator p cfg) srv h

  abbrev pub configured : Validator F
  configured = hs256_validate p.jose (p.bytes cfg.jwt_secret)

  pick_validator-hs256 :
      (auth : Option (Validator F))
      → pick_validator p cfg ≡ ok auth
      → cfg.auth_enabled ≡ true
      → (cfg.jwt_secret ≢ "") × (auth ≡ some configured)
  unfolding pick_validator
  pick_validator-hs256 auth h enabled = elim (Bool-cases (str_eq cfg.jwt_secret "")) [
    | inl e ↦ absurd (grind arith)
    | inr e ↦ (λ empty. absurd (ground (arith, eq_iff cfg.jwt_secret "")), grind arith)
  ]

  -- A server that starts with authentication enabled has a secret; and a request to a scoring route, in
  -- either state of the probe, or by gRPC, whose token HS256 under that secret rejects: it leaves the
  -- world as it was, and the HTTP caller gets a 401.
  pub start-secures :
      (srv : Running F Q W) (ready : Bool) (at : Arrival) (r : Request) (method : String)
      (md : Metadata) (a : PbApplication F) (world : W) (port : Port F W) (e : Error)
      → start p cfg ≡ ok srv
      → cfg.auth_enabled ≡ true
      → find_route (srv.router ready) r ≡ business port
      → r.request_id ≡ metadata_value md "X-Request-ID"
      → r.authorization ≡ metadata_value md "authorization"
      → configured at.now (bearer_token r.authorization) ≡ err e
      → let x = (serve (srv.router ready) at r world).1 in
        (cfg.jwt_secret ≢ "")
        × (final_status x.writer ≡ 401)
        × (x.world ≡ world)
        × ((serve_rpc srv.scorer srv.auth at method md (some a) world).1.world ≡ world)
  unfolding start
  start-secures srv ready at r method md a world port e began enabled route same_id same_auth
        rejected =
      let (picked, everywhere) = with_publisher-auth (build_publisher p cfg) srv began in
      let (secret, auth) = pick_validator-hs256 srv.auth picked enabled in
      let (status, kept) =
        serve-unauthorized (srv.router ready) at r world port configured e route
          (everywhere ready ∙ auth) rejected in
      (
        secret,
        status,
        kept,
        serve_rpc-refused (srv.router ready) srv.scorer at method md a world r same_id same_auth
            srv.auth
            (inl (
              e,
              rw auth (
                  ap (λ (v : Result (Claims F)). elim v [ ok c ↦ ok (some c) | err e ↦ err e ])
                    rejected),
            )),
      )
