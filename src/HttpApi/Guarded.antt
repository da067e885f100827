-- ===== src/HttpApi/Guarded.antt =====
-- Which requests reach a scorer, and what their callers get.
use fraud_detection_scoring.Prelude.{
  ℕ, String, Bool, true, false, Option, none, some, List, [], ◌∷◌, ◌≡◌, refl, arith, ◌⊎◌, inl, inr,
  if◌then◌else◌,
}
use fraud_detection_scoring.Errors.{Error, Result, ok, err}
use fraud_detection_scoring.Domain.{ScoreResult, Application}
use fraud_detection_scoring.Context.{Claims, Context, background, with_request_id, with_claims}
use fraud_detection_scoring.Auth.{Validator, bearer_token}
use fraud_detection_scoring.HttpApi.{
  Request, Exchange, Handler, Body, result, failure, Arrival, Port, Call, returned, panicked,
  decoded, validate, score_handler, reply, score_valid, score_decoded, write_json, write_error,
  set_header, write_header, write_body, on_writer,
}
use fraud_detection_scoring.HttpApi.Router.{
  header_name, start_recording, fresh, inbound_id, log_access, logging_mw, recover, recover_mw,
  request_id_mw, authorize, auth_mw, RouterDeps, business, find_route, serve_route, mux, router,
  serve,
}
use fraud_detection_scoring.HttpApi.Traced.{final_status}

-- What the validator of a request says; with none, there are no claims.
abbrev pub verdict :
    {F : Type 0} → Option (Validator F) → Arrival → Request → Result (Option (Claims F))
verdict none at r = ok none
verdict (some v) at r = elim (v at.now (bearer_token r.authorization)) [
  | ok c ↦ ok (some c)
  | err e ↦ err e
]

-- The context that a scorer is called with.
abbrev pub caller_context : {F : Type 0} → String → Option (Claims F) → Context F
caller_context id none = with_request_id background id
caller_context id (some c) = with_claims (with_request_id background id) c

-- The status and the bodies for what a scorer did.
abbrev pub answer : {F : Type 0} → (ScoreResult F → Bool) → Call F → ℕ × List (Body F)
answer marshals (returned r) = if marshals r then (200, result r ∷ []) else (500, [])
answer marshals panicked = (500, failure "internal_error" "internal server error" ∷ [])

module _ {F W : Type 0} (at : Arrival) (r : Request) (next : Handler F W) (id : String)
    (x : Exchange F W) where
  authorize-verdict :
      (v : Result (Claims F)) (claims : Option (Claims F))
      → elim v [ ok c ↦ ok (some c) | err e ↦ err e ] ≡ ok claims
      → authorize next (with_request_id background id) r x v ≡ next (caller_context id claims) r x
  unfolding authorize
  authorize-verdict (ok c) none h = absurd (ground arith)
  authorize-verdict (ok c) (some k) h = let same : c ≡ k = ground arith in rw same refl
  authorize-verdict (err e) claims h = absurd (ground arith)

  auth_mw-verdict :
      (a : Option (Validator F)) (claims : Option (Claims F))
      → verdict a at r ≡ ok claims
      → auth_mw at a next (with_request_id background id) r x ≡ next (caller_context id claims) r x
  unfolding auth_mw
  auth_mw-verdict none none h = refl
  auth_mw-verdict none (some c) h = absurd (ground arith)
  auth_mw-verdict (some v) claims h =
      authorize-verdict (v at.now (bearer_token r.authorization)) claims h

-- The exchange as the mux gets it.
abbrev entered : {F W : Type 0} → RouterDeps F W → Arrival → Request → W → Exchange F W
entered d at r world =
    on_writer start_recording (on_writer (set_header header_name (inbound_id at r)) (fresh d world))

module _ {F W : Type 0} (d : RouterDeps F W) (at : Arrival) (r : Request) (world : W)
    (port : Port F W) where
  -- What the access log and the recovery leave of a scorer's answer.
  answered_as :
      (b : Bool) (call : Call F) (after : W)
      → (call ≡ panicked) ⊎ ((res : ScoreResult F) × (call ≡ returned res) × (d.marshals res ≡ b))
      → let out =
          log_access
            (with_request_id background (inbound_id at r))
            r
            (recover (reply d.marshals at (entered d at r world) (call, after))) in
        (final_status out.1.writer ≡ (answer d.marshals call).0)
        × (out.1.writer.bodies ≡ (answer d.marshals call).1)
        × (out.1.world ≡ after)
  unfolding log_access recover reply set_header write_json write_error write_header write_body
  answered_as b call after (inl e) = rw e (refl, refl, refl)
  answered_as true call after (inr (res, e, m)) = rw (e, m) (refl, refl, refl)
  answered_as false call after (inr (res, e, m)) = rw (e, m) (refl, refl, refl)

  answered :
      (call : Call F) (after : W)
      → let out =
          log_access
            (with_request_id background (inbound_id at r))
            r
            (recover (reply d.marshals at (entered d at r world) (call, after))) in
        (final_status out.1.writer ≡ (answer d.marshals call).0)
        × (out.1.writer.bodies ≡ (answer d.marshals call).1)
        × (out.1.world ≡ after)
  answered panicked after = answered_as true panicked after (inl refl)
  answered (returned res) after =
      answered_as (d.marshals res) (returned res) after (inr (res, refl, refl))

  -- A request to a scoring route whose token the validator rejects gets a 401, and the scorer's
  -- world stays as it was.
  pub serve-unauthorized :
      (v : Validator F) (e : Error)
      → find_route d r ≡ business port
      → d.auth ≡ some v
      → v at.now (bearer_token r.authorization) ≡ err e
      → (final_status (serve d at r world).1.writer ≡ 401) × ((serve d at r world).1.world ≡ world)
  unfolding serve router request_id_mw logging_mw log_access recover_mw recover mux serve_route
      auth_mw authorize write_error
  serve-unauthorized v e route auth rejected = rw (route, auth, rejected) (refl, refl)

  -- An authorized request to a scoring route whose body is valid: the world becomes what the scorer
  -- makes of it, with the request's id and claims in its context; the client gets the scorer's result
  -- with status 200, or a 500 if the scorer panicked or the result cannot be marshalled.
  pub serve-scores :
      (claims : Option (Claims F)) (app : Application F) (call : Call F) (after : W)
      → find_route d r ≡ business port
      → verdict d.auth at r ≡ ok claims
      → d.decode r.body ≡ decoded app
      → validate app ≡ none
      → port (caller_context (inbound_id at r) claims) app world ≡ (call, after)
      → (final_status (serve d at r world).1.writer ≡ (answer d.marshals call).0)
        × ((serve d at r world).1.writer.bodies ≡ (answer d.marshals call).1)
        × ((serve d at r world).1.world ≡ after)
  unfolding serve router request_id_mw logging_mw recover_mw mux serve_route score_handler
      score_decoded score_valid
  serve-scores claims app call after route said parsed valid called =
      rw
        (
          route,
          auth_mw-verdict at r _ (inbound_id at r) _ d.auth claims said,
          parsed,
          valid,
          called,
        )
        (answered call after)

  -- An authorized request to a scoring route whose application lacks a field: a 400.
  pub serve-invalid :
      (claims : Option (Claims F)) (app : Application F) (m : String)
      → find_route d r ≡ business port
      → verdict d.auth at r ≡ ok claims
      → d.decode r.body ≡ decoded app
      → validate app ≡ some m
      → (final_status (serve d at r world).1.writer ≡ 400) × ((serve d at r world).1.world ≡ world)
  unfolding serve router request_id_mw logging_mw log_access recover_mw recover mux serve_route
      score_handler score_decoded score_valid write_error
  serve-invalid claims app m route said parsed invalid =
      rw (route, auth_mw-verdict at r _ (inbound_id at r) _ d.auth claims said, parsed, invalid)
        (refl, refl)
