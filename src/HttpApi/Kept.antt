-- ===== src/HttpApi/Kept.antt =====
-- What every handler below the access log keeps: the log, and what every write of a response keeps.
use fraud_detection_scoring.Prelude.{
  ℕ, String, Bool, true, false, Option, none, some, List, ◌≡◌, refl,
}
use fraud_detection_scoring.Errors.{Result, ok, err}
use fraud_detection_scoring.Domain.{ScoreResult, Application}
use fraud_detection_scoring.Context.{Claims, Context, with_claims}
use fraud_detection_scoring.Auth.{Validator, bearer_token}
use Prim.Native.String
use fraud_detection_scoring.HttpApi.{
  Request, AccessLine, Exchange, Arrival, Handler, Port, Call, returned, panicked, Decoded, decoded,
  too_large, malformed, set_header, write_header, refuse, result, health, plain, validate, reply,
  score_valid, score_decoded, score_handler, liveness_handler, readiness_handler,
}
use fraud_detection_scoring.HttpApi.Router.{
  RouterDeps, Route, business, liveness, readiness, other, recover, recover_mw, authorize, auth_mw,
  serve_route, mux, find_route, is_ready,
}
use fraud_detection_scoring.HttpApi.Traced.{
  IsTraced, set_header-IsTraced, write_header-IsTraced, write_body-IsTraced, write_json-IsTraced,
  write_error-IsTraced,
}

-- A handler's result, from an exchange that is traced: traced, with the log as it was.
pub record IsKept {F W : Type 0} (id : String) (log : List AccessLine) (r : Bool × Exchange F W)
    : Type 0 where
  pub traced : IsTraced id r.1.writer
  pub access : r.1.access ≡ log

module _ {F W : Type 0} (id : String) where
  abbrev pub Keeps : Handler F W → Type 0
  Keeps h =
      (ctx : Context F) (r : Request) (x : Exchange F W)
      → IsTraced id x.writer
      → IsKept id x.access (h ctx r x)

  refuse-IsKept :
      (code : ℕ) (c m : String) (x : Exchange F W)
      → IsTraced id x.writer
      → IsKept id x.access (refuse code c m x)
  refuse-IsKept code c m x t = record {
    traced = write_error-IsTraced id code c m x.writer t;
    access = refl;
  }

  recover-IsKept :
      (log : List AccessLine) (r : Bool × Exchange F W)
      → IsKept id log r
      → IsKept id log (recover r)
  unfolding recover
  recover-IsKept log (true, y) k = record {
    traced = write_error-IsTraced id 500 "internal_error" "internal server error" y.writer k.traced;
    access = k.access;
  }
  recover-IsKept log (false, y) k = k

  authorize-IsKept :
      (next : Handler F W) (ctx : Context F) (r : Request) (x : Exchange F W)
      (v : Result (Claims F))
      → Keeps next
      → IsTraced id x.writer
      → IsKept id x.access (authorize next ctx r x v)
  unfolding authorize
  authorize-IsKept next ctx r x (err e) k t =
      refuse-IsKept 401 "unauthorized" "invalid or missing credentials" x t
  authorize-IsKept next ctx r x (ok claims) k t = k (with_claims ctx claims) r x t

  auth_mw-Keeps :
      (at : Arrival) (v : Option (Validator F)) (next : Handler F W)
      → Keeps next
      → Keeps (auth_mw at v next)
  unfolding auth_mw
  auth_mw-Keeps at none next k = k
  auth_mw-Keeps at (some v) next k =
      λ ctx r x t. authorize-IsKept next ctx r x (v at.now (bearer_token r.authorization)) k t

module _ {F W : Type 0} (id : String) (marshals : ScoreResult F → Bool) (at : Arrival) where
  reply-IsKept :
      (x : Exchange F W) (c : Call F × W)
      → IsTraced id x.writer
      → IsKept id x.access (reply marshals at x c)
  unfolding reply
  reply-IsKept x (returned r, w) t = record {
    traced =
        write_json-IsTraced id (marshals r) 200 (result r)
          (set_header "X-Score-Latency-Ms" at.latency x.writer)
          (set_header-IsTraced id "X-Score-Latency-Ms" at.latency x.writer refl t);
    access = refl;
  }
  reply-IsKept x (panicked, w) t = record { traced = t; access = refl }

  score_valid-IsKept :
      (port : Port F W) (ctx : Context F) (app : Application F) (x : Exchange F W)
      (v : Option String)
      → IsTraced id x.writer
      → IsKept id x.access (score_valid marshals at port ctx app x v)
  unfolding score_valid
  score_valid-IsKept port ctx app x (some m) t = refuse-IsKept id 400 "validation_failed" m x t
  score_valid-IsKept port ctx app x none t = reply-IsKept x (port ctx app x.world) t

  score_decoded-IsKept :
      (port : Port F W) (ctx : Context F) (x : Exchange F W) (d : Decoded F)
      → IsTraced id x.writer
      → IsKept id x.access (score_decoded marshals at port ctx x d)
  unfolding score_decoded
  score_decoded-IsKept port ctx x too_large t =
      refuse-IsKept id 413 "payload_too_large" "request body exceeds limit" x t
  score_decoded-IsKept port ctx x (malformed e) t =
      refuse-IsKept id 400 "invalid_json" (String.◌++◌ "request body is not valid JSON: " e) x t
  score_decoded-IsKept port ctx x (decoded app) t =
      score_valid-IsKept port ctx app x (validate app) t

  score_handler-Keeps :
      (decode : String → Decoded F) (port : Port F W)
      → Keeps id (score_handler marshals at decode port)
  unfolding score_handler
  score_handler-Keeps decode port = λ ctx r x t. score_decoded-IsKept port ctx x (decode r.body) t

module _ {F W : Type 0} (id : String) where
  readiness_handler-Keeps : (b : Bool) → Keeps {F = F} {W = W} id (readiness_handler b)
  unfolding readiness_handler
  readiness_handler-Keeps true = λ ctx r x t. record {
    traced = write_json-IsTraced id true 200 (health "ready") x.writer t;
    access = refl;
  }
  readiness_handler-Keeps false = λ ctx r x t. record {
    traced = write_json-IsTraced id true 503 (health "draining") x.writer t;
    access = refl;
  }

  liveness_handler-Keeps : Keeps {F = F} {W = W} id liveness_handler
  unfolding liveness_handler
  liveness_handler-Keeps = λ ctx r x t. record {
    traced = write_json-IsTraced id true 200 (health "ok") x.writer t;
    access = refl;
  }

module _ {F W : Type 0} (d : RouterDeps F W) (id : String) (at : Arrival) where
  serve_route-Keeps : (route : Route F W) → Keeps id (serve_route d at route)
  unfolding serve_route
  serve_route-Keeps (business port) =
      auth_mw-Keeps id at d.auth (score_handler d.marshals at d.decode port)
        (score_handler-Keeps id d.marshals at d.decode port)
  serve_route-Keeps liveness = liveness_handler-Keeps id
  serve_route-Keeps readiness = readiness_handler-Keeps id (is_ready d.probe)
  serve_route-Keeps other = λ ctx r x t.
      let (code, said) = d.unmatched r in
      record {
        traced =
            write_body-IsTraced id (plain said) (write_header code x.writer)
              (write_header-IsTraced id code x.writer t);
        access = refl;
      }

  pub recover_mw-Keeps : Keeps id (recover_mw (mux d at))
  unfolding recover_mw mux
  recover_mw-Keeps = λ ctx r x t.
      recover-IsKept id x.access (serve_route d at (find_route d r) ctx r x)
        (serve_route-Keeps (find_route d r) ctx r x t)
