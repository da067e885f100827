-- ===== src/HttpApi/Health.antt =====
-- What a health check gets while the service drains.
use fraud_detection_scoring.Prelude.{false, some, ◌≡◌, refl}
use fraud_detection_scoring.HttpApi.{Request, Arrival, readiness_handler, write_json}
use fraud_detection_scoring.HttpApi.Router.{
  RouterDeps, readiness, find_route, serve, router, request_id_mw, logging_mw, log_access,
  recover_mw, recover, mux, serve_route,
}
use fraud_detection_scoring.HttpApi.Traced.{final_status}

module _ {F W : Type 0} (d : RouterDeps F W) (at : Arrival) (r : Request) (world : W) where
  -- The readiness check of a server whose probe is off gets a 503.
  pub serve-draining :
      find_route d r ≡ readiness
      → d.probe ≡ some false
      → final_status (serve d at r world).1.writer ≡ 503
  unfolding serve router request_id_mw logging_mw log_access recover_mw recover mux serve_route
      readiness_handler write_json
  serve-draining route probe = rw (route, probe) refl
