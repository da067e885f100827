-- ===== src/HttpApi/Logged.antt =====
-- The whole edge leaves one line in the access log.
use fraud_detection_scoring.Prelude.{String, Bool, true, false, [], ◌∷◌, ◌≡◌, refl, arith, eq_iff}
use fraud_detection_scoring.Context.{Context, background, with_request_id}
use fraud_detection_scoring.HttpApi.{Request, Exchange, Arrival, set_header, on_writer, get_key}
use fraud_detection_scoring.HttpApi.Router.{
  header_name, inbound_id, start_recording, log_access, logging_mw, recover, recover_mw,
  request_id_mw, RouterDeps, mux, router, fresh, serve,
}
use fraud_detection_scoring.HttpApi.Traced.{final_status, IsTraced, IsTraced-final_status}
use fraud_detection_scoring.HttpApi.Kept.{IsKept, recover_mw-Keeps}

module _ {F W : Type 0} where
  recover-false : (r : Bool × Exchange F W) → (recover r).0 ≡ false
  unfolding recover
  recover-false (true, y) = refl
  recover-false (false, y) = refl

  -- One line, of this request, and the response that it is about.
  pub record IsLogged (id : String) (r : Request) (out : Bool × Exchange F W) : Type 0 where
    pub returns : out.0 ≡ false
    pub header : get_key header_name out.1.writer.headers ≡ id
    pub access :
        out.1.access
        ≡ record {
          request_id = id;
          method = r.method;
          path = r.path;
          status = final_status out.1.writer;
        }
          ∷ []

  log_access-IsLogged :
      (id : String) (ctx : Context F) (r : Request) (out : Bool × Exchange F W)
      → out.0 ≡ false
      → IsKept id [] out
      → IsLogged id r (log_access (with_request_id ctx id) r out)
  unfolding log_access
  log_access-IsLogged id ctx r (true, y) h k = absurd cc
  log_access-IsLogged id ctx r (false, y) h k = record {
    returns = refl;
    header = k.traced.header;
    access = rw (k.access, IsTraced-final_status id y.writer k.traced) refl;
  }

module _ {F W : Type 0} (d : RouterDeps F W) (at : Arrival) where
  -- Whatever the scorers, the validator and the mux do, a panic included: a request is answered and
  -- leaves one line in the access log; the line has the request's method and path, the status that
  -- the client gets, and the id that the response echoes, which is the inbound one, or a fresh one
  -- if that is empty.
  pub serve-IsLogged : (r : Request) (world : W) → IsLogged (inbound_id at r) r (serve d at r world)
  unfolding serve request_id_mw logging_mw recover_mw set_header router
  serve-IsLogged r world =
      let id = inbound_id at r in
      let ctx : Context F = with_request_id background id in
      let x : Exchange F W =
        on_writer start_recording (on_writer (set_header header_name id) (fresh d world)) in
      let traced : IsTraced id x.writer = record {
        header = ground (arith, eq_iff header_name header_name);
        recorded = refl;
        initial = λ h. refl;
      } in
      log_access-IsLogged id background r (recover_mw (mux d at) ctx r x)
        (recover-false (mux d at ctx r x)) (recover_mw-Keeps d id at ctx r x traced)
