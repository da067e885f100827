-- ===== src/HttpApi.antt =====
-- internal/httpapi: the HTTP edge. A handler acts on an exchange, which is the response being
-- written, the access log and the world of the scorer; it may panic. JSON decoding and what the mux
-- answers to a request that no pattern matches are parameters.
pub mod Router
pub mod Traced
pub mod Kept
pub mod Logged
pub mod Health
pub mod Guarded
use Prim.Native.String
use fraud_detection_scoring.Prelude.{
  ℕ, String, Bool, true, false, not, ◌&&◌, ◌||◌, Option, none, some, List, [], ◌∷◌, ◌++◌, ◌≡◌, ℤ,
  str_eq, if◌then◌else◌,
}
use fraud_detection_scoring.Errors.{Result, ok, err}
use fraud_detection_scoring.Domain.{Application, ScoreResult}
use fraud_detection_scoring.Context.{
  Claims, Context, background, with_request_id, with_claims, request_id_of,
}
use fraud_detection_scoring.Auth.{Validator, bearer_token}

-- The two headers that the code reads are "" where they are absent.
pub record Request : Type 0 where
  pub method : String
  pub path : String
  pub request_id : String
  pub authorization : String
  pub body : String

pub data Body (F : Type 0) : Type 0 where
  result : ScoreResult F → Body F
  failure : (code message : String) → Body F
  health : String → Body F
  plain : String → Body F

-- The response, with the `statusRecorder` around it (`recorded`, `written`). A status or a header
-- that is set once the status is sent is without effect.
pub record Writer (F : Type 0) : Type 0 where
  pub headers : List (String × String)
  pub status : Option ℕ
  pub bodies : List (Body F)
  pub recorded : ℕ
  pub written : Bool

pub record AccessLine : Type 0 where
  pub request_id : String
  pub method : String
  pub path : String
  pub status : ℕ

pub record Exchange (F W : Type 0) : Type 0 where
  pub writer : Writer F
  pub access : List AccessLine
  pub world : W

-- What the environment supplies: a fresh id, the clock, and the scoring latency as text.
pub record Arrival : Type 0 where
  pub generated : String
  pub now : ℤ
  pub latency : String

-- The flag says whether the handler panicked.
abbrev pub Handler : Type 0 → Type 0 → Type 0
Handler F W = Context F → Request → Exchange F W → Bool × Exchange F W

pub data Call (F : Type 0) : Type 0 where
  returned : ScoreResult F → Call F
  panicked : Call F

-- `scorerPort`
abbrev pub Port : Type 0 → Type 0 → Type 0
Port F W = Context F → Application F → W → Call F × W

-- `Decode` on a body of at most `maxBodyBytes`.
pub data Decoded (F : Type 0) : Type 0 where
  decoded : Application F → Decoded F
  too_large : Decoded F
  malformed : String → Decoded F

abbrev pub set_key : String → String → List (String × String) → List (String × String)
set_key k v [] = (k, v) ∷ []
set_key k v ((j, u) ∷ m) = if str_eq j k then (k, v) ∷ m else (j, u) ∷ set_key k v m

abbrev pub get_key : String → List (String × String) → String
get_key k [] = ""
get_key k ((j, u) ∷ m) = if str_eq j k then u else get_key k m

abbrev pub sent : {A : Type 0} → Option ℕ → A → A → A
sent none old new = new
sent (some code) old new = old

module _ {F : Type 0} where
  unfoldable pub set_header : String → String → Writer F → Writer F
  set_header k v w = record w { headers = sent w.status w.headers (set_key k v w.headers) }

  -- `statusRecorder.WriteHeader`, and that of the response below it.
  unfoldable pub write_header : ℕ → Writer F → Writer F
  write_header code w = record w {
    recorded = if w.written then w.recorded else code;
    written = true;
    status = elim w.status [ none ↦ some code | some c ↦ some c ];
  }

  -- `statusRecorder.Write`: 200 if no status was written.
  unfoldable pub write_body : Body F → Writer F → Writer F
  unfolding write_header
  write_body b w =
      let v = if w.written then w else write_header 200 w in
      record v { bodies = v.bodies ++ b ∷ [] }

  -- `writeJSON`; the flag says whether the value can be marshalled.
  unfoldable pub write_json : Bool → ℕ → Body F → Writer F → Writer F
  unfolding set_header write_header write_body
  write_json false status body w = write_header 500 w
  write_json true status body w =
      write_body body (write_header status (set_header "Content-Type" "application/json" w))

  unfoldable pub write_error : ℕ → String → String → Writer F → Writer F
  unfolding write_json
  write_error status code message w = write_json true status (failure code message) w

  -- `validate`: the message of what is missing.
  unfoldable pub validate : Application F → Option String
  validate app =
      if str_eq app.applicant_id ""
      then some "applicant_id is required"
      else if str_eq app.product ""
      then some "product is required"
      else none

module _ {F W : Type 0} where
  -- A write to the response of an exchange.
  abbrev pub on_writer : (Writer F → Writer F) → Exchange F W → Exchange F W
  on_writer f x = record x { writer = f x.writer }

  abbrev pub refuse : ℕ → String → String → Exchange F W → Bool × Exchange F W
  refuse status code message x = (false, on_writer (write_error status code message) x)

module _ {F W : Type 0} (marshals : ScoreResult F → Bool) (at : Arrival) where
  -- `scoreHandler`, from its end: after the call of the scorer, after validation, after decoding.
  unfoldable pub reply : Exchange F W → Call F × W → Bool × Exchange F W
  unfolding set_header write_json
  reply x (returned r, w) = (
    false,
    on_writer
        (λ v. write_json (marshals r) 200 (result r) (set_header "X-Score-Latency-Ms" at.latency v))
        (record x { world = w }),
  )
  reply x (panicked, w) = (true, record x { world = w })

  unfoldable pub score_valid :
      Port F W → Context F → Application F → Exchange F W → Option String → Bool × Exchange F W
  unfolding reply
  score_valid port ctx app x (some message) = refuse 400 "validation_failed" message x
  score_valid port ctx app x none = reply x (port ctx app x.world)

  unfoldable pub score_decoded :
      Port F W → Context F → Exchange F W → Decoded F → Bool × Exchange F W
  unfolding score_valid validate
  score_decoded port ctx x too_large = refuse 413 "payload_too_large" "request body exceeds limit" x
  score_decoded port ctx x (malformed e) =
      refuse 400 "invalid_json" (String.◌++◌ "request body is not valid JSON: " e) x
  score_decoded port ctx x (decoded app) = score_valid port ctx app x (validate app)

  unfoldable pub score_handler : (String → Decoded F) → Port F W → Handler F W
  unfolding score_decoded
  score_handler decode port ctx r x = score_decoded port ctx x (decode r.body)

module _ {F W : Type 0} where
  unfoldable pub liveness_handler : Handler F W
  unfolding write_json
  liveness_handler ctx r x = (false, on_writer (write_json true 200 (health "ok")) x)

  unfoldable pub readiness_handler : Bool → Handler F W
  unfolding write_json
  readiness_handler true ctx r x = (false, on_writer (write_json true 200 (health "ready")) x)
  readiness_handler false ctx r x = (false, on_writer (write_json true 503 (health "draining")) x)
