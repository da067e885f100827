-- ===== src/Config.antt =====
-- internal/config/config.go: the configuration from the environment. The parsers of strconv and
-- time are parameters; an `int` and a duration, in nanoseconds, are integers.
pub mod Limits
pub mod Malformed
use fraud_detection_scoring.Prelude.{
  ℕ, ◌^◌, ◌%◌, ◌-◌, ◌*◌, String, Bool, true, false, ◌&&◌, Option, none, some, ℤ, pos, negsuc, ltb,
  leb, if◌then◌else◌,
}
use fraud_detection_scoring.Float.{Float64}
use fraud_detection_scoring.Audit.{PersistMode, persist_combined}
use fraud_detection_scoring.Providers.{GuardConfig}
use fraud_detection_scoring.Scorer
use fraud_detection_scoring.Scorer.{Config as ScorerConfig}

-- `os.LookupEnv`
abbrev pub Environment : Type 0
Environment = String → Option String

pub record Parsers (F : Type 0) : Type 0 where
  pub parse_bool : String → Option Bool
  pub parse_duration : String → Option ℤ
  pub atoi : String → Option ℤ
  pub parse_float : String → Option F

pub record AppConfig (F : Type 0) : Type 0 where
  pub port : String
  pub grpc_port : String
  pub read_timeout : ℤ
  pub write_timeout : ℤ
  pub idle_timeout : ℤ
  pub shutdown_timeout : ℤ
  pub shutdown_drain_delay : ℤ
  pub scorer : ScorerConfig F
  pub guard : GuardConfig
  pub auth_enabled : Bool
  pub jwt_secret : String
  pub persist_mode : PersistMode
  pub async_enabled : Bool
  pub queue_url : String
  pub metrics_emf : Bool
  pub metrics_namespace : String
  pub demo_endpoints : Bool

abbrev or_default : {A : Type 0} → A → Option A → A
or_default def none = def
or_default def (some a) = a

-- The value of a variable, or the default where it is unset or does not parse.
abbrev parsed : {A : Type 0} → (String → Option A) → Option String → A → A
parsed parse none def = def
parsed parse (some v) def = or_default def (parse v)

abbrev max_uint32 : ℕ
max_uint32 = 2 ^ 32 - 1

-- The conversion `uint32(n)` of an integer that passes the range test, or the default.
abbrev in_uint32 : ℕ → Option ℤ → ℕ
in_uint32 def none = def
in_uint32 def (some (negsuc n)) = def
in_uint32 def (some (pos n)) = if leb n max_uint32 then n % 2 ^ 32 else def

unfoldable pub get_env : Environment → String → String → String
get_env env key def = or_default def (env key)

abbrev uint32_of : {F : Type 0} → Parsers F → Option String → ℕ → ℕ
uint32_of parsers none def = def
uint32_of parsers (some v) def = in_uint32 def (parsers.atoi v)

module _ {F : Type 0} (parsers : Parsers F) (env : Environment) where
  unfoldable pub get_bool : String → Bool → Bool
  get_bool key def = parsed parsers.parse_bool (env key) def

  unfoldable pub get_duration : String → ℤ → ℤ
  get_duration key def = parsed parsers.parse_duration (env key) def

  unfoldable pub get_int : String → ℤ → ℤ
  get_int key def = parsed parsers.atoi (env key) def

  unfoldable pub get_float : String → F → F
  get_float key def = parsed parsers.parse_float (env key) def

  unfoldable pub get_uint32 : String → ℕ → ℕ
  get_uint32 key def = uint32_of parsers (env key) def

abbrev milliseconds : ℕ → ℤ
milliseconds n = pos (n * 1000000)

abbrev seconds : ℕ → ℤ
seconds n = milliseconds (n * 1000)

module _ {F : Type 0} ⦃fl : Float64 F⦄ (parsers : Parsers F) (env : Environment) where
  unfoldable pub load : AppConfig F
  unfolding get_env get_bool get_duration get_int get_float get_uint32
  load = record {
    port = get_env env "PORT" "8080";
    grpc_port = get_env env "GRPC_PORT" "9090";
    read_timeout = get_duration parsers env "HTTP_READ_TIMEOUT" (seconds 5);
    write_timeout = get_duration parsers env "HTTP_WRITE_TIMEOUT" (seconds 10);
    idle_timeout = get_duration parsers env "HTTP_IDLE_TIMEOUT" (seconds 60);
    shutdown_timeout = get_duration parsers env "SHUTDOWN_TIMEOUT" (seconds 15);
    shutdown_drain_delay = get_duration parsers env "SHUTDOWN_DRAIN_DELAY" (seconds 2);
    scorer = record {
      budget = get_duration parsers env "SCORE_BUDGET" (milliseconds 180);
      stage_a_budget = get_duration parsers env "STAGE_A_BUDGET" (milliseconds 120);
      approve_below = get_float parsers env "APPROVE_BELOW" (fl.of_int (pos 35));
      decline_above = get_float parsers env "DECLINE_ABOVE" (fl.of_int (pos 70));
      min_signals = get_int parsers env "MIN_SIGNALS" (pos 2);
      min_confidence = get_float parsers env "MIN_CONFIDENCE" (fl.decimal 6 1);
      logic_version = get_env env "LOGIC_VERSION" "scoring-v1.0.0";
    };
    guard = record {
      budget = get_duration parsers env "PROVIDER_BUDGET" (milliseconds 120);
      consecutive_failures_to_trip = get_uint32 parsers env "BREAKER_TRIP_FAILURES" 5;
      half_open_max_requests = get_uint32 parsers env "BREAKER_HALFOPEN_MAX" 1;
      open_timeout = get_duration parsers env "BREAKER_OPEN_TIMEOUT" (seconds 30);
    };
    auth_enabled = get_bool parsers env "AUTH_ENABLED" false;
    jwt_secret = get_env env "JWT_SECRET" "";
    persist_mode = get_env env "PERSIST_MODE" persist_combined;
    async_enabled = get_bool parsers env "ASYNC_ENABLED" false;
    queue_url = get_env env "AUDIT_QUEUE_URL" "";
    metrics_emf = get_bool parsers env "METRICS_EMF" false;
    metrics_namespace = get_env env "METRICS_NAMESPACE" "FraudSignals";
    demo_endpoints = get_bool parsers env "DEMO_ENDPOINTS" true;
  }
