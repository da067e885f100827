-- ===== src/Tests/Settings.antt =====
-- The configuration of an environment with one variable.
use fraud_detection_scoring.Prelude.{none, some, ◌≡◌, refl, pos, str_eq, if◌then◌else◌}
use fraud_detection_scoring.Float.{Millionths, millionths_float}
use fraud_detection_scoring.Config.{Environment, Parsers, load}
use fraud_detection_scoring.Config.Malformed.{readable_part, load-readable_part}

abbrev pub env : Environment
env key = if str_eq key "BREAKER_TRIP_FAILURES" then some "seven" else none

-- They read the one word.
abbrev pub parsers : Parsers Millionths
parsers = record {
  parse_bool = λ v. none;
  parse_duration = λ v. none;
  atoi = λ v. if str_eq v "seven" then some (pos 7) else none;
  parse_float = λ v. none;
}

loaded : (load parsers env).guard.consecutive_failures_to_trip ≡ 7
unfolding load
loaded = refl

-- With a duration that is none.
abbrev messy : Environment
messy key = if str_eq key "SCORE_BUDGET" then some "soon" else env key

unset : readable_part parsers messy "SCORE_BUDGET" ≡ none
unset = refl

load-readable_part_example : load parsers (readable_part parsers messy) ≡ load parsers messy
load-readable_part_example = load-readable_part parsers messy
