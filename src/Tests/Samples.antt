-- ===== src/Tests/Samples.antt =====
-- Two independent vendors and a bureau, in whole millionths.
use fraud_detection_scoring.Prelude.{some, [], ◌∷◌, ℤ, pos, List}
use fraud_detection_scoring.Errors.{ok, err, sentinel, deadline_exceeded}
use fraud_detection_scoring.Float.{Millionths}
use fraud_detection_scoring.Domain.{RiskData, Application}
use fraud_detection_scoring.Scorer.{Config}
use fraud_detection_scoring.Scorer.FanIn.{Event, fetch_returned, send, receive}
use fraud_detection_scoring.Scorer.Pipeline.{Schedule, Scorer}

abbrev pub million : ℤ
million = pos 1000000

abbrev pub cfg : Config Millionths
cfg = record {
  budget = pos 180000000;
  stage_a_budget = pos 120000000;
  approve_below = pos 35000000;
  decline_above = pos 70000000;
  min_signals = pos 2;
  min_confidence = pos 600000;
  logic_version = "scoring-v1.0.0";
}

abbrev pub identity : RiskData Millionths
identity = record {
  source = "identity_verify";
  score = pos 80000000;
  confidence = pos 900000;
  weight = million;
}

abbrev pub txn : RiskData Millionths
txn = record {
  source = "txn_history";
  score = pos 90000000;
  confidence = pos 850000;
  weight = million;
}

abbrev pub bureau : RiskData Millionths
bureau = record {
  source = "credit_bureau";
  score = pos 75000000;
  confidence = pos 950000;
  weight = pos 1500000;
}

abbrev pub clean : RiskData Millionths
clean = record identity { score = pos 10000000 }

abbrev pub app : Application Millionths
app = record {
  applicant_id = "acct-123";
  product = "checking";
  full_name = "";
  email = "";
  country = "";
  age_years = pos 0;
  requested_amount = pos 5000000000;
  account_age_days = pos 0;
  recent_txn_count = pos 0;
  prior_signals = [];
}

abbrev pub sc : Scorer Millionths
sc = record { independent = 2; dependent = some (λ a. ok bureau); cfg = cfg }

-- Both vendors answer, the second one first.
abbrev pub both_answer : List (Event Millionths)
both_answer =
    fetch_returned 1 (ok txn)
    ∷ send 1
    ∷ fetch_returned 0 (ok identity)
    ∷ receive
    ∷ send 0
    ∷ receive
    ∷ []

-- The second vendor fails; both goroutines get past their sends.
abbrev pub one_fails : List (Event Millionths)
one_fails =
    fetch_returned 1 (err (sentinel deadline_exceeded))
    ∷ send 1
    ∷ fetch_returned 0 (ok identity)
    ∷ send 0
    ∷ []

abbrev pub on_time : Schedule Millionths
on_time = record { stage_a = both_answer; meanwhile = []; afterwards = [] }
