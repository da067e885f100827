-- ===== src/Tests/Stages.antt =====
-- Stage A fan-ins at concrete schedules.
use fraud_detection_scoring.Prelude.{
  ◌+◌, ◌*◌, ◌≤◌, ◌≡◌, refl, true, false, some, [], ◌∷◌, List, Perm, length, replicate,
}
use fraud_detection_scoring.Errors.{ok, err, sentinel, deadline_exceeded}
use fraud_detection_scoring.Float.{Millionths, millionths_float}
use fraud_detection_scoring.Domain.{RiskData}
use fraud_detection_scoring.Scorer.FanIn.{
  sending, exited, FanIn, Event, fetch_returned, send, receive, deadline, is_done, start, step, run,
}
use fraud_detection_scoring.Scorer.FanIn.Balance.{unsent}
use fraud_detection_scoring.Scorer.FanIn.Conservation.{successes}
use fraud_detection_scoring.Scorer.FanIn.Frame.{has_deadline}
use fraud_detection_scoring.Scorer.FanIn.Stages.{StageAResult, production, naive, zero_risk_data}
use fraud_detection_scoring.Scorer.FanIn.Delivery.{
  production_complete, production_advances, naive_starves, send_never_blocks,
}
use fraud_detection_scoring.Scorer.FanIn.Progress.{CanGoOn, production_terminates}
use fraud_detection_scoring.Tests.Samples.{identity, txn, both_answer, one_fails}

runner : Unit {0}
unfolding run step start production naive
runner = tt

abbrev finished : FanIn Millionths (StageAResult Millionths)
finished = record {
  goroutines = exited ∷ exited ∷ [];
  results = [];
  capacity = 2;
  remaining = 0;
  collected = txn ∷ identity ∷ [];
  expired = false;
  observed = txn ∷ identity ∷ [];
}

run-finished : run production true both_answer (start 2) ≡ some finished
unfolding runner
run-finished = refl

production_complete_example :
    (unsent finished.goroutines ≡ 0) × Perm finished.collected (successes both_answer)
production_complete_example = production_complete true 2 both_answer finished run-finished refl refl

abbrev resolved : FanIn Millionths (StageAResult Millionths)
resolved = record {
  goroutines = exited ∷ exited ∷ [];
  results =
      record { datum = zero_risk_data; is_ok = false }
      ∷ record { datum = identity; is_ok = true }
      ∷ [];
  capacity = 2;
  remaining = 2;
  collected = [];
  expired = false;
  observed = identity ∷ [];
}

run-resolved : run production true one_fails (start 2) ≡ some resolved
unfolding runner
run-resolved = refl

production_advances_example :
    (t : FanIn Millionths (StageAResult Millionths)) × (run production true
        (replicate (length resolved.results) receive)
        resolved
      ≡ some t)
    × (is_done t ≡ true)
    × (t.expired ≡ false)
production_advances_example = production_advances true 2 one_fails resolved run-resolved refl refl

production_terminates_example :
    (length one_fails ≤ 3 * 2 + 1) × (is_done resolved ≡ false → CanGoOn production true resolved)
production_terminates_example = production_terminates true 2 one_fails resolved run-resolved

-- The naive fan-in on a failure waits for the deadline.
abbrev starved : List (Event Millionths)
starved =
    fetch_returned 1 (err (sentinel deadline_exceeded))
    ∷ fetch_returned 0 (ok identity)
    ∷ send 0
    ∷ receive
    ∷ deadline
    ∷ []

abbrev starved_state : FanIn Millionths (RiskData Millionths)
starved_state = record {
  goroutines = exited ∷ exited ∷ [];
  results = [];
  capacity = 2;
  remaining = 1;
  collected = identity ∷ [];
  expired = true;
  observed = [];
}

run-starved : run naive false starved (start 2) ≡ some starved_state
unfolding runner
run-starved = refl

naive_starves_example : has_deadline starved ≡ true
naive_starves_example = naive_starves false 2 starved starved_state run-starved refl refl

-- A vendor that answers after the loop has gone: its goroutine can still send.
abbrev late : List (Event Millionths)
late = deadline ∷ fetch_returned 0 (ok identity) ∷ []

abbrev late_state : FanIn Millionths (RiskData Millionths)
late_state = record {
  goroutines = sending identity ∷ [];
  results = [];
  capacity = 1;
  remaining = 1;
  collected = [];
  expired = true;
  observed = [];
}

run-late : run naive false late (start 1) ≡ some late_state
unfolding runner
run-late = refl

send_never_blocks_example :
    (t : FanIn Millionths (RiskData Millionths)) × (step naive false (send 0) late_state ≡ some t)
send_never_blocks_example = send_never_blocks naive false 1 late late_state 0 identity run-late refl
