-- ===== src/Worker.antt =====
-- cmd/worker/main.go: the polling loop. What SQS returns is an argument; the loop ends with the
-- list, since a round that follows is one more element.
pub mod Deleted
use fraud_detection_scoring.Prelude.{
  Option, String, Bool, true, false, List, [], ◌∷◌, ◌++◌, ◌||◌, str_eq, if◌then◌else◌,
}
use fraud_detection_scoring.Errors.{Result, ok, err, exit}
use fraud_detection_scoring.Config.{Environment, get_env}
use fraud_detection_scoring.Aws.{dynamo}
use fraud_detection_scoring.Audit.Dynamo.{Table}
use fraud_detection_scoring.Consumer.Sinks.{LoggingSink}
use fraud_detection_scoring.Consumer.Deployed.{deployed_handler}
use fraud_detection_scoring.Audit.{is_seen}
use fraud_detection_scoring.Events.{ScoringEvent}
use fraud_detection_scoring.Consumer.{Handler, World, Message, process_batch}

-- One turn of the loop: the context is done, the call fails (while it is done or not), or messages
-- come, maybe none.
pub data Received : Type 0 where
  shut_down : Received
  receive_failed : (shutting_down : Bool) → Received
  batch : List Message → Received

-- `byID[id] = m`
abbrev put_message : Message → List Message → List Message
put_message m [] = m ∷ []
put_message m (x ∷ xs) = if str_eq x.id m.id then m ∷ xs else x ∷ put_message m xs

abbrev by_id_from : List Message → List Message → List Message
by_id_from acc [] = acc
by_id_from acc (m ∷ ms) = by_id_from (put_message m acc) ms

-- The entries of the map whose ids did not fail; Go ranges over them in any order.
abbrev keep_handled : List String → List Message → List Message
keep_handled failed [] = []
keep_handled failed (m ∷ ms) =
    let rest = keep_handled failed ms in if is_seen failed m.id then rest else m ∷ rest

unfoldable pub to_delete : List String → List Message → List Message
to_delete failed ms = keep_handled failed (by_id_from [] ms)

module _ {F S R T : Type 0} (h : Handler F S R T)
    (unmarshal : String → Result (ScoringEvent F)) where
  -- A round on a batch: what is deleted from the queue.
  unfoldable pub handle_batch : List Message → World S R T → List Message × World S R T
  unfolding to_delete
  handle_batch ms w = let (failed, t) = process_batch h unmarshal ms w in (to_delete failed ms, t)

  -- All that is deleted, in order, and the stores at the end.
  unfoldable pub poll : List Received → World S R T → List Message × World S R T
  unfolding handle_batch
  poll [] w = ([], w)
  poll (shut_down ∷ rs) w = ([], w)
  poll (receive_failed true ∷ rs) w = ([], w)
  poll (receive_failed false ∷ rs) w = poll rs w
  poll (batch ms ∷ rs) w =
      let (deleted, t) = handle_batch ms w in let (later, u) = poll rs t in (deleted ++ later, u)

-- `main` before it polls: the queue's URL and the handler, or where it exits. With a client, a table
-- is known by its name.
module _ {F I T : Type 0} where
  abbrev connected :
      Environment
      → String
      → String
      → Result (Option String → String → Table F I T)
      → Result (String × Handler F T (LoggingSink F) (LoggingSink String))
  connected env queue_url table (err e) = exit "failed to load AWS config"
  connected env queue_url table (ok aws) = ok (queue_url, deployed_handler (dynamo env aws table))

  unfoldable pub start_worker :
      Environment
      → Result (Option String → String → Table F I T)
      → Result (String × Handler F T (LoggingSink F) (LoggingSink String))
  unfolding get_env dynamo
  start_worker env aws =
      let queue_url = get_env env "AUDIT_QUEUE_URL" "" in
      let table = get_env env "AUDIT_TABLE" "" in
      if str_eq queue_url "" || str_eq table ""
      then exit "AUDIT_QUEUE_URL and AUDIT_TABLE are required"
      else connected env queue_url table aws
