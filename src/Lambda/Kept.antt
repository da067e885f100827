-- ===== src/Lambda/Kept.antt =====
-- What is done for the messages that Lambda deletes.
use fraud_detection_scoring.Prelude.{String, Bool, List, map}
use fraud_detection_scoring.Audit.{is_seen}
use fraud_detection_scoring.Lambda.{BatchItemFailure}

-- The response names an id.
abbrev pub is_reported : List BatchItemFailure → String → Bool
is_reported failures id = is_seen (map (λ f. f.item_identifier) failures) id
