-- ===== src/Domain.antt =====
-- internal/domain/domain.go: the business types. The float64 fields are of the parameter `F`.
use fraud_detection_scoring.Prelude.{String, List, ℤ}

-- A typed string, so that any text may arrive from the wire.
abbrev pub Decision : Type 0
Decision = String

abbrev pub decision_approve : Decision
decision_approve = "APPROVE"

abbrev pub decision_decline : Decision
decision_decline = "DECLINE"

abbrev pub decision_manual_review : Decision
decision_manual_review = "MANUAL_REVIEW"

pub record RiskData (F : Type 0) : Type 0 where
  pub source : String
  pub score : F
  pub confidence : F
  pub weight : F

pub record Application (F : Type 0) : Type 0 where
  pub applicant_id : String
  pub product : String
  pub full_name : String
  pub email : String
  pub country : String
  pub age_years : ℤ
  pub requested_amount : F
  pub account_age_days : ℤ
  pub recent_txn_count : ℤ
  pub prior_signals : List (RiskData F)

pub record ScoreResult (F : Type 0) : Type 0 where
  pub score : F
  pub decision : Decision
  pub signals_used : List String
  pub logic_version : String
