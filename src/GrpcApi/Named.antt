-- ===== src/GrpcApi/Named.antt =====
-- A decision over the wire: the enum of the proto names what was decided.
use fraud_detection_scoring.Prelude.{
  Bool, true, false, List, [], ◌∷◌, ◌≡◌, ◌⊎◌, inl, inr, refl, if◌then◌else◌,
}
use fraud_detection_scoring.Float.{Float64}
use fraud_detection_scoring.Domain.{
  Decision, decision_approve, decision_decline, decision_manual_review, RiskData,
}
use fraud_detection_scoring.Scorer.{Config, apply_thresholds, decide}
use fraud_detection_scoring.GrpcApi.{
  PbDecision, unspecified, approve, decline, manual_review, to_proto_decision, to_response,
}

-- A `Decision` is a text; these are its values.
abbrev pub IsDecision : Decision → Type 0
IsDecision d = (d ≡ decision_approve) ⊎ ((d ≡ decision_decline) ⊎ (d ≡ decision_manual_review))

-- What a client reads.
abbrev pub decision_of : PbDecision → Decision
decision_of unspecified = ""
decision_of approve = decision_approve
decision_of decline = decision_decline
decision_of manual_review = decision_manual_review

to_proto_decision-named : (d : Decision) → IsDecision d → decision_of (to_proto_decision d) ≡ d
unfolding to_proto_decision
to_proto_decision-named d (inl e) = rw e refl
to_proto_decision-named d (inr (inl e)) = rw e refl
to_proto_decision-named d (inr (inr e)) = rw e refl

if-IsDecision :
    (b : Bool) (d e : Decision) → IsDecision d → IsDecision e → IsDecision (if b then d else e)
if-IsDecision true d e p q = p
if-IsDecision false d e p q = q

module _ {F : Type 0} ⦃fl : Float64 F⦄ (cfg : Config F) where
  apply_thresholds-IsDecision : (score : F) → IsDecision (apply_thresholds cfg score)
  unfolding apply_thresholds
  apply_thresholds-IsDecision score =
      if-IsDecision _ _ _ (inr (inl refl)) (if-IsDecision _ _ _ (inl refl) (inr (inr refl)))

  decide-IsDecision : (collected : List (RiskData F)) → IsDecision (decide cfg collected).decision
  unfolding decide
  decide-IsDecision [] = inr (inr refl)
  decide-IsDecision (d ∷ ds) = if-IsDecision _ _ _ (inr (inr refl)) (apply_thresholds-IsDecision _)

  -- Whatever was collected, the decision is one of the three, and the response over gRPC names it: the
  -- enum is never left unspecified, and a client reads back the decision, the score, the signals and the
  -- version.
  pub decide-named :
      (collected : List (RiskData F))
      → let res = decide cfg collected in
        IsDecision res.decision
        × (decision_of (to_response res).decision ≡ res.decision)
        × ((to_response res).score ≡ res.score)
        × ((to_response res).signals_used ≡ res.signals_used)
        × ((to_response res).logic_version ≡ res.logic_version)
  unfolding to_response
  decide-named collected =
      let known = decide-IsDecision collected in
      (known, to_proto_decision-named _ known, refl, refl, refl)
