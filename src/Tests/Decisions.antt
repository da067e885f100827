-- ===== src/Tests/Decisions.antt =====
-- `decide` at concrete signals.
use mathlib.Core.List.Perm
use fraud_detection_scoring.Prelude.{
  ◌≡◌, refl, ◌↔◌, ◌≢◌, true, false, [], ◌∷◌, map, Perm, ◌+ℤ◌, ◌*ℤ◌, IsAscending,
}
use fraud_detection_scoring.Prelude.Sorting.{sort_strings}
use fraud_detection_scoring.Float.{Millionths, millionths_float}
use fraud_detection_scoring.Domain.{
  RiskData, decision_approve, decision_decline, decision_manual_review,
}
use fraud_detection_scoring.Scorer.{
  decide, totals, add_signal, aggregate_score, is_uncovered, apply_thresholds,
}
use fraud_detection_scoring.Scorer.Decide.{
  IsCovered, mean_score, decide-eq_iff, signals_used-faithful,
}
use fraud_detection_scoring.GrpcApi.{to_response}
use fraud_detection_scoring.GrpcApi.Named.{IsDecision, decision_of, decide-named}
use fraud_detection_scoring.Tests.Samples.{cfg, identity, txn, bureau, clean}

decider : Unit {0}
unfolding decide totals add_signal aggregate_score is_uncovered apply_thresholds ◌+ℤ◌ ◌*ℤ◌
    sort_strings
decider = tt

declined : (decide cfg (identity ∷ txn ∷ bureau ∷ [])).decision ≡ decision_decline
unfolding decider
declined = refl

approved : (decide cfg (clean ∷ clean ∷ [])).decision ≡ decision_approve
unfolding decider
approved = refl

one_signal : (decide cfg (identity ∷ [])).decision ≡ decision_manual_review
unfolding decider
one_signal = refl

named :
    (decide cfg (txn ∷ identity ∷ bureau ∷ [])).signals_used
    ≡ "credit_bureau" ∷ "identity_verify" ∷ "txn_history" ∷ []
unfolding decider
named = refl

decide-eq_iff_example :
    let collected = identity ∷ txn ∷ [] in
    (((decide cfg collected).decision ≡ decision_decline) ↔ (
      (◌≢◌ collected [])
      × IsCovered cfg collected
      × (millionths_float.le cfg.decline_above (mean_score collected) ≡ true)))
    × (((decide cfg collected).decision ≡ decision_approve) ↔ (
        (◌≢◌ collected [])
        × IsCovered cfg collected
        × (millionths_float.le (mean_score collected) cfg.approve_below ≡ true)
        × (millionths_float.le cfg.decline_above (mean_score collected) ≡ false)))
decide-eq_iff_example = decide-eq_iff cfg (identity ∷ txn ∷ [])

signals_used_example :
    Perm
      (decide cfg (identity ∷ txn ∷ [])).signals_used
      (map (λ (r : RiskData Millionths). r.source) (identity ∷ txn ∷ []))
    × IsAscending (decide cfg (identity ∷ txn ∷ [])).signals_used
    × ((decide cfg (identity ∷ txn ∷ [])).signals_used
        ≡ (decide cfg (txn ∷ identity ∷ [])).signals_used)
signals_used_example =
    signals_used-faithful cfg (identity ∷ txn ∷ []) (txn ∷ identity ∷ [])
      (Perm.swap txn identity [])

decide-named_example :
    let res = decide cfg (identity ∷ txn ∷ []) in
    IsDecision res.decision
    × (decision_of (to_response res).decision ≡ res.decision)
    × ((to_response res).score ≡ res.score)
    × ((to_response res).signals_used ≡ res.signals_used)
    × ((to_response res).logic_version ≡ res.logic_version)
decide-named_example = decide-named cfg (identity ∷ txn ∷ [])
