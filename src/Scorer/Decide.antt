-- ===== src/Scorer/Decide.antt =====
-- What `decide` of internal/scorer/pipeline.go guarantees on every input.
use mathlib.Core.List.{foldl}
use mathlib.Core.List.Perm
use fraud_detection_scoring.Prelude.{
  ◌≡◌, refl, sym, ap, ◌≢◌, ◌↔◌, true, false, List, [], ◌∷◌, map, Perm, arith, length, pos, ◌≤ℤ◌,
  eq_iff, sort_strings, sort_strings-nil, sort_strings_of_perm, sort_strings-perm, IsAscending,
  sort_strings-IsAscending,
}
use fraud_detection_scoring.Float.{Float64, IsIeee, ◌*ᶠ◌, ◌/ᶠ◌}
use fraud_detection_scoring.Domain.{RiskData, decision_approve, decision_decline}
use fraud_detection_scoring.Scorer.{
  Config, add_signal, totals, aggregate_score, is_uncovered, apply_thresholds, decide,
}

module _ {F : Type 0} ⦃fl : Float64 F⦄ where
  -- Enough signals, and an average confidence that is not below the least.
  abbrev pub IsCovered : Config F → List (RiskData F) → Type 0
  IsCovered cfg collected =
      (cfg.min_signals ≤ℤ pos (length collected))
      × (fl.lt ((totals collected).conf_sum /ᶠ fl.of_int (pos (length collected)))
            cfg.min_confidence
          ≡ false)

  -- The weighted mean of the signals' scores.
  abbrev pub mean_score : List (RiskData F) → F
  mean_score collected = aggregate_score (totals collected)

  is_uncovered_iff :
      (cfg : Config F) (collected : List (RiskData F))
      → (is_uncovered cfg collected ≡ false) ↔ IsCovered cfg collected
  unfolding is_uncovered
  is_uncovered_iff cfg collected = ground arith

  -- A request is declined exactly when there is a signal, the coverage gate passes, and the mean
  -- score reaches the decline threshold. So no application is declined on missing data.
  decide-eq-decline_iff :
      (cfg : Config F) (collected : List (RiskData F))
      → ((decide cfg collected).decision ≡ decision_decline) ↔ (
          (collected ≢ [])
          × IsCovered cfg collected
          × (fl.le cfg.decline_above (mean_score collected) ≡ true))
  unfolding decide apply_thresholds
  decide-eq-decline_iff cfg [] = ground (arith, eq_iff "MANUAL_REVIEW" "DECLINE")
  decide-eq-decline_iff cfg (d ∷ ds) = ground (
    arith,
    is_uncovered_iff cfg (d ∷ ds),
    eq_iff "MANUAL_REVIEW" "DECLINE",
    eq_iff "APPROVE" "DECLINE",
  )

  -- A request is approved exactly when there is a signal, the coverage gate passes, the mean
  -- score is at most the approve threshold and does not reach the decline threshold.
  decide-eq-approve_iff :
      (cfg : Config F) (collected : List (RiskData F))
      → ((decide cfg collected).decision ≡ decision_approve) ↔ (
          (collected ≢ [])
          × IsCovered cfg collected
          × (fl.le (mean_score collected) cfg.approve_below ≡ true)
          × (fl.le cfg.decline_above (mean_score collected) ≡ false))
  unfolding decide apply_thresholds
  decide-eq-approve_iff cfg [] = ground (arith, eq_iff "MANUAL_REVIEW" "APPROVE")
  decide-eq-approve_iff cfg (d ∷ ds) = ground (
    arith,
    is_uncovered_iff cfg (d ∷ ds),
    eq_iff "MANUAL_REVIEW" "APPROVE",
    eq_iff "DECLINE" "APPROVE",
  )

  -- A request is declined exactly when there is a signal, the coverage gate passes, and the mean
  -- score reaches the decline threshold; and approved exactly when there is a signal, the coverage
  -- gate passes, and the mean score is at most the approve threshold and does not reach the decline
  -- threshold. So no application is declined or approved on missing data.
  pub decide-eq_iff :
      (cfg : Config F) (collected : List (RiskData F))
      → (((decide cfg collected).decision ≡ decision_decline) ↔ (
          (collected ≢ [])
          × IsCovered cfg collected
          × (fl.le cfg.decline_above (mean_score collected) ≡ true)))
        × (((decide cfg collected).decision ≡ decision_approve) ↔ (
            (collected ≢ [])
            × IsCovered cfg collected
            × (fl.le (mean_score collected) cfg.approve_below ≡ true)
            × (fl.le cfg.decline_above (mean_score collected) ≡ false)))
  decide-eq_iff cfg collected =
      (decide-eq-decline_iff cfg collected, decide-eq-approve_iff cfg collected)

  signals_used_lem :
      (cfg : Config F) (collected : List (RiskData F))
      → (decide cfg collected).signals_used ≡ sort_strings (map (λ r. r.source) collected)
  unfolding decide
  signals_used_lem cfg [] = sym sort_strings-nil
  signals_used_lem cfg (d ∷ ds) = refl

  -- The signals reported are the sources collected, each as often as it was collected, in
  -- ascending order; the order in which the vendors' results raced in does not show.
  pub signals_used-faithful :
      (cfg : Config F) (collected raced : List (RiskData F))
      → Perm collected raced
      → Perm (decide cfg collected).signals_used (map (λ r. r.source) collected)
        × IsAscending (decide cfg collected).signals_used
        × ((decide cfg collected).signals_used ≡ (decide cfg raced).signals_used)
  signals_used-faithful cfg collected raced p =
      rw (signals_used_lem, signals_used_lem)
        (
          sort_strings-perm _,
          sort_strings-IsAscending _,
          sort_strings_of_perm (Perm.map (λ r. r.source) p),
        )

  totals_swap :
      IsIeee F
      → (a b : RiskData F) (rest : List (RiskData F))
      → totals (a ∷ b ∷ rest) ≡ totals (b ∷ a ∷ rest)
  unfolding totals add_signal
  totals_swap law a b rest =
      ap (λ s. foldl add_signal s rest)
        (λ i. record {
          weighted_sum = law.add_swap (a.score *ᶠ a.weight) (b.score *ᶠ b.weight) i;
          weight_total = law.add_swap a.weight b.weight i;
          conf_sum = law.add_swap a.confidence b.confidence i;
        })

  -- The whole result is the same whichever of the first two vendors answered first.
  decide_swap :
      (cfg : Config F) (a b : RiskData F) (rest : List (RiskData F))
      → IsIeee F
      → decide cfg (a ∷ b ∷ rest) ≡ decide cfg (b ∷ a ∷ rest)
  unfolding decide is_uncovered
  decide_swap cfg a b rest law = rw (totals_swap law a b rest) (
      ap (λ used. record (decide cfg (b ∷ a ∷ rest)) { signals_used = used })
        (sort_strings_of_perm (Perm.swap b.source a.source _)))
