-- ===== src/Metrics/Emf.antt =====
-- internal/metrics/emf.go: one document in CloudWatch's embedded metric format for an observation. The
-- encoder of JSON is a parameter; a writer keeps the lines that were written.
use fraud_detection_scoring.Prelude.{
  String, List, [], ◌∷◌, ◌++◌, ℤ, pos, quot, str_eq, if◌then◌else◌,
}
use fraud_detection_scoring.Errors.{Result, ok, err}
use fraud_detection_scoring.Float.{Float64, ◌/ᶠ◌}
use fraud_detection_scoring.Metrics.{Observation, Recorder}

mutual
  -- What the document is made of; a member has a key.
  pub data Json (F : Type 0) : Type 0 where
    text : String → Json F
    integer : ℤ → Json F
    number : F → Json F
    array : Items F → Json F
    object : Members F → Json F

  pub data Items (F : Type 0) : Type 0 where
    no_items : Items F
    item : Json F → Items F → Items F

  pub data Members (F : Type 0) : Type 0 where
    no_members : Members F
    member : String → Json F → Members F → Members F

pub record EmfRecorder : Type 0 where
  pub namespace : String

unfoldable pub new_emf_recorder : String → EmfRecorder
new_emf_recorder namespace = record {
  namespace = if str_eq namespace "" then "FraudSignals" else namespace;
}

module _ {F : Type 0} where
  abbrev one_item : Json F → Items F
  one_item j = item j no_items

  abbrev one_member : String → Json F → Members F
  one_member key j = member key j no_members

  -- Two dimension sets: the vendor with the outcome, and the vendor alone.
  abbrev pub dimensions : Json F
  dimensions = array (
      item (array (item (text "Provider") (one_item (text "Outcome"))))
        (one_item (array (one_item (text "Provider")))))

  abbrev pub metric_definitions : Json F
  metric_definitions = array (
      one_item (
        object
          (member "Name" (text "ProviderLatencyMs") (one_member "Unit" (text "Milliseconds")))))

-- A document that cannot be encoded writes nothing.
abbrev pub write_line : Result String → List String → List String
write_line (ok line) w = w ++ line ∷ []
write_line (err e) w = w

module _ {F : Type 0} ⦃fl : Float64 F⦄ where
  -- The clock is in milliseconds; `latency.Microseconds()` is a quotient rounded toward zero.
  unfoldable pub emf_document : EmfRecorder → ℤ → Observation → Json F
  unfolding quot
  emf_document r now o = object (
      member "_aws"
        (object (
          member "Timestamp" (integer now) (
            one_member "CloudWatchMetrics" (
              array (
                one_item (
                  object (
                    member "Namespace" (text r.namespace) (
                      member "Dimensions" dimensions
                        (one_member "Metrics" metric_definitions)))))))))
        (member "Provider" (text o.name) (
          member "Outcome" (text o.outcome) (
            one_member "ProviderLatencyMs"
              (number (fl.of_int (quot o.latency 1000) /ᶠ fl.of_int (pos 1000)))))))

  -- `EMFRecorder.ObserveProvider` at a time, on the writer.
  unfoldable pub emf_recorder : (Json F → Result String) → EmfRecorder → ℤ → Recorder (List String)
  unfolding emf_document
  emf_recorder encode r now = record {
    observe_provider = λ o w. write_line (encode (emf_document r now o)) w;
  }
