-- ===== src/Tests/Alarms.antt =====
-- The documents of a few observations, and the series that alarms read of them.
use Prim.Native.String
use fraud_detection_scoring.Prelude.{
  String, List, [], ◌∷◌, ◌++◌, ◌≡◌, refl, ℤ, pos, ◌*ℤ◌, quot, str_eq, if◌then◌else◌,
}
use fraud_detection_scoring.Errors.{Result, ok}
use fraud_detection_scoring.Float.{Millionths, millionths_float}
use fraud_detection_scoring.Metrics.{outcome_success, outcome_timeout, Observation}
use fraud_detection_scoring.Metrics.Emf.{
  Json, text, integer, number, array, object, Members, no_members, member, EmfRecorder,
  new_emf_recorder, emf_document, emf_recorder,
}
use fraud_detection_scoring.Metrics.Collected.{is_of}
use fraud_detection_scoring.Metrics.Series.{read_series, of_vendor, of_outcome}
use fraud_detection_scoring.Metrics.Alarmed.{observed, record_all, record_all-feeds}

abbrev recorder : EmfRecorder
recorder = record { namespace = "FraudSignals" }

defaulted : new_emf_recorder "" ≡ recorder
unfolding new_emf_recorder
defaulted = refl

abbrev slow : Observation
slow = record { name = "txn_history"; outcome = outcome_timeout; latency = pos 400000999 }

abbrev fast : Observation
fast = record { name = "txn_history"; outcome = outcome_success; latency = pos 12500000 }

abbrev elsewhere : Observation
elsewhere = record { name = "credit_bureau"; outcome = outcome_success; latency = pos 7000000 }

abbrev seen : List (ℤ × Observation)
seen = (pos 1, slow) ∷ (pos 2, elsewhere) ∷ (pos 3, fast) ∷ []

abbrev document : ℤ → Observation → Json Millionths
document = emf_document recorder

-- A line is the vendor with the outcome.
abbrev first_two : Members Millionths → String
first_two no_members = ""
first_two (member k (text s) ms) = String.◌++◌ s (first_two ms)
first_two (member k (integer n) ms) = first_two ms
first_two (member k (number x) ms) = first_two ms
first_two (member k (array js) ms) = first_two ms
first_two (member k (object js) ms) = first_two ms

abbrev encode : Json Millionths → Result String
encode (text s) = ok s
encode (integer n) = ok ""
encode (number x) = ok ""
encode (array js) = ok ""
encode (object ms) = ok (first_two ms)

abbrev decode : String → Json Millionths
decode line =
    if str_eq line "txn_historytimeout"
    then document (pos 1) slow
    else if str_eq line "txn_historysuccess"
    then document (pos 3) fast
    else document (pos 2) elsewhere

latencies :
    read_series (of_vendor recorder "txn_history") decode (record_all encode recorder seen [])
    ≡ pos 400000000 ∷ pos 12500000 ∷ []
unfolding emf_recorder ◌*ℤ◌ quot
latencies = refl

record_all-feeds_example :
    let log = record_all encode recorder seen [] in
    (read_series (of_vendor recorder "txn_history") decode log
      ≡ [] ++ observed (λ o. str_eq o.name "txn_history") seen)
    × (read_series (of_outcome recorder "txn_history" outcome_success) decode log
        ≡ [] ++ observed (is_of "txn_history" outcome_success) seen)
unfolding emf_document
record_all-feeds_example =
    record_all-feeds encode recorder decode seen [] "txn_history" outcome_success (
      ("txn_historytimeout", refl, refl),
      (("credit_bureausuccess", refl, refl), (("txn_historysuccess", refl, refl), tt)),
    )
