-- ===== src/Metrics/Series.antt =====
-- The series that an alarm on a vendor's latency reads, of the documents that emf.go writes. How a
-- document adds to a series is written after the embedded metric format, and not after emf.go.
use mathlib.Core.List.{append_assoc}
use fraud_detection_scoring.Prelude.{
  String, Bool, true, false, ◌&&◌, Option, none, some, List, [], ◌∷◌, ◌++◌, ◌≡◌, refl, str_eq,
  if◌then◌else◌,
}
use fraud_detection_scoring.Metrics.Emf.{
  Json, text, integer, number, array, object, Items, no_items, item, Members, no_members, member,
  EmfRecorder,
}

module _ {F : Type 0} where
  abbrev member_of : String → Members F → Option (Json F)
  member_of key no_members = none
  member_of key (member k j ms) = if str_eq k key then some j else member_of key ms

  -- A field of an object.
  abbrev field : String → Option (Json F) → Option (Json F)
  field key none = none
  field key (some (text s)) = none
  field key (some (integer n)) = none
  field key (some (number x)) = none
  field key (some (array js)) = none
  field key (some (object ms)) = member_of key ms

  abbrev to_list : Items F → List (Json F)
  to_list no_items = []
  to_list (item j js) = j ∷ to_list js

  abbrev elements : Option (Json F) → List (Json F)
  elements none = []
  elements (some (text s)) = []
  elements (some (integer n)) = []
  elements (some (number x)) = []
  elements (some (array js)) = to_list js
  elements (some (object ms)) = []

  abbrev is_text : Option (Json F) → String → Bool
  is_text none t = false
  is_text (some (text s)) t = str_eq s t
  is_text (some (integer n)) t = false
  is_text (some (number x)) t = false
  is_text (some (array js)) t = false
  is_text (some (object ms)) t = false

  abbrev numbers : Option (Json F) → List F
  numbers none = []
  numbers (some (text s)) = []
  numbers (some (integer n)) = []
  numbers (some (number x)) = x ∷ []
  numbers (some (array js)) = []
  numbers (some (object ms)) = []

  -- A dimension set names the dimensions of the series, in its order.
  abbrev same_keys : List (Json F) → List (String × String) → Bool
  same_keys [] [] = true
  same_keys [] (d ∷ ds) = false
  same_keys (k ∷ ks) [] = false
  same_keys (k ∷ ks) (d ∷ ds) = is_text (some k) d.0 && same_keys ks ds

  -- The document's own members have the values of the dimensions.
  abbrev has_dimensions : Json F → List (String × String) → Bool
  has_dimensions root [] = true
  has_dimensions root (d ∷ ds) = is_text (field d.0 (some root)) d.1 && has_dimensions root ds

-- A series: a metric of a namespace under some dimensions.
pub record Series : Type 0 where
  pub namespace : String
  pub metric : String
  pub dimensions : List (String × String)

module _ {F : Type 0} (series : Series) (root : Json F) where
  -- Each definition of the metric takes its value from the member of that name.
  abbrev metric_values : List (Json F) → List F
  metric_values [] = []
  metric_values (m ∷ ms) =
      let rest = metric_values ms in
      if is_text (field "Name" (some m)) series.metric
      then numbers (field series.metric (some root)) ++ rest
      else rest

  abbrev set_values : List (Json F) → List (Json F) → List F
  set_values metrics [] = []
  set_values metrics (s ∷ ss) =
      let rest = set_values metrics ss in
      if same_keys (elements (some s)) series.dimensions && has_dimensions root series.dimensions
      then metric_values metrics ++ rest
      else rest

  abbrev directive_values : List (Json F) → List F
  directive_values [] = []
  directive_values (d ∷ ds) =
      let rest = directive_values ds in
      if is_text (field "Namespace" (some d)) series.namespace
      then set_values (elements (field "Metrics" (some d))) (elements (field "Dimensions" (some d)))
        ++ rest
      else rest

  -- The values that a document adds to a series.
  abbrev pub values_in : List F
  values_in = directive_values (elements (field "CloudWatchMetrics" (field "_aws" (some root))))

module _ {F : Type 0} (series : Series) (decode : String → Json F) where
  -- The values that the lines of a log add to a series.
  abbrev pub read_series : List String → List F
  read_series [] = []
  read_series (l ∷ ls) = values_in series (decode l) ++ read_series ls

  pub read_series-append :
      (xs ys : List String) → read_series (xs ++ ys) ≡ read_series xs ++ read_series ys
  read_series-append [] ys = refl
  read_series-append (x ∷ xs) ys = rw (read_series-append xs ys, append_assoc) refl

-- The series of a vendor, and that of a vendor and an outcome.
abbrev pub of_vendor : EmfRecorder → String → Series
of_vendor r name = record {
  namespace = r.namespace;
  metric = "ProviderLatencyMs";
  dimensions = ("Provider", name) ∷ [];
}

abbrev pub of_outcome : EmfRecorder → String → String → Series
of_outcome r name outcome = record {
  namespace = r.namespace;
  metric = "ProviderLatencyMs";
  dimensions = ("Provider", name) ∷ ("Outcome", outcome) ∷ [];
}
