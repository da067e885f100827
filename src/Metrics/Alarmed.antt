-- ===== src/Metrics/Alarmed.antt =====
-- What an alarm on a vendor's latency sees of the documents that internal/metrics/emf.go writes.
use mathlib.Core.List.{append_assoc, append-nil}
use fraud_detection_scoring.Prelude.{
  String, Bool, true, false, List, [], ◌∷◌, ◌++◌, All, ◌≡◌, refl, sym, ◌∙◌, ap, inl, inr, arith,
  Bool-cases, ℤ, pos, quot, str_eq, eq_iff, if◌then◌else◌,
}
use fraud_detection_scoring.Errors.{Result, ok}
use fraud_detection_scoring.Float.{Float64, ◌/ᶠ◌}
use fraud_detection_scoring.Metrics.{Observation}
use fraud_detection_scoring.Metrics.Emf.{Json, EmfRecorder, emf_document, emf_recorder}
use fraud_detection_scoring.Metrics.Collected.{is_of}
use fraud_detection_scoring.Metrics.Series.{
  Series, values_in, read_series, read_series-append, of_vendor, of_outcome,
}

namespace_self : (r : EmfRecorder) → str_eq r.namespace r.namespace ≡ true
namespace_self r = ground (arith, eq_iff r.namespace r.namespace)

module _ {F : Type 0} ⦃fl : Float64 F⦄ where
  -- A latency in milliseconds, from whole microseconds.
  abbrev pub milliseconds : Observation → F
  milliseconds o = fl.of_int (quot o.latency 1000) /ᶠ fl.of_int (pos 1000)

  -- The latencies of the observations that pass a test, in order.
  abbrev pub observed : (Observation → Bool) → List (ℤ × Observation) → List F
  observed keep [] = []
  observed keep ((now, o) ∷ os) =
      let rest = observed keep os in if keep o then milliseconds o ∷ rest else rest

  values_in-of_vendor :
      (r : EmfRecorder) (name : String) (now : ℤ) (o : Observation)
      → values_in (of_vendor r name) (emf_document r now o)
        ≡ (if str_eq o.name name then milliseconds o ∷ [] else [])
  unfolding emf_document
  values_in-of_vendor r name now o = elim (Bool-cases (str_eq o.name name)) [
    | inl e ↦ rw (namespace_self r, e) refl
    | inr e ↦ rw (namespace_self r, e) refl
  ]

  values_in-of_outcome :
      (r : EmfRecorder) (name outcome : String) (now : ℤ) (o : Observation)
      → values_in (of_outcome r name outcome) (emf_document r now o)
        ≡ (if is_of name outcome o then milliseconds o ∷ [] else [])
  unfolding emf_document
  values_in-of_outcome r name outcome now o = elim (Bool-cases (str_eq o.name name)) [
    | inl e ↦ elim (Bool-cases (str_eq o.outcome outcome)) [
      | inl f ↦ rw (namespace_self r, e, f) refl
      | inr f ↦ rw (namespace_self r, e, f) refl
    ]
    | inr e ↦ rw (namespace_self r, e) refl
  ]

module _ {F : Type 0} ⦃fl : Float64 F⦄ (encode : Json F → Result String) (r : EmfRecorder) where
  -- The log after some observations, each at the time of its document.
  abbrev pub record_all : List (ℤ × Observation) → List String → List String
  record_all [] w = w
  record_all ((now, o) ∷ os) w = record_all os ((emf_recorder encode r now).observe_provider o w)

  module _ (decode : String → Json F) where
    -- The document of an observation can be encoded, and is read back.
    abbrev pub IsReadable : ℤ × Observation → Type 0
    IsReadable (now, o) =
        (line : String) × (encode (emf_document r now o) ≡ ok line)
        × (decode line ≡ emf_document r now o)

    observe-line :
        (series : Series) (now : ℤ) (o : Observation) (w : List String)
        → IsReadable (now, o)
        → read_series series decode ((emf_recorder encode r now).observe_provider o w)
          ≡ read_series series decode w ++ values_in series (emf_document r now o)
    unfolding emf_recorder
    observe-line series now o w (line, written, back) =
        rw (written, read_series-append series decode w (line ∷ []), back, append-nil) refl

    choose :
        (b : Bool) (x : F) (xs ys : List F)
        → (xs ++ (if b then x ∷ [] else [])) ++ ys ≡ xs ++ (if b then x ∷ ys else ys)
    choose true x xs ys = append_assoc xs (x ∷ []) ys
    choose false x xs ys = rw append-nil

    record_all-series :
        (series : Series) (keep : Observation → Bool) (os : List (ℤ × Observation))
        (w : List String)
        → All IsReadable os
        → ((now : ℤ) (o : Observation)
            → values_in {F = F} series (emf_document r now o)
              ≡ (if keep o then milliseconds o ∷ [] else []))
        → read_series series decode (record_all os w)
          ≡ read_series series decode w ++ observed keep os
    record_all-series series keep [] w _ law = sym (append-nil _)
    record_all-series series keep ((now, o) ∷ os) w (readable, rest) law =
        record_all-series series keep os ((emf_recorder encode r now).observe_provider o w) rest law
        ∙ ap (λ xs. xs ++ observed keep os)
            (observe-line series now o w readable
              ∙ ap (λ xs. read_series series decode w ++ xs) (law now o))
        ∙ choose (keep o) (milliseconds o) (read_series series decode w) (observed keep os)

    -- Of a sequence of observations whose documents can be encoded and are read back, and that are
    -- recorded to a log: the series that an alarm on a vendor reads gains the latencies of all that
    -- vendor's observations, whatever their outcomes, and of no other's; and the series of the vendor
    -- and an outcome gains those of its observations with that outcome; each in order, in milliseconds
    -- from whole microseconds.
    pub record_all-feeds :
        (os : List (ℤ × Observation)) (w : List String) (name outcome : String)
        → All IsReadable os
        → let log = record_all os w in
          (read_series (of_vendor r name) decode log
            ≡ read_series (of_vendor r name) decode w ++ observed (λ o. str_eq o.name name) os)
          × (read_series (of_outcome r name outcome) decode log
              ≡ read_series (of_outcome r name outcome) decode w
                ++ observed (is_of name outcome) os)
    record_all-feeds os w name outcome readable = (
      record_all-series (of_vendor r name) (λ o. str_eq o.name name) os w readable
          (values_in-of_vendor r name),
      record_all-series (of_outcome r name outcome) (is_of name outcome) os w readable
          (values_in-of_outcome r name outcome),
    )
