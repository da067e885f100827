-- ===== src/Metrics/Collected.antt =====
-- What the collector reports of the observations it was given.
use fraud_detection_scoring.Prelude.{
  ℕ, suc, ◌^◌, ◌+◌, ◌<◌, String, Bool, ◌&&◌, Option, none, some, List, [], ◌∷◌, ◌≡◌, refl, inl, inr,
  arith, Bool-cases, ℤ, pos, ◌+ℤ◌, int_laws, length, wrap64, wrap64-add, wrap64-exact, quot,
  IsInt64, lookup-insert, str_eq, eq_iff, if◌then◌else◌,
}
use fraud_detection_scoring.Metrics.{
  Observation, Stat, Collector, new_collector, or_zero, add_latency, collect, stat_of, count_of,
  mean_of, count, avg_latency,
}

-- The collector after a sequence of observations.
abbrev pub observe_all : List Observation → Collector → Collector
observe_all [] c = c
observe_all (o ∷ os) c = observe_all os (collect o c)

abbrev pub is_of : String → String → Observation → Bool
is_of name outcome o = str_eq o.name name && str_eq o.outcome outcome

-- The latencies of a vendor's observations with an outcome.
abbrev pub latencies : String → String → List Observation → List ℤ
latencies name outcome [] = []
latencies name outcome (o ∷ os) =
    let rest = latencies name outcome os in if is_of name outcome o then o.latency ∷ rest else rest

abbrev pub sum : List ℤ → ℤ
sum [] = pos 0
sum (l ∷ ls) = l +ℤ sum ls

abbrev add_all : List ℤ → Option Stat → Option Stat
add_all [] s = s
add_all (l ∷ ls) s = add_all ls (some (add_latency l (or_zero s)))

stat_of-collect :
    (o : Observation) (c : Collector) (name outcome : String)
    → stat_of (collect o c) name outcome ≡ (
        if is_of name outcome o
        then some (add_latency o.latency (or_zero (stat_of c name outcome)))
        else stat_of c name outcome)
unfolding stat_of collect
stat_of-collect o c name outcome = elim (Bool-cases (str_eq o.name name)) [
  | inr e ↦ rw (lookup-insert, e) refl
  | inl e ↦
      let same : o.name ≡ name = ground (arith, eq_iff o.name name) in
      elim (Bool-cases (str_eq o.outcome outcome)) [
        | inr f ↦ rw (lookup-insert, e, lookup-insert, f, same) refl
        | inl f ↦
            let also : o.outcome ≡ outcome = ground (arith, eq_iff o.outcome outcome) in
            rw (lookup-insert, e, lookup-insert, f, same, also) refl
      ]
]

observe_all-stat :
    (os : List Observation) (c : Collector) (name outcome : String)
    → stat_of (observe_all os c) name outcome
      ≡ add_all (latencies name outcome os) (stat_of c name outcome)
observe_all-stat [] c name outcome = refl
observe_all-stat (o ∷ os) c name outcome =
    rw (observe_all-stat os (collect o c) name outcome, stat_of-collect o c name outcome)
      (elim (Bool-cases (is_of name outcome o)) [ inl e ↦ rw e refl | inr e ↦ rw e refl ])

-- The entry of a count and a sum.
abbrev entry : ℕ → ℤ → Stat
entry n t = record { count = wrap64 (pos n); total_nanos = wrap64 t }

add_latency-entry : (l : ℤ) (n : ℕ) (t : ℤ) → add_latency l (entry n t) ≡ entry (suc n) (t +ℤ l)
unfolding add_latency
add_latency-entry l n t =
    let counted : pos n +ℤ pos 1 ≡ pos (suc n) = omega int_laws in
    rw (wrap64-add, wrap64-add, counted) refl

add_all-entry :
    (ls : List ℤ) (n : ℕ) (t : ℤ)
    → add_all ls (some (entry n t)) ≡ some (entry (length ls + n) (t +ℤ sum ls))
add_all-entry [] n t =
    let same : t +ℤ pos 0 ≡ t = omega int_laws in
    let counted : 0 + n ≡ n = omega arith in rw (same, counted) refl
add_all-entry (l ∷ ls) n t =
    let moved : t +ℤ l +ℤ sum ls ≡ t +ℤ (l +ℤ sum ls) = omega int_laws in
    let counted : length ls + suc n ≡ suc (length ls) + n = omega arith in
    rw (add_latency-entry l n t, add_all-entry ls (suc n) (t +ℤ l), moved, counted) refl

abbrev summary : List ℤ → Option Stat
summary [] = none
summary (l ∷ ls) = some (entry (length (l ∷ ls)) (sum (l ∷ ls)))

first-entry : (l : ℤ) → add_latency l (or_zero none) ≡ entry 1 l
unfolding add_latency
first-entry l =
    let counted : pos 0 +ℤ pos 1 ≡ pos 1 = omega int_laws in
    let same : pos 0 +ℤ l ≡ l = omega int_laws in rw (counted, same) refl

add_all-summary : (ls : List ℤ) → add_all ls none ≡ summary ls
add_all-summary [] = refl
add_all-summary (l ∷ ls) =
    let counted : length ls + 1 ≡ suc (length ls) = omega arith in
    rw (first-entry l, add_all-entry ls 1 l, counted) refl

summary-count : (ls : List ℤ) → length ls < 2 ^ 63 → count_of (summary ls) ≡ pos (length ls)
summary-count [] few = refl
summary-count (l ∷ ls) few = wrap64-exact (pos (suc (length ls))) (few, omega arith)

summary-mean :
    (ls : List ℤ)
    → length ls < 2 ^ 63
    → IsInt64 (sum ls)
    → mean_of (summary ls) ≡ quot (sum ls) (length ls)
unfolding quot
summary-mean [] few fits = refl
summary-mean (l ∷ ls) few fits =
    rw (wrap64-exact (pos (suc (length ls))) (few, omega arith), wrap64-exact (l +ℤ sum ls) fits)
      refl

module _ (os : List Observation) (name outcome : String)
    (few : length (latencies name outcome os) < 2 ^ 63) where
  -- The count alone, whatever the latencies are.
  pub collector-counts :
      count (observe_all os new_collector) name outcome ≡ pos (length (latencies name outcome os))
  unfolding count
  collector-counts =
      rw
        (
          observe_all-stat os new_collector name outcome,
          add_all-summary (latencies name outcome os),
        )
        (summary-count (latencies name outcome os) few)

  -- Where a vendor had fewer than 2 ^ 63 observations with an outcome and their latencies' sum fits in
  -- an int64: a collector that was given a sequence of observations, of whatever vendors and outcomes,
  -- counts exactly those of the vendor with the outcome, and reports the mean of their latencies,
  -- rounded toward zero, or zero if there is none.
  pub collector-reports :
      IsInt64 (sum (latencies name outcome os))
      → let c = observe_all os new_collector in
        let ls = latencies name outcome os in
        (count c name outcome ≡ pos (length ls))
        × (avg_latency c name outcome ≡ quot (sum ls) (length ls))
  unfolding avg_latency
  collector-reports fits = (
    collector-counts,
    rw (observe_all-stat os new_collector name outcome, add_all-summary (latencies name outcome os))
        (summary-mean (latencies name outcome os) few fits),
  )
