-- ===== src/Consumer/Concurrent/Runs.antt =====
-- Runs of concurrent deliveries: one step at a time, and what every step keeps.
use fraud_detection_scoring.Prelude.{
  ℕ, ◌≡◌, refl, inl, inr, ◌∙◌, sym, subst, Option, none, some, List, [], ◌∷◌, get_elem?, set,
  Option-cases,
}
use fraud_detection_scoring.Consumer.{Handler, World}
use fraud_detection_scoring.Consumer.Concurrent.{
  Delivery, System, move, put_back, step_of, step, run,
}

module _ {F S R T : Type 0} (h : Handler F S R T) where
  pub run-cons :
      (i : ℕ) (is : List ℕ) (s t : System F S R T)
      → step h i s ≡ some t
      → run h (i ∷ is) s ≡ run h is t
  unfolding run
  run-cons i is s t e = rw (e, run)

  -- What every step keeps, a run keeps.
  pub run-keeps :
      (Q : System F S R T → Type 0)
      → ((i : ℕ) (s t : System F S R T) → step h i s ≡ some t → Q s → Q t)
      → (is : List ℕ) (s t : System F S R T) → run h is s ≡ some t
      → Q s
      → Q t
  unfolding run
  run-keeps Q keep [] s t ran q = let same : s ≡ t = cc in subst Q same q
  run-keeps Q keep (i ∷ is) s t ran q = elim (Option-cases (step h i s)) [
    | inl stuck ↦
        let lost : ◌≡◌ {A = Option (System F S R T)} none (some t) = rw (stuck, run) at ran in
        absurd cc
    | inr (u, e) ↦ run-keeps Q keep is u t (sym (run-cons i is s u e) ∙ ran) (keep i s u e q)
  ]

  abbrev pub IsMove : ℕ → System F S R T → System F S R T → Delivery F → Delivery F → Type 0
  IsMove i s t d d' =
      (get_elem? s.deliveries i ≡ some d)
      × (move h d.event d.is_first d.place s.world ≡ some (d', t.world))
      × (t.deliveries ≡ set s.deliveries i d')

  put_back-some :
      (i : ℕ) (s t : System F S R T) (m : Option (Delivery F × World S R T))
      → put_back h i s m ≡ some t
      → (d' : Delivery F) × (m ≡ some (d', t.world)) × (t.deliveries ≡ set s.deliveries i d')
  put_back-some i s t none e = absurd cc
  put_back-some i s t (some (d', w)) e = (d', cc, cc)

  step_of-some :
      (i : ℕ) (s t : System F S R T) (o : Option (Delivery F))
      → step_of h i s o ≡ some t
      → (d : Delivery F) × (o ≡ some d)
        × (d' : Delivery F) × (move h d.event d.is_first d.place s.world ≡ some (d', t.world))
        × (t.deliveries ≡ set s.deliveries i d')
  unfolding step_of
  step_of-some i s t none e = absurd cc
  step_of-some i s t (some d) e =
      let (d', moved, same) = put_back-some i s t _ e in (d, refl, d', moved, same)

  -- A step is a move of the delivery that the schedule names.
  pub step-IsMove :
      (i : ℕ) (s t : System F S R T)
      → step h i s ≡ some t
      → (d : Delivery F) × (d' : Delivery F) × IsMove i s t d d'
  unfolding step
  step-IsMove i s t e =
      let (d, found, d', moved, same) = step_of-some i s t (get_elem? s.deliveries i) e in
      (d, d', (found, moved, same))
