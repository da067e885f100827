-- ===== src/Scorer/FanIn/Conservation.antt =====
-- No result is lost, invented or counted twice: the successes of a schedule are what the loop has
-- collected, what is queued in the channel, and what goroutines are about to send.
use mathlib.Core.List.{append_assoc, append-nil, perm_append_comm}
use mathlib.Core.List.Perm
use fraud_detection_scoring.Prelude.{
  ℕ, zero, suc, ◌≡◌, refl, sym, Bool, true, false, Option, some, List, [], ◌∷◌, ◌++◌, Perm, arith,
  get_elem?, set, replicate, if◌then◌else◌,
}
use fraud_detection_scoring.Errors.{Result}
use fraud_detection_scoring.Domain.{RiskData}
use fraud_detection_scoring.Scorer.FanIn.{
  Goroutine, fetching, sending, exited, FanIn, Event, fetch_returned, send, receive, deadline,
  Protocol, resolve, data_of, start, step_fetch, step_send, step_receive, step, run,
}
use fraud_detection_scoring.Scorer.FanIn.Runs.{run-cons}

module _ {A : Type 0} where
  -- The last part of a sum of lists may come first.
  pub perm_rotate : (xs ys zs : List A) → Perm (xs ++ (ys ++ zs)) (ys ++ (xs ++ zs))
  perm_rotate xs ys zs =
      rw (← append_assoc, ← append_assoc) (Perm.append_right zs (perm_append_comm xs ys))

  perm_to_end : (ws xs ys zs : List A) → Perm (ws ++ (xs ++ (zs ++ ys))) ((ws ++ (xs ++ ys)) ++ zs)
  perm_to_end ws xs ys zs =
      rw (append_assoc ws (xs ++ ys) zs, append_assoc xs ys zs)
        (Perm.append_left ws (Perm.append_left xs (perm_append_comm zs ys)))

-- The successful results of a schedule, in the order in which the fetches returned.
abbrev pub successes : {F : Type 0} → List (Event F) → List (RiskData F)
successes [] = []
successes (fetch_returned i r ∷ es) = data_of r ++ successes es
successes (_ ∷ es) = successes es

pub successes-cons :
    {F : Type 0} (e : Event F) (es : List (Event F))
    → successes (e ∷ es) ≡ successes (e ∷ []) ++ successes es
successes-cons (fetch_returned i r) es = rw append-nil
successes-cons (send i) es = refl
successes-cons receive es = refl
successes-cons deadline es = refl

module _ {F M : Type 0} (p : Protocol F M) where
  abbrev pub held : Goroutine M → List (RiskData F)
  held (sending m) = p.content m
  held _ = []

  abbrev pub inflight : List (Goroutine M) → List (RiskData F)
  inflight [] = []
  inflight (g ∷ gs) = held g ++ inflight gs

  abbrev pub queued : List M → List (RiskData F)
  queued [] = []
  queued (m ∷ ms) = p.content m ++ queued ms

  abbrev pub bag : FanIn F M → List (RiskData F)
  bag s = s.collected ++ (queued s.results ++ inflight s.goroutines)

  -- A goroutine sends its result if that is a success, and nothing else that is collected.
  abbrev pub IsFaithful : Type 0
  IsFaithful = (r : Result (RiskData F)) → held (resolve (p.message_for r)) ≡ data_of r

  inflight-set :
      (gs : List (Goroutine M)) (i : ℕ) (g h : Goroutine M)
      → get_elem? gs i ≡ some g
      → Perm (held g ++ inflight (set gs i h)) (held h ++ inflight gs)
  inflight-set [] i g h e = cc
  inflight-set (x ∷ gs) zero g h e =
      let same : x ≡ g = ground arith in rw same (perm_rotate (held g) (held h) (inflight gs))
  inflight-set (x ∷ gs) (suc i) g h e =
      Perm.trans (perm_rotate (held g) (held x) (inflight (set gs i h))) (
        Perm.trans (Perm.append_left (held x) (inflight-set gs i g h e))
          (perm_rotate (held x) (held h) (inflight gs)))

  queued-append : (ms : List M) (m : M) → queued (ms ++ m ∷ []) ≡ queued ms ++ p.content m
  queued-append [] m = append-nil (p.content m)
  queued-append (x ∷ ms) m =
      rw (queued-append ms m) (sym (append_assoc (p.content x) (queued ms) (p.content m)))

  inflight-replicate : (n : ℕ) → inflight (replicate n fetching) ≡ []
  inflight-replicate zero = refl
  inflight-replicate (suc n) = inflight-replicate n

module _ {F M : Type 0} (p : Protocol F M) (observing : Bool) (faithful : IsFaithful p) where
  step_fetch-bag :
      (i : ℕ) (r : Result (RiskData F)) (g : Option (Goroutine M)) (s t : FanIn F M)
      → get_elem? s.goroutines i ≡ g
      → step_fetch p observing i r s g ≡ some t
      → Perm (bag p t) (bag p s ++ data_of r)
  unfolding step_fetch
  step_fetch-bag i r (some fetching) s t at e =
      let same : t ≡ record s {
        goroutines = set s.goroutines i (resolve (p.message_for r));
        observed = if observing then s.observed ++ data_of r else s.observed;
      } =
        ground arith in
      rw same (
        rw (← faithful r) (
          Perm.trans
            (Perm.append_left s.collected (
              Perm.append_left (queued p s.results)
                (inflight-set p s.goroutines i fetching (resolve (p.message_for r)) at)))
            (perm_to_end s.collected (queued p s.results) _ _)))
  step_fetch-bag i r _ s t at e = cc

  step_send-bag :
      (i : ℕ) (g : Option (Goroutine M)) (s t : FanIn F M)
      → get_elem? s.goroutines i ≡ g
      → step_send p observing i s g ≡ some t
      → Perm (bag p t) (bag p s)
  unfolding step_send
  step_send-bag i (some (sending m)) s t at e =
      let same : t
          ≡ record s { goroutines = set s.goroutines i exited; results = s.results ++ m ∷ [] } =
        ground arith in
      rw same (
        rw (queued-append p s.results m, append_assoc)
          (Perm.append_left s.collected (
            Perm.append_left (queued p s.results)
              (inflight-set p s.goroutines i (sending m) exited at))))
  step_send-bag i _ s t at e = cc

  step_receive-bag :
      (x : Bool) (left : ℕ) (ms : List M) (s t : FanIn F M)
      → s.results ≡ ms
      → step_receive p observing s x left ms ≡ some t
      → bag p t ≡ bag p s
  unfolding step_receive
  step_receive-bag false (suc left) (m ∷ rest) s t q e =
      let same : t
          ≡ record s { results = rest; remaining = left; collected = s.collected ++ p.content m } =
        ground arith in
      rw same (rw q (simp append_assoc))
  step_receive-bag _ _ _ s t q e = cc

  step-bag :
      (e : Event F) (s t : FanIn F M)
      → step p observing e s ≡ some t
      → Perm (bag p t) (bag p s ++ successes (e ∷ []))
  unfolding step
  step-bag (fetch_returned i r) s t e =
      rw append-nil (step_fetch-bag i r (get_elem? s.goroutines i) s t refl e)
  step-bag (send i) s t e = rw append-nil (step_send-bag i (get_elem? s.goroutines i) s t refl e)
  step-bag receive s t e =
      rw (append-nil, step_receive-bag s.expired s.remaining s.results s t refl e) (Perm.refl _)
  step-bag deadline s t e =
      let same : t ≡ record s { expired = true } = ground arith in
      rw (append-nil, same) (Perm.refl _)

  pub run-bag :
      (es : List (Event F)) (s t : FanIn F M)
      → run p observing es s ≡ some t
      → Perm (bag p t) (bag p s ++ successes es)
  unfolding run
  run-bag [] s t e = let same : t ≡ s = ground arith in rw (append-nil, same) (Perm.refl _)
  run-bag (ev ∷ es) s t e =
      let (u, stepped, rest) = run-cons p observing ev es s t e in
      rw (successes-cons ev es, ← append_assoc (bag p s) (successes (ev ∷ [])) (successes es))
        (Perm.trans (run-bag es u t rest)
          (Perm.append_right (successes es) (step-bag ev s u stepped)))

  -- From the start, the bag holds the successes of the schedule.
  pub run-start-bag :
      (n : ℕ) (es : List (Event F)) (s : FanIn F M)
      → run p observing es (start n) ≡ some s
      → Perm (bag p s) (successes es)
  unfolding start
  run-start-bag n es s e = rw (inflight-replicate p n) at (run-bag es (start n) s e)
