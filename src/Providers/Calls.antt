-- ===== src/Providers/Calls.antt =====
-- Calls of one guard, one after another.
use fraud_detection_scoring.Prelude.{Option, some, List, [], ◌∷◌, ℤ}
use fraud_detection_scoring.Errors.{Result}
use fraud_detection_scoring.Domain.{RiskData, Application}
use fraud_detection_scoring.Providers.{Ending, GuardedProvider, GuardStore, guarded_fetch}

-- One fetch.
pub record Call (F : Type 0) : Type 0 where
  pub now : ℤ
  pub ends : Ending
  pub app : Application F

module _ {F B W M : Type 0} where
  -- What each was answered, and what the guard keeps then.
  abbrev pub call_alone :
      GuardedProvider F B W M
      → List (Call F)
      → GuardStore B W M
      → List (Option (Result (RiskData F))) × GuardStore B W M
  call_alone g [] s = ([], s)
  call_alone g (c ∷ cs) s =
      let r = guarded_fetch g c.now c.ends c.app s in
      let (as_, u) = call_alone g cs r.store in (some r.result ∷ as_, u)
