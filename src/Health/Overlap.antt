-- ===== src/Health/Overlap.antt =====
-- The health state under several goroutines. Each takes the lock for its access to the state, releases
-- it, and then makes its calls on the metrics one by one; others come in between, in any order.
pub mod Raises
pub mod Raised
pub mod Leaders
mod Tests
use argo_workflows_metrics.Base.{◌≡◌, List, [], ◌∷◌, ◌++◌}
use argo_workflows_metrics.Metrics.{Write}
use argo_workflows_metrics.Health.{State}
use argo_workflows_metrics.Health.Reach.{Call, step}

-- The state, and the calls that each goroutine has still to make.
pub record Shared : Type 0 where
  pub state : State
  pub pending : List (List Write)

-- A step, with the calls that it makes.
pub data Step (s : Shared) : Shared → List Write → Type 0 where
  locks :
      (call : Call)
      → Step s
          (record { state = (step s.state call).0; pending = (step s.state call).1 ∷ s.pending })
          []
  writes :
      (w : Write) (ws : List Write) (before later : List (List Write))
      → s.pending ≡ before ++ ((w ∷ ws) ∷ later)
      → Step s (record s { pending = before ++ (ws ∷ later) }) (w ∷ [])

pub data Reach (s : Shared) : Shared → List Write → Type 0 where
  here : Reach s s []
  next : {t u : Shared} {ws vs : List Write} → Reach s t ws → Step t u vs → Reach s u (ws ++ vs)

-- All calls are made.
abbrev pub calls_left : List (List Write) → List Write
calls_left [] = []
calls_left (ws ∷ pending) = ws ++ calls_left pending

abbrev pub IsSettled : Shared → Type 0
IsSettled s = calls_left s.pending ≡ []
