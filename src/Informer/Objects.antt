-- ===== src/Informer/Objects.antt =====
-- The data of the two informers: the events of the queue, what a watch delivers and a store lists, and
-- the state.
use argo_workflows_metrics.Base.{
  ℕ, Bool, true, String, Option, none, some, List, [], ◌∷◌, if◌then◌else◌,
}
use argo_workflows_metrics.Base.Int.{ℤ, leb_ℤ}
use argo_workflows_metrics.Base.Time.{Time, Duration}
use argo_workflows_metrics.Metrics.{Sample, Write}
use argo_workflows_metrics.Health.{State}
use argo_workflows_metrics.Queue.{WorkQueue}

-- An event of the queue; `none` is a nil pointer.
pub record Event (A : Type 0) : Type 0 where
  pub event_type : String
  pub subject : Option A

-- What the queue holds: an event, or an object of another type.
pub data Item (A : Type 0) : Type 0 where
  event : Event A → Item A
  alien : Item A

-- What a watch delivers or a store lists: an object of the informer's type, a tombstone around
-- something, or an object of another type.
pub data Object (A : Type 0) : Type 0 where
  object : A → Object A
  tombstone : Object A → Object A
  other_object : Object A

-- What the two informers differ in: the name in the labels, the filter of the handlers over the
-- namespace matcher, and the methods of the health state and of the collector that they call.
pub record Source (A C : Type 0) : Type 0 where
  pub name : String
  pub accepts : (String → Bool) → A → Bool
  pub mark_event : Time → State → State × List Write
  pub mark_synced : State → State × List Write
  pub add_object : Time → A → C → C × List Write
  pub delete_object : A → C → C × List Write

pub record ObjectInformer {I : Type 0} (C : Type 0) (Q : WorkQueue I) : Type 0 where
  pub collector : C
  pub health_state : Option State
  pub queue : Q.Queue
  pub worker_count : ℤ
  pub full_reconcile_period : Duration
  pub namespace_matcher : String → Bool
  pub stopped : Bool

abbrev pub max_retries : ℕ
max_retries = 5

-- The time at which an event is taken, and how long it took, in seconds.
abbrev pub Moment : Type 0
Moment = Time × Sample

abbrev pub status : List Write → String
status [] = "success"
status (_ ∷ _) = "error"

-- What the two wait loops of `Start` run, or its error.
pub data Started : Type 0 where
  sync_failed : Started
  running : ℕ → Bool → Started

abbrev pub max_ℤ : ℤ → ℤ → ℤ
max_ℤ a b = if leb_ℤ a b then b else a

abbrev pub default_matcher : Option (String → Bool) → String → Bool
default_matcher none namespace = true
default_matcher (some matcher) namespace = matcher namespace

abbrev pub mark : (State → State × List Write) → Option State → Option State × List Write
mark f none = (none, [])
mark f (some s) = let (s', ws) = f s in (some s', ws)
