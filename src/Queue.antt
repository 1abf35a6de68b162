-- ===== src/Queue.antt =====
-- The rate-limited work queue of client-go, which this repository does not contain, as an interface.
pub mod Line
use argo_workflows_metrics.Base.{
  ℕ, suc, ◌≡◌, ◌≢◌, Bool, true, false, Option, none, some, List, [], ◌∷◌, ◌++◌,
}

-- The calls on a `workqueue.RateLimitingInterface` with items of one type. `get` returns an item with
-- the queue that it leaves, and `none` when the queue is shut down and empty; on an empty queue that
-- is not shut down it blocks, and no law speaks of that.
pub record WorkQueue (I : Type 0) : Type 1 where
  pub Queue : Type 0
  pub push : I → Queue → Queue
  pub push_rate_limited : I → Queue → Queue
  pub forget : I → Queue → Queue
  pub done : I → Queue → Queue
  pub get : Queue → Option (I × Queue)
  pub num_requeues : I → Queue → ℕ
  pub len : Queue → ℕ
  pub shut_down : Queue → Queue

-- What client-go documents of the count of an item's requeues: `AddRateLimited` adds one, `Forget`
-- clears it, `Get` and `Done` leave it.
pub record CountsRequeues {I : Type 0} (Q : WorkQueue I) : Type 0 where
  pub num_requeues-push_rate_limited :
      (i : I) (q : Q.Queue) → Q.num_requeues i (Q.push_rate_limited i q) ≡ suc (Q.num_requeues i q)
  pub num_requeues-forget : (i : I) (q : Q.Queue) → Q.num_requeues i (Q.forget i q) ≡ 0
  pub num_requeues-done : (i : I) (q : Q.Queue) → Q.num_requeues i (Q.done i q) ≡ Q.num_requeues i q
  pub num_requeues-get :
      (i : I) (q q' : Q.Queue) → Q.get q ≡ some (i, q') → Q.num_requeues i q' ≡ Q.num_requeues i q

-- What it documents of the order: items come out in the order in which they were added and none without having been added, and once the
-- queue is shut down nothing is added and the rest comes out. An item that waits already is not added
-- twice; the items of the informers hold fresh pointers, so that this does not occur. `waiting` is the
-- items that were added and not yet taken.
pub record IsFifo {I : Type 0} (Q : WorkQueue I) : Type 0 where
  pub waiting : Q.Queue → List I
  pub is_shut : Q.Queue → Bool
  pub get-waiting :
      (q : Q.Queue) (i : I) (is : List I)
      → waiting q ≡ i ∷ is
      → (q' : Q.Queue) × (Q.get q ≡ some (i, q')) × (waiting q' ≡ is) × (is_shut q' ≡ is_shut q)
  pub get-idle : (q q' : Q.Queue) (i : I) → waiting q ≡ [] → Q.get q ≢ some (i, q')
  pub get-shut : (q : Q.Queue) → waiting q ≡ [] → is_shut q ≡ true → Q.get q ≡ none
  pub waiting-push :
      (i : I) (q : Q.Queue) → is_shut q ≡ false → waiting (Q.push i q) ≡ waiting q ++ (i ∷ [])
  pub is_shut-push : (i : I) (q : Q.Queue) → is_shut (Q.push i q) ≡ is_shut q
  pub waiting-push_rate_limited :
      (i : I) (q : Q.Queue) → is_shut q ≡ true → waiting (Q.push_rate_limited i q) ≡ waiting q
  pub is_shut-push_rate_limited :
      (i : I) (q : Q.Queue) → is_shut (Q.push_rate_limited i q) ≡ is_shut q
  pub waiting-forget : (i : I) (q : Q.Queue) → waiting (Q.forget i q) ≡ waiting q
  pub is_shut-forget : (i : I) (q : Q.Queue) → is_shut (Q.forget i q) ≡ is_shut q
  pub waiting-done : (i : I) (q : Q.Queue) → waiting (Q.done i q) ≡ waiting q
  pub is_shut-done : (i : I) (q : Q.Queue) → is_shut (Q.done i q) ≡ is_shut q
  pub waiting-shut_down : (q : Q.Queue) → waiting (Q.shut_down q) ≡ waiting q
  pub is_shut-shut_down : (q : Q.Queue) → is_shut (Q.shut_down q) ≡ true
