-- ===== src/Queue/Line.antt =====
-- A queue that keeps the items that wait and, for the one in progress, its requeues: the laws can
-- hold.
use argo_workflows_metrics.Base.{
  ℕ, suc, ◌≡◌, ◌≢◌, refl, Bool, true, false, Option, none, some, List, [], ◌∷◌, ◌++◌, length,
  if◌then◌else◌,
}
use argo_workflows_metrics.Queue.{WorkQueue, CountsRequeues, IsFifo}

pub record Line (I : Type 0) : Type 0 where
  pub items : List I
  pub requeues : ℕ
  pub shut : Bool

module _ {I : Type 0} where
  abbrev pub empty_line : Line I
  empty_line = record { items = []; requeues = 0; shut = false }

  abbrev pub get_first : Bool → List I → ℕ → Option (I × Line I)
  get_first shut [] n = none
  get_first shut (i ∷ is) n = some (i, record { items = is; requeues = n; shut = shut })

  -- At the end, unless the queue is shut down.
  abbrev pub append : I → Line I → Line I
  append i q = record q { items = if q.shut then q.items else q.items ++ (i ∷ []) }

  got-requeues :
      (shut : Bool) (is : List I) (n : ℕ) (i : I) (q : Line I)
      → get_first shut is n ≡ some (i, q)
      → q.requeues ≡ n
  got-requeues shut [] n i q e = absurd (cc)
  got-requeues shut (j ∷ is) n i q e = cc

  pub idle :
      (shut : Bool) (is : List I) (n : ℕ) (i : I) (q : Line I)
      → is ≡ []
      → get_first shut is n ≢ some (i, q)
  idle shut [] n i q e f = absurd (cc f)
  idle shut (j ∷ is) n i q e f = absurd (cc e)

abbrev pub line : (I : Type 0) → WorkQueue I
line I = record {
  Queue = Line I;
  push = append;
  push_rate_limited = λ i q. record (append i q) { requeues = suc q.requeues };
  forget = λ i q. record q { requeues = 0 };
  done = λ i q. q;
  get = λ q. get_first q.shut q.items q.requeues;
  num_requeues = λ i q. q.requeues;
  len = λ q. length q.items;
  shut_down = λ q. record q { shut = true };
}

pub line-CountsRequeues : (I : Type 0) → CountsRequeues (line I)
line-CountsRequeues I = record {
  num_requeues-push_rate_limited = λ i q. refl;
  num_requeues-forget = λ i q. refl;
  num_requeues-done = λ i q. refl;
  num_requeues-get = λ i q q' e. got-requeues q.shut q.items q.requeues i q' e;
}

unfoldable pub line-IsFifo : (I : Type 0) → IsFifo (line I)
line-IsFifo I = record {
  waiting = λ q. q.items;
  is_shut = λ q. q.shut;
  get-waiting = λ q i is e.
      (record { items = is; requeues = q.requeues; shut = q.shut }, rw e refl, refl, refl);
  get-idle = λ q q' i e. idle q.shut q.items q.requeues i q' e;
  get-shut = λ q e s. rw e refl;
  waiting-push = λ i q s. rw s refl;
  is_shut-push = λ i q. refl;
  waiting-push_rate_limited = λ i q s. rw s refl;
  is_shut-push_rate_limited = λ i q. refl;
  waiting-forget = λ i q. refl;
  is_shut-forget = λ i q. refl;
  waiting-done = λ i q. refl;
  is_shut-done = λ i q. refl;
  waiting-shut_down = λ q. refl;
  is_shut-shut_down = λ q. refl;
}
