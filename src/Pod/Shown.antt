-- ===== src/Pod/Shown.antt =====
-- What `/metrics` shows of containers, after any history of the collector of pods.
use argo_workflows_metrics.Base.{
  ◌≡◌, refl, String, false, Option, none, some, List, [], ◌∷◌, All, All-append, arith,
}
use argo_workflows_metrics.Base.Int.{ℤ, pos, ◌<ℤ◌, ◌≤ℤ◌, ◌+ℤ◌}
use argo_workflows_metrics.Base.Time.{Duration}
use argo_workflows_metrics.Metrics.{
  Series, Sample, Write, add, delete, effect, whole, metric_eq, series_eq,
  container_cpu_usage_seconds, container_memory_usage_bytes,
}
use argo_workflows_metrics.Metrics.Trace.{after}
use argo_workflows_metrics.Pod.{
  Pod, PodCollector, new_pod_collector, cpu_series, memory_series, add_pod, delete_pod,
}
use argo_workflows_metrics.Pod.Calls.{add_pod-All, delete_pod-All}
use argo_workflows_metrics.Pod.History.{Call, adds, deletes, step, run_calls}

-- No series of the memory metric is exposed, and one of the CPU metric only with a positive value.
pub record Shows (x : Series) (value : Option Sample) : Type 0 where
  pub memory : x.metric ≡ container_memory_usage_bytes → value ≡ none
  pub cpu : x.metric ≡ container_cpu_usage_seconds → (v : Sample) → value ≡ some v → pos 0 <ℤ v

abbrev KeepsShows : Write → Type 0
KeepsShows w = (x : Series) (old : Option Sample) → Shows x old → Shows x (effect x old w)

positive_sum : (a b : ℤ) → pos 0 ≤ℤ a → pos 0 <ℤ b → pos 0 <ℤ (a +ℤ b)
unfolding ◌+ℤ◌
positive_sum a b h l = ground (arith, h, l)

adds-KeepsShows :
    (pod : Pod) (container : String) (usage : Duration)
    → pos 0 <ℤ usage
    → KeepsShows (add (cpu_series pod container) usage)
adds-KeepsShows pod container usage h x none s = record {
  memory = λ e. ground (arith, e, s.memory e);
  cpu = λ e v f. ground (arith, e, f, positive_sum (whole 0) usage (omega arith) h);
}
adds-KeepsShows pod container usage h x (some u) s = record {
  memory = λ e. absurd (cc (s.memory e));
  cpu = λ e v f.
      let l = s.cpu e u refl in ground (arith, e, f, l, positive_sum u usage (omega (arith, l)) h);
}

deletes-KeepsShows : (y : Series) → KeepsShows (delete y)
deletes-KeepsShows y x old s = record {
  memory = λ e. ground (arith, s.memory e);
  cpu = λ e v f. ground (arith, f, s.cpu e v);
}

effects-Shows :
    (x : Series) (old : Option Sample) (ws : List Write)
    → All KeepsShows ws
    → Shows x old
    → Shows x (after x old ws)
effects-Shows x old [] k s = s
effects-Shows x old (w ∷ ws) k s = effects-Shows x (effect x old w) ws k.1 (k.0 x old s)

step-KeepsShows : (c : PodCollector) (call : Call) → All KeepsShows (step c call).1
step-KeepsShows c (adds o) =
    add_pod-All KeepsShows adds-KeepsShows
      (λ pod container. deletes-KeepsShows (cpu_series pod container))
      (λ pod container. deletes-KeepsShows (memory_series pod container)) o c
step-KeepsShows c (deletes o) =
    delete_pod-All KeepsShows adds-KeepsShows
      (λ pod container. deletes-KeepsShows (cpu_series pod container))
      (λ pod container. deletes-KeepsShows (memory_series pod container)) o c

run_calls-KeepsShows : (c : PodCollector) (calls : List Call) → All KeepsShows (run_calls c calls).1
unfolding run_calls
run_calls-KeepsShows c [] = tt
run_calls-KeepsShows c (call ∷ calls) =
    All-append KeepsShows (step c call).1 _ (step-KeepsShows c call)
      (run_calls-KeepsShows (step c call).0 calls)

pub run_calls-Shows :
    (c : PodCollector) (calls : List Call) (x : Series)
    → Shows x (after x none (run_calls c calls).1)
run_calls-Shows c calls x =
    effects-Shows x none (run_calls c calls).1 (run_calls-KeepsShows c calls)
      (record { memory = λ e. refl; cpu = λ e v f. absurd (cc f) })

-- Without container statistics the collector does nothing.
step-off : (call : Call) → step (new_pod_collector false) call ≡ (new_pod_collector false, [])
unfolding new_pod_collector add_pod delete_pod
step-off (adds none) = refl
step-off (adds (some pod)) = refl
step-off (deletes none) = refl
step-off (deletes (some pod)) = refl

pub run_calls-off :
    (calls : List Call) → run_calls (new_pod_collector false) calls ≡ (new_pod_collector false, [])
unfolding run_calls
run_calls-off [] = refl
run_calls-off (call ∷ calls) = rw (step-off call) (run_calls-off calls)
