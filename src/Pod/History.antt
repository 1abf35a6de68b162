-- ===== src/Pod/History.antt =====
-- Histories of operations on the collector of pods.
use argo_workflows_metrics.Base.{◌≡◌, refl, true, Option, List, [], ◌∷◌, ◌++◌, All, All-append}
use argo_workflows_metrics.Metrics.{Write, IsLegal}
use argo_workflows_metrics.Metrics.Trace.{target}
use argo_workflows_metrics.Metrics.Owners.{On, is_container}
use argo_workflows_metrics.Metrics.Histories.{IsRun, loop-IsRun}
use argo_workflows_metrics.Pod.{Pod, PodCollector, add_pod, delete_pod}
use argo_workflows_metrics.Pod.Calls.{add_pod-All, delete_pod-All, pods-IsLegal}

-- The operations as values.
pub data Call : Type 0 where
  adds deletes : Option Pod → Call

abbrev pub step : PodCollector → Call → PodCollector × List Write
step c (adds o) = add_pod o c
step c (deletes o) = delete_pod o c

unfoldable pub run_calls : PodCollector → List Call → PodCollector × List Write
run_calls c [] = (c, [])
run_calls c (call ∷ calls) =
    let (c', ws) = step c call in let (c'', vs) = run_calls c' calls in (c'', ws ++ vs)

pub run_calls-IsRun : IsRun run_calls
unfolding run_calls
run_calls-IsRun = loop-IsRun run_calls step (λ c. refl) (λ c call calls. refl)

step-On : (c : PodCollector) (call : Call) → On is_container (step c call).1
step-On c (adds o) =
    add_pod-All (λ w. is_container (target w).metric ≡ true) (λ pod container usage h. refl)
      (λ pod container. refl) (λ pod container. refl) o c
step-On c (deletes o) =
    delete_pod-All (λ w. is_container (target w).metric ≡ true) (λ pod container usage h. refl)
      (λ pod container. refl) (λ pod container. refl) o c

-- All calls are on the metrics of containers.
pub run_calls-On : (c : PodCollector) (calls : List Call) → On is_container (run_calls c calls).1
unfolding run_calls
run_calls-On c [] = tt
run_calls-On c (call ∷ calls) =
    All-append _ (step c call).1 _ (step-On c call) (run_calls-On (step c call).0 calls)

step-IsLegal : (c : PodCollector) (call : Call) → All IsLegal (step c call).1
step-IsLegal c (adds o) = (pods-IsLegal o c).0
step-IsLegal c (deletes o) = (pods-IsLegal o c).1

pub run_calls-IsLegal : (c : PodCollector) (calls : List Call) → All IsLegal (run_calls c calls).1
unfolding run_calls
run_calls-IsLegal c [] = tt
run_calls-IsLegal c (call ∷ calls) =
    All-append _ (step c call).1 _ (step-IsLegal c call) (run_calls-IsLegal (step c call).0 calls)
