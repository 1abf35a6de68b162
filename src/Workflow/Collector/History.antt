-- ===== src/Workflow/Collector/History.antt =====
-- Histories of operations on a registry: what `/metrics` shows of the workflows after any calls of
-- `AddWorkflow`, `DeleteWorkflow` and `ReplaceWorkflows`, one after the other.
use mathlib.Core.Path.{fun_ext}
use argo_workflows_metrics.Base.{
  ◌≡◌, refl, sym, ap, subst, ◌∙◌, ◌≢◌, String, Bool, true, false, Option, none, some, List, [], ◌∷◌,
  string_eq, ◌==◌, if◌then◌else◌,
}
use argo_workflows_metrics.Base.Dict.{Dict, lookup, insert, lookup-nil, lookup-insert, lookup-erase}
use argo_workflows_metrics.Metrics.{Series}
use argo_workflows_metrics.Metrics.Registry.{Registry, IsLawful, run}
use argo_workflows_metrics.Metrics.Trace.{after-append, value-run}
use argo_workflows_metrics.Workflow.{Workflow, WorkflowCollector, new_workflow_collector, key}
use argo_workflows_metrics.Workflow.Series.Own.{Own, is_detail}
use argo_workflows_metrics.Workflow.Aggregate.{count_series, total_series}
use argo_workflows_metrics.Workflow.Aggregate.Loop.{count_in, count_phase}
use argo_workflows_metrics.Workflow.Aggregate.Exact.{exposed}
use argo_workflows_metrics.Workflow.Collector.Aggregated.{
  Values, apply, Aggregated, step-Aggregated,
}
use argo_workflows_metrics.Workflow.Collector.Tidy.{Tidy, step-Tidy}
use argo_workflows_metrics.Workflow.Aggregate.{update_aggregated_metrics}
use argo_workflows_metrics.Workflow.Collector.Form.{next_workflows, is_nil, step_form}
use argo_workflows_metrics.Workflow.Collector.{
  Step, Call, adds, deletes, replaces, prepend, rebuild, step,
}

unfoldable pub run_calls : WorkflowCollector → List Call → Step
run_calls c [] = (c, [])
run_calls c (call ∷ calls) = let (c', ws) = step c call in prepend ws (run_calls c' calls)

-- Nothing is exposed at the start.
abbrev pub IsBlank : Values → Type 0
IsBlank v = (x : Series) → v x ≡ none

-- What the operations keep, histories keep.
pub run_calls_inv {ν} :
    (P : WorkflowCollector → Values → Type ν)
    → ((c : WorkflowCollector) (v : Values) (call : Call)
        → P c v
        → P (step c call).0 (apply (step c call).1 v))
    → (c : WorkflowCollector) (v : Values) (calls : List Call) → P c v
    → P (run_calls c calls).0 (apply (run_calls c calls).1 v)
unfolding run_calls
run_calls_inv P keep c v [] h = h
run_calls_inv P keep c v (call ∷ calls) h =
    let ws = (step c call).1 in
    subst (P (run_calls (step c call).0 calls).0)
      (fun_ext λ x. sym (after-append x (v x) ws (run_calls (step c call).0 calls).1))
      (run_calls_inv P keep (step c call).0 (apply ws v) calls (keep c v call h))

new-Aggregated :
    (details : Bool) (v : Values) → IsBlank v → Aggregated (new_workflow_collector details) v
unfolding new_workflow_collector
new-Aggregated details v b = record {
  counts = λ n. b (count_series n);
  totals_shown = λ n p. b (total_series n p);
  seen = λ n e. b (count_series n);
  seen_phases = λ n p e. b (total_series n p);
  distinct = tt;
}

pub new-Tidy : (details : Bool) (v : Values) → IsBlank v → Tidy (new_workflow_collector details) v
unfolding new_workflow_collector
new-Tidy details v b = record {
  distinct = tt;
  held = λ x m n. absurd (n (b x));
  quiet = λ e x m. b x;
}

-- What the cache is to hold under a key, from what it held: the workflow that was added or listed
-- last, or nothing after its deletion.
abbrev pub last_listed : String → Option Workflow → List (Option Workflow) → Option Workflow
last_listed k found [] = found
last_listed k found (none ∷ wfs) = last_listed k found wfs
last_listed k found (some wf ∷ wfs) = last_listed k (if k == key wf then some wf else found) wfs

abbrev pub cached : String → Option Workflow → List Call → Option Workflow
cached k old [] = old
cached k old (adds now (some wf) ∷ calls) = cached k (if k == key wf then some wf else old) calls
cached k old (deletes (some wf) ∷ calls) = cached k (if k == key wf then none else old) calls
cached k old (replaces now wfs ∷ calls) = cached k (last_listed k none wfs) calls
cached k old (adds now none ∷ calls) = cached k old calls
cached k old (deletes none ∷ calls) = cached k old calls

lookup-rebuild :
    (k : String) (next : Dict String Workflow) (wfs : List (Option Workflow))
    → lookup k (rebuild next wfs) ≡ last_listed k (lookup k next) wfs
unfolding rebuild
lookup-rebuild k next [] = refl
lookup-rebuild k next (none ∷ wfs) = lookup-rebuild k next wfs
lookup-rebuild k next (some wf ∷ wfs) =
    lookup-rebuild k (insert (key wf) wf next) wfs
    ∙ ap (λ o. last_listed k o wfs) (lookup-insert k (key wf) wf next)

cached-cons :
    (k : String) (old : Option Workflow) (call : Call) (calls : List Call)
    → cached k (cached k old (call ∷ [])) calls ≡ cached k old (call ∷ calls)
cached-cons k old (adds now none) calls = refl
cached-cons k old (adds now (some wf)) calls = refl
cached-cons k old (deletes none) calls = refl
cached-cons k old (deletes (some wf)) calls = refl
cached-cons k old (replaces now wfs) calls = refl

stepped :
    (c : WorkflowCollector) (call : Call)
    → is_nil call ≡ false
    → (step c call).0.workflows ≡ next_workflows c call
unfolding update_aggregated_metrics
stepped c call e = rw (step_form c call, e)

next_workflows-step :
    (c : WorkflowCollector) (call : Call) → (step c call).0.workflows ≡ next_workflows c call
unfolding step next_workflows
next_workflows-step c (adds now none) = refl
next_workflows-step c (adds now (some wf)) = stepped c (adds now (some wf)) refl
next_workflows-step c (deletes none) = refl
next_workflows-step c (deletes (some wf)) = stepped c (deletes (some wf)) refl
next_workflows-step c (replaces now wfs) = stepped c (replaces now wfs) refl

lookup-next :
    (k : String) (c : WorkflowCollector) (call : Call)
    → lookup k (next_workflows c call) ≡ cached k (lookup k c.workflows) (call ∷ [])
unfolding next_workflows
lookup-next k c (adds now none) = refl
lookup-next k c (adds now (some wf)) = lookup-insert k (key wf) wf c.workflows
lookup-next k c (deletes none) = refl
lookup-next k c (deletes (some wf)) = lookup-erase k (key wf) c.workflows
lookup-next k c (replaces now wfs) =
    lookup-rebuild k [] wfs ∙ ap (λ o. last_listed k o wfs) (lookup-nil k)

-- The cache after any history, in either mode, is as a map from keys what the events say: under a
-- key stands the workflow that was added or listed last under it, and nothing after its deletion or
-- a listing without it.
pub lookup-run_calls :
    (k : String) (c : WorkflowCollector) (calls : List Call)
    → lookup k (run_calls c calls).0.workflows ≡ cached k (lookup k c.workflows) calls
unfolding run_calls
lookup-run_calls k c [] = refl
lookup-run_calls k c (call ∷ calls) =
    lookup-run_calls k (step c call).0 calls
    ∙ ap (λ o. cached k o calls) (ap (lookup k) (next_workflows-step c call) ∙ lookup-next k c call)
    ∙ cached-cons k (lookup k c.workflows) call calls

module _ (R : Registry) (L : IsLawful R) (s : R.State) (blank : IsBlank (R.value s))
    (details : Bool) (calls : List Call) where
  abbrev final : WorkflowCollector
  final = (run_calls (new_workflow_collector details) calls).0

  -- The registry after the history.
  abbrev exposed_state : R.State
  exposed_state = run R (run_calls (new_workflow_collector details) calls).1 s

  value-final :
      (x : Series)
      → R.value exposed_state x
        ≡ apply (run_calls (new_workflow_collector details) calls).1 (R.value s) x
  value-final = value-run R L (run_calls (new_workflow_collector details) calls).1 s

  final-Aggregated :
      Aggregated final (apply (run_calls (new_workflow_collector details) calls).1 (R.value s))
  final-Aggregated =
      run_calls_inv Aggregated step-Aggregated _ (R.value s) calls (new-Aggregated details _ blank)

  final-Tidy : Tidy final (apply (run_calls (new_workflow_collector details) calls).1 (R.value s))
  final-Tidy = run_calls_inv Tidy step-Tidy _ (R.value s) calls (new-Tidy details _ blank)

  -- After any history of calls of the collector, with details on or off, on a lawful registry that
  -- showed nothing at first, each `argo_workflow_count` series shows the number of cached workflows
  -- of its namespace, and a namespace with no cached workflow has no such series.
  pub count_exact :
      (n : String) → R.value exposed_state (count_series n) ≡ exposed (count_in n final.workflows)
  count_exact n = value-final (count_series n) ∙ final-Aggregated.counts n

  -- After any history of calls of the collector, on a lawful registry that showed nothing at first,
  -- each `argo_workflow_status_total` series shows the number of cached workflows of its namespace
  -- in its phase, and there is no series where that number is 0.
  pub total_exact :
      (n p : String)
      → R.value exposed_state (total_series n p) ≡ exposed (count_phase n p final.workflows)
  total_exact n p = value-final (total_series n p) ∙ final-Aggregated.totals_shown n p

  -- After any history of calls of the collector, with details on or off, on a lawful registry that
  -- showed nothing at first, a series of a per-workflow metric that is exposed is a series of a
  -- workflow in the cache: its label values begin with that workflow's namespace and name, and a
  -- `workflow_info` series has exactly that workflow's labels.
  pub details_held :
      (x : Series)
      → is_detail x.metric ≡ true
      → R.value exposed_state x ≢ none
      → (k : String) × (wf : Workflow) × (lookup k final.workflows ≡ some wf) × Own wf x
  details_held x m n =
      let (k, wf, l, own, cleared) =
        final-Tidy.held x m (subst (λ o. o ≢ none) (value-final x) n) in
      (k, wf, l, own)
