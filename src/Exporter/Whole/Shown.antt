-- ===== src/Exporter/Whole/Shown.antt =====
-- What `/metrics` shows of workflows and containers, whatever happens to the process.
use argo_workflows_metrics.Base.{
  ◌≡◌, ◌≢◌, ◌⊎◌, refl, sym, ap, ◌∙◌, String, Bool, true, false, Option, none, some, List, ◌++◌, All,
  inl, inr, arith, string_eq,
}
use argo_workflows_metrics.Base.Int.{pos, ◌<ℤ◌}
use argo_workflows_metrics.Base.Time.{Time}
use argo_workflows_metrics.Base.Dict.{lookup}
use argo_workflows_metrics.Metrics.{
  Metric, Series, Sample, Write, IsLegal, container_cpu_usage_seconds, container_memory_usage_bytes,
}
use argo_workflows_metrics.Metrics.Registry.{Registry, IsLawful, run}
use argo_workflows_metrics.Metrics.Trace.{after, value-run}
use argo_workflows_metrics.Metrics.Owners.{is_container}
use argo_workflows_metrics.Workflow.{Workflow}
use argo_workflows_metrics.Workflow.Series.Own.{Own, is_detail}
use argo_workflows_metrics.Workflow.Aggregate.{count_series, total_series}
use argo_workflows_metrics.Workflow.Aggregate.Loop.{count_in, count_phase}
use argo_workflows_metrics.Workflow.Aggregate.Exact.{exposed}
use argo_workflows_metrics.Workflow.Collector.History.{IsBlank}
use argo_workflows_metrics.Workflow.Collector.Surrounded.{surrounded-exact, surrounded-held}
use argo_workflows_metrics.Pod.{Pod, PodCollector, new_pod_collector}
use argo_workflows_metrics.Pod.History.{Call, run_calls}
use argo_workflows_metrics.Pod.Shown.{Shows, run_calls-Shows, run_calls-off}
use argo_workflows_metrics.Queue.{WorkQueue}
use argo_workflows_metrics.Informer.{Item}
use argo_workflows_metrics.Shard.{Matcher}
use argo_workflows_metrics.Exporter.{Flags}
use argo_workflows_metrics.Exporter.Whole.{World, Reach}
use argo_workflows_metrics.Exporter.Whole.Start.{
  first, first_writes, workflows_since, pods_since, since-IsLegal,
}

run_calls-unread :
    (stats : Bool) (calls : List Call) (x : Series) (v : Sample)
    → after x none (run_calls (new_pod_collector stats) calls).1 ≡ some v
    → stats ≡ true
run_calls-unread true calls x v e = refl
run_calls-unread false calls x v e =
    absurd
      (cc (ap (λ (st : PodCollector × List Write). after x none st.1) (run_calls-off calls), e))

container-cases :
    (n : Metric)
    → is_container n ≡ true
    → (n ≡ container_cpu_usage_seconds) ⊎ (n ≡ container_memory_usage_bytes)
container-cases n e = ground arith

-- A container's series that is exposed is not of its memory.
cpu_only :
    (x : Series) (o : Option Sample) (value : Sample)
    → Shows x o
    → is_container x.metric ≡ true
    → o ≡ some value
    → (x.metric ≡ container_cpu_usage_seconds) × (pos 0 <ℤ value)
cpu_only x o value s c e = elim (container-cases x.metric c) [
  | inl m ↦ (m, s.cpu m value e)
  | inr m ↦ absurd (cc (s.memory m, e))
]

module _ (Qw : WorkQueue (Item Workflow)) (Qp : WorkQueue (Item Pod)) (flags : Flags) (now : Time)
    (m : Matcher) (qw : Qw.Queue) (qp : Qp.Queue) (v : World Qw Qp) (ws : List Write)
    (reach : Reach Qw Qp (first Qw Qp flags now m qw qp) v ws) where
  abbrev writes : List Write
  writes = first_writes Qw Qp flags now m qw qp ++ ws

  -- In the whole process, from a start that was not refused, whatever callbacks, signals and probes
  -- come and however the steps of its two informers interleave with them, no call on a metric makes
  -- the client library panic: each has as many label values as its metric has labels and uses an
  -- operation that the kind of the metric has, and no counter is asked to fall.
  pub whole-IsLegal : All IsLegal writes
  whole-IsLegal = since-IsLegal Qw Qp flags now m qw qp v ws reach

  module _ (R : Registry) (L : IsLawful R) (r : R.State) (blank : IsBlank (R.value r)) where
    -- In the whole process, from a start that was not refused, whatever callbacks, signals and
    -- probes come and however the steps of its two informers interleave with them, with any number
    -- of workers and with full reconciles, on a lawful registry that showed nothing at first, each
    -- `argo_workflow_count` and each `argo_workflow_status_total` series shows the number of
    -- workflows that the cache then holds for its namespace, or its namespace and phase, and is not
    -- exposed where that is 0.
    pub whole-exact :
        (n p : String)
        → (R.value (run R writes r) (count_series n)
            ≡ exposed (count_in n v.workflows.informer.collector.workflows))
          × (R.value (run R writes r) (total_series n p)
              ≡ exposed (count_phase n p v.workflows.informer.collector.workflows))
    whole-exact =
        surrounded-exact R L r blank flags.wf_details v.workflows.informer.collector writes
          (workflows_since Qw Qp flags now m qw qp v ws reach)

    -- In the whole process, from a start that was not refused, whatever callbacks, signals and
    -- probes come and however the steps of its two informers interleave with them, on a lawful
    -- registry that showed nothing at first, a series of a per-workflow metric that is exposed is a
    -- series of a workflow that the cache then holds: its label values begin with that workflow's
    -- namespace and name, and a `workflow_info` series has exactly that workflow's labels.
    pub whole-held :
        (x : Series)
        → is_detail x.metric ≡ true
        → R.value (run R writes r) x ≢ none
        → (k : String) × (wf : Workflow) × (lookup k v.workflows.informer.collector.workflows
            ≡ some wf)
          × Own wf x
    whole-held =
        surrounded-held R L r blank flags.wf_details v.workflows.informer.collector writes
          (workflows_since Qw Qp flags now m qw qp v ws reach)

    -- In the whole process, from a start that was not refused, whatever callbacks, signals and
    -- probes come and however the steps of its two informers interleave with them, on a lawful
    -- registry that showed nothing at first, a container series that is exposed is one of the CPU
    -- metric, with a positive value, and container statistics are on: the memory metric has no
    -- series at any time.
    pub whole-containers :
        (x : Series) (value : Sample)
        → is_container x.metric ≡ true
        → R.value (run R writes r) x ≡ some value
        → (flags.pod_metrics ≡ true) × (x.metric ≡ container_cpu_usage_seconds) × (pos 0 <ℤ value)
    whole-containers x value c e =
        let ser = pods_since Qw Qp flags now m qw qp v ws reach in
        let f : after x none (run_calls (new_pod_collector flags.pod_metrics) ser.calls).1
            ≡ some value =
          ap (λ old. after x old (run_calls (new_pod_collector flags.pod_metrics) ser.calls).1)
            (sym (blank x))
          ∙ sym (ser.shows x (R.value r x) c)
          ∙ sym (value-run R L writes r x)
          ∙ e in
        let (cpu, positive) =
          cpu_only x _ value (run_calls-Shows (new_pod_collector flags.pod_metrics) ser.calls x) c
            f in
        (run_calls-unread flags.pod_metrics ser.calls x value f, cpu, positive)
