-- ===== src/Workflow/Series/Phases.antt =====
-- The phase series of a workflow after `collectWorkflowSeries`: 1 for its phase and 0 for the others.
use argo_workflows_metrics.Base.{
  ◌≡◌, ◌≢◌, refl, sym, ap, ◌∙◌, ℕ, String, Bool, true, false, ◌||◌, Option, none, some, List, [],
  ◌∷◌, ◌++◌, arith, All-append, All-cond, All-cond-one, string_eq, ◌==◌, if◌then◌else◌,
}
use argo_workflows_metrics.Base.Time.{Time, is_zero}
use argo_workflows_metrics.Base.Int.{pos, ltb_ℤ}
use argo_workflows_metrics.Base.Dict.{Dict}
use argo_workflows_metrics.Metrics.{
  Metric, Series, Sample, Write, set, labelled, whole, workflow_status_phase, workflow_info,
  workflow_created_time, workflow_started_time, workflow_finished_time, series_eq,
}
use argo_workflows_metrics.Metrics.Trace.{
  after, after-append, after_missed, OffMetric, OffMetric-Misses,
}
use argo_workflows_metrics.Metrics.Loops.{set_each}
use argo_workflows_metrics.Workflow.{Workflow, workflow_phases}
use argo_workflows_metrics.Workflow.Series.{
  set_phases, set_time, set_duration, positive_duration, run_time, set_nodes, node_phase_series,
  collect_node_metrics, collect_workflow_series, info_labels,
}

abbrev pub is_listed : String → List String → Bool
is_listed p [] = false
is_listed p (q ∷ qs) = p == q || is_listed p qs

module _ (wf : Workflow) where
  abbrev pub phase_series : String → Series
  phase_series p = labelled workflow_status_phase (wf.namespace ∷ wf.name ∷ p ∷ [])

  abbrev pub is_phase : String → Sample
  is_phase p = if p == wf.phase then whole 1 else whole 0

  phase_series-inj : (p q : String) → phase_series p ≡ phase_series q → p ≡ q
  phase_series-inj p q e =
      let v : wf.namespace ∷ wf.name ∷ p ∷ [] ≡ wf.namespace ∷ wf.name ∷ q ∷ [] =
        ap (λ (x : Series). x.values) e in
      cc

  after-set_phases :
      (p : String) (ps : List String) (old : Option Sample)
      → after (phase_series p) old (set_phases wf ps)
        ≡ (if is_listed p ps then some (is_phase p) else old)
  after-set_phases p [] old = refl
  after-set_phases p (q ∷ qs) old = elim (string_eq.dec p q) [
    | yes e ↦
        let here : phase_series p ≡ phase_series q = ap phase_series e in
        let value : is_phase q ≡ is_phase p = ap is_phase (sym e) in
        let r = after-set_phases p qs (some (is_phase q)) in ground arith
    | no n ↦
        let elsewhere : phase_series p ≢ phase_series q = λ e. n (phase_series-inj p q e) in
        let r = after-set_phases p qs old in ground arith
  ]

  set_each-off :
      (g : ℕ → Sample) (d : Dict String ℕ)
      → OffMetric workflow_status_phase (set_each (node_phase_series wf) g d)
  set_each-off g [] = tt
  set_each-off g ((k, v) ∷ d) = (λ e. cc, set_each-off g d)

  set_nodes-off :
      (o : Option (Dict String String)) → OffMetric workflow_status_phase (set_nodes wf o)
  set_nodes-off none = tt
  set_nodes-off (some nodes) = (λ e. cc, set_each-off _ _)

  set_time-off :
      (m : Metric) (t : Time)
      → m ≢ workflow_status_phase
      → OffMetric workflow_status_phase (set_time wf m t)
  unfolding set_time
  set_time-off m t n = All-cond-one _ (is_zero t) _ n

  set_duration-off : (now : Time) → OffMetric workflow_status_phase (set_duration wf now)
  unfolding set_duration
  set_duration-off now =
      All-cond _ (is_zero wf.started_at) [] (positive_duration wf (run_time wf now)) tt
        (All-cond _ (ltb_ℤ (pos 0) (run_time wf now)) _ [] (λ e. cc, tt) tt)

  -- What follows the phases in `collectWorkflowSeries`.
  abbrev others : Time → List Write
  others now =
      set (labelled workflow_info (info_labels wf)) (whole 1)
      ∷ (set_time wf workflow_created_time wf.creation_timestamp
          ++ (set_time wf workflow_started_time wf.started_at
              ++ (set_time wf workflow_finished_time wf.finished_at
                  ++ (set_duration wf now ++ set_nodes wf wf.nodes))))

  others-off : (now : Time) → OffMetric workflow_status_phase (others now)
  others-off now = (
    λ e. cc,
    All-append _ (set_time wf workflow_created_time wf.creation_timestamp) _
        (set_time-off _ _ (λ e. cc))
        (All-append _ (set_time wf workflow_started_time wf.started_at) _
          (set_time-off _ _ (λ e. cc))
          (All-append _ (set_time wf workflow_finished_time wf.finished_at) _
            (set_time-off _ _ (λ e. cc))
            (All-append _ (set_duration wf now) _ (set_duration-off now)
              (set_nodes-off wf.nodes)))),
  )

  -- Collecting a workflow sets each of the known phases, whatever was there.
  pub after-collect :
      (p : String) (now : Time) (old : Option Sample)
      → is_listed p workflow_phases ≡ true
      → after (phase_series p) old (collect_workflow_series wf now) ≡ some (is_phase p)
  unfolding collect_workflow_series collect_node_metrics
  after-collect p now old l =
      after-append (phase_series p) old (set_phases wf workflow_phases) (others now)
      ∙ after_missed (phase_series p) _ (others now)
          (OffMetric-Misses (phase_series p) (others now) (others-off now))
      ∙ after-set_phases p workflow_phases old
      ∙ ap (λ b. if b then some (is_phase p) else old) l
