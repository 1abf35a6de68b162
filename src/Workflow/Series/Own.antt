-- ===== src/Workflow/Series/Own.antt =====
-- Which series a workflow's calls are on: its own detail series, named after it.
use argo_workflows_metrics.Base.{
  ◌≡◌, refl, String, Bool, true, false, Option, none, some, List, [], ◌∷◌, All, All-append,
  All-cond, All-cond-one,
}
use argo_workflows_metrics.Base.Int.{pos, ltb_ℤ}
use argo_workflows_metrics.Base.Time.{Time, Duration, is_zero}
use argo_workflows_metrics.Base.Dict.{Dict}
use argo_workflows_metrics.Metrics.{
  Metric, Series, Sample, Write, set, delete, labelled, labels, kind, gauge, HasLabels, IsLegal,
  workflow_status_phase, workflow_info, workflow_created_time, workflow_started_time,
  workflow_finished_time, workflow_duration_seconds, workflow_node_total, workflow_node_phase,
}
use argo_workflows_metrics.Metrics.Loops.{set_each, delete_each}
use argo_workflows_metrics.Workflow.{Workflow}
use argo_workflows_metrics.Workflow.Series.{
  info_labels, set_time, run_time, positive_duration, set_duration, node_phase_series, set_nodes,
  collect_node_metrics, collect_workflow_series, delete_node_phases, delete_workflow_series,
}

-- The metrics with a series for each workflow.
abbrev pub is_detail : Metric → Bool
is_detail workflow_status_phase = true
is_detail workflow_info = true
is_detail workflow_created_time = true
is_detail workflow_started_time = true
is_detail workflow_finished_time = true
is_detail workflow_duration_seconds = true
is_detail workflow_node_total = true
is_detail workflow_node_phase = true
is_detail _ = false

-- A detail series of the workflow: a detail metric whose label values begin with the workflow's
-- namespace and name, as many as the metric has labels; the information is its own.
pub record Own (wf : Workflow) (x : Series) : Type 0 where
  pub detail : is_detail x.metric ≡ true
  pub has_labels : HasLabels x
  pub is_gauge : kind x.metric ≡ gauge
  pub rest : List String
  pub named : x.values ≡ wf.namespace ∷ wf.name ∷ rest
  pub info : x.metric ≡ workflow_info → x.values ≡ info_labels wf

module _ (wf : Workflow) where
  own :
      (m : Metric) (rest : List String)
      → is_detail m ≡ true
      → HasLabels (labelled m (wf.namespace ∷ wf.name ∷ rest))
      → kind m ≡ gauge
      → (m ≡ workflow_info → wf.namespace ∷ wf.name ∷ rest ≡ info_labels wf)
      → Own wf (labelled m (wf.namespace ∷ wf.name ∷ rest))
  own m rest d l g i = record {
    detail = d;
    has_labels = l;
    is_gauge = g;
    rest = rest;
    named = refl;
    info = i;
  }

  phase-Own :
      (p : String) → Own wf (labelled workflow_status_phase (wf.namespace ∷ wf.name ∷ p ∷ []))
  unfolding labels kind
  phase-Own p = own _ _ refl refl refl (λ e. cc)

  info-Own : Own wf (labelled workflow_info (info_labels wf))
  unfolding labels kind
  info-Own = own _ _ refl refl refl (λ e. refl)

  created-Own : Own wf (labelled workflow_created_time (wf.namespace ∷ wf.name ∷ []))
  unfolding labels kind
  created-Own = own _ _ refl refl refl (λ e. cc)

  started-Own : Own wf (labelled workflow_started_time (wf.namespace ∷ wf.name ∷ []))
  unfolding labels kind
  started-Own = own _ _ refl refl refl (λ e. cc)

  finished-Own : Own wf (labelled workflow_finished_time (wf.namespace ∷ wf.name ∷ []))
  unfolding labels kind
  finished-Own = own _ _ refl refl refl (λ e. cc)

  duration-Own :
      Own wf (labelled workflow_duration_seconds (wf.namespace ∷ wf.name ∷ wf.phase ∷ []))
  unfolding labels kind
  duration-Own = own _ _ refl refl refl (λ e. cc)

  node_total-Own : Own wf (labelled workflow_node_total (wf.namespace ∷ wf.name ∷ []))
  unfolding labels kind
  node_total-Own = own _ _ refl refl refl (λ e. cc)

  node_phase-Own : (p : String) → Own wf (node_phase_series wf p)
  unfolding labels kind
  node_phase-Own p = own _ _ refl refl refl (λ e. cc)

-- To show something of every call of `collectWorkflowSeries`, show it of setting an own series.
module _ (wf : Workflow) (P : Write → Type 0)
    (h : (x : Series) (v : Sample) → Own wf x → P (set x v)) where
  set_each-All {ν} :
      {V : Type ν} (g : V → Sample) (d : Dict String V)
      → All P (set_each (node_phase_series wf) g d)
  set_each-All g [] = tt
  set_each-All g ((k, v) ∷ d) = (h _ _ (node_phase-Own wf k), set_each-All g d)

  set_nodes-All : (o : Option (Dict String String)) → All P (set_nodes wf o)
  set_nodes-All none = tt
  set_nodes-All (some nodes) = (h _ _ (node_total-Own wf), set_each-All _ _)

  set_time-All :
      (m : Metric) (t : Time)
      → Own wf (labelled m (wf.namespace ∷ wf.name ∷ []))
      → All P (set_time wf m t)
  unfolding set_time
  set_time-All m t o = All-cond-one P _ _ (h _ _ o)

  positive_duration-All : (d : Duration) → All P (positive_duration wf d)
  positive_duration-All d =
      All-cond P (ltb_ℤ (pos 0) d) (w ∷ []) [] (h _ _ (duration-Own wf), tt) tt
    where
      w : Write
      w = set (labelled workflow_duration_seconds (wf.namespace ∷ wf.name ∷ wf.phase ∷ [])) d

  set_duration-All : (now : Time) → All P (set_duration wf now)
  unfolding set_duration
  set_duration-All now =
      All-cond P (is_zero wf.started_at) [] (positive_duration wf (run_time wf now)) tt
        (positive_duration-All _)

  pub collect-All : (now : Time) → All P (collect_workflow_series wf now)
  unfolding collect_workflow_series collect_node_metrics
  collect-All now = (
    h _ _ (phase-Own wf _),
    (
      h _ _ (phase-Own wf _),
      (
        h _ _ (phase-Own wf _),
        (
          h _ _ (phase-Own wf _),
          (
            h _ _ (phase-Own wf _),
            (
              h _ _ (info-Own wf),
              All-append P (set_time wf workflow_created_time wf.creation_timestamp) _
                  (set_time-All _ _ (created-Own wf))
                  (All-append P (set_time wf workflow_started_time wf.started_at) _
                    (set_time-All _ _ (started-Own wf))
                    (All-append P (set_time wf workflow_finished_time wf.finished_at) _
                      (set_time-All _ _ (finished-Own wf))
                      (All-append P (set_duration wf now) _ (set_duration-All now)
                        (set_nodes-All wf.nodes)))),
            ),
          ),
        ),
      ),
    ),
  )

-- The same for `deleteWorkflowSeries`.
module _ (wf : Workflow) (P : Write → Type 0) (h : (x : Series) → Own wf x → P (delete x)) where
  delete_each-All {ν} :
      {V : Type ν} (d : Dict String V) → All P (delete_each (node_phase_series wf) d)
  delete_each-All [] = tt
  delete_each-All ((k, v) ∷ d) = (h _ (node_phase-Own wf k), delete_each-All d)

  delete_nodes-All : (o : Option (Dict String String)) → All P (delete_node_phases wf o)
  delete_nodes-All none = tt
  delete_nodes-All (some nodes) = delete_each-All _

  pub delete-All : All P (delete_workflow_series wf)
  unfolding delete_workflow_series
  delete-All = (
    h _ (phase-Own wf _),
    (
      h _ (phase-Own wf _),
      (
        h _ (phase-Own wf _),
        (
          h _ (phase-Own wf _),
          (
            h _ (phase-Own wf _),
            (
              h _ (info-Own wf),
              (
                h _ (created-Own wf),
                (
                  h _ (started-Own wf),
                  (
                    h _ (finished-Own wf),
                    (h _ (duration-Own wf), (h _ (node_total-Own wf), delete_nodes-All wf.nodes)),
                  ),
                ),
              ),
            ),
          ),
        ),
      ),
    ),
  )

-- No call of the two functions makes the client library panic.
pub collect-IsLegal : (wf : Workflow) (now : Time) → All IsLegal (collect_workflow_series wf now)
collect-IsLegal wf = collect-All wf IsLegal (λ x v o. (o.has_labels, o.is_gauge))

pub delete-IsLegal : (wf : Workflow) → All IsLegal (delete_workflow_series wf)
delete-IsLegal wf = delete-All wf IsLegal (λ x o. o.has_labels)
