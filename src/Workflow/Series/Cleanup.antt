-- ===== src/Workflow/Series/Cleanup.antt =====
-- `deleteWorkflowSeries` removes every series that `collectWorkflowSeries` sets for the same
-- workflow.
use mathlib.Core.List.{Memᴰ}
use argo_workflows_metrics.Base.{
  ℕ, zero, suc, ◌≡◌, refl, ◌∙◌, subst, get_elem?, String, true, Option, none, some, List, [], ◌∷◌,
  ◌++◌, arith, All, All-append, All-cond, All-cond-one, string_eq,
}
use argo_workflows_metrics.Base.Time.{Time, is_zero}
use argo_workflows_metrics.Base.Int.{pos, ltb_ℤ}
use argo_workflows_metrics.Base.Dict.{Dict, lookup, contains}
use argo_workflows_metrics.Base.Dict.Count.{tally, mark_all, lookup-tally, contains-mark_all}
use argo_workflows_metrics.Metrics.{
  Metric, Series, Sample, Write, whole, set, delete, inc, add, observe, effect, labelled, series_eq,
  workflow_created_time, workflow_started_time, workflow_finished_time, workflow_duration_seconds,
  workflow_node_total,
}
use argo_workflows_metrics.Metrics.Trace.{after, target, after-append}
use argo_workflows_metrics.Metrics.Loops.{set_each, delete_each, after-delete_each}
use argo_workflows_metrics.Workflow.{Workflow}
use argo_workflows_metrics.Workflow.Series.{
  phase_of_node, set_nodes, run_time, positive_duration, set_time, set_duration, node_phase_series,
  collect_node_metrics, collect_workflow_series, delete_node_phases, delete_workflow_series,
}

-- After the calls the series is gone.
abbrev pub Clears : List Write → Series → Type 0
Clears ws x = (old : Option Sample) → after x old ws ≡ none

abbrev pub IsDelete : Write → Type 0
IsDelete (delete x) = Unit
IsDelete _ = ⊥

pub after-deletes : (x : Series) (ws : List Write) → All IsDelete ws → after x none ws ≡ none
after-deletes x [] h = refl
after-deletes x (delete y ∷ ws) h = ground (arith, after-deletes x ws h.1)
after-deletes x (w ∷ ws) h = absurd h.0

Clears-mem : (x : Series) (ws : List Write) → All IsDelete ws → Memᴰ (delete x) ws → Clears ws x
Clears-mem x [] h m = elim m [ ]
Clears-mem x (w ∷ ws) h (Memᴰ.head e) = λ old.
    subst (λ v. after x (effect x old v) ws ≡ none) e (ground (arith, after-deletes x ws h.1))
Clears-mem x (w ∷ ws) h (Memᴰ.tail m) = λ old. Clears-mem x ws h.1 m (effect x old w)

effect-Clears :
    (x : Series) (old : Option Sample) (w : Write) (ds : List Write)
    → Clears ds (target w)
    → after x (effect x old w) ds ≡ after x old ds
effect-Clears x old (set y v) ds c = ground (arith, c old, c (some v))
effect-Clears x old (delete y) ds c = ground (arith, c old, c none)
effect-Clears x old (inc y) ds c = ground (arith, c old, c (effect y old (inc y)))
effect-Clears x old (add y v) ds c = ground (arith, c old, c (effect y old (add y v)))
effect-Clears x old (observe y v) ds c = refl

-- What was set and is cleared afterwards might as well not have been set.
pub after-Clears :
    (x : Series) (old : Option Sample) (ws ds : List Write)
    → All (λ w. Clears ds (target w)) ws
    → after x (after x old ws) ds ≡ after x old ds
after-Clears x old [] ds h = refl
after-Clears x old (w ∷ ws) ds h =
    after-Clears x (effect x old w) ws ds h.1 ∙ effect-Clears x old w ds h.0

pub Clears-append_right : (x : Series) (ws ds : List Write) → Clears ds x → Clears (ws ++ ds) x
Clears-append_right x ws ds c old = after-append x old ws ds ∙ c (after x old ws)

mem_at : (n : ℕ) (w : Write) (ws : List Write) → get_elem? ws n ≡ some w → Memᴰ w ws
mem_at n w [] h = cc
mem_at zero w (v ∷ ws) h = Memᴰ.head (ground arith)
mem_at (suc n) w (v ∷ ws) h = Memᴰ.tail (mem_at n w ws h)

-- A loop over the keys of one map is undone by a loop over a map that has them all.
module _ {ν} {V : Type ν} (f : String → Series) (g : V → Sample) (ds : List Write) where
  set_each-Clears :
      (d : Dict String V)
      → ((k : String) → contains k d ≡ true → Clears ds (f k))
      → All (λ w. Clears ds (target w)) (set_each f g d)
  unfolding lookup
  set_each-Clears [] h = tt
  set_each-Clears ((k, v) ∷ d) h =
      (h k (ground arith), set_each-Clears d (λ j c. h j (ground arith)))

delete_each-IsDelete {ν} :
    {V : Type ν} (f : String → Series) (d : Dict String V) → All IsDelete (delete_each f d)
delete_each-IsDelete f [] = tt
delete_each-IsDelete f ((k, v) ∷ d) = (tt, delete_each-IsDelete f d)

module _ (wf : Workflow) where
  abbrev pub Cleared : Series → Type 0
  Cleared = Clears (delete_workflow_series wf)

  abbrev pub AllCleared : List Write → Type 0
  AllCleared = All λ w. Cleared (target w)

  delete_node_phases-IsDelete :
      (o : Option (Dict String String)) → All IsDelete (delete_node_phases wf o)
  delete_node_phases-IsDelete none = tt
  delete_node_phases-IsDelete (some nodes) = delete_each-IsDelete (node_phase_series wf) _

  pub delete_workflow_series-IsDelete : All IsDelete (delete_workflow_series wf)
  unfolding delete_workflow_series
  delete_workflow_series-IsDelete = (
    tt,
    (
      tt,
      (tt, (tt, (tt, (tt, (tt, (tt, (tt, (tt, (tt, delete_node_phases-IsDelete wf.nodes))))))))),
    ),
  )

  -- The n-th call deletes the series.
  Cleared-at :
      (n : ℕ) (x : Series) → get_elem? (delete_workflow_series wf) n ≡ some (delete x) → Cleared x
  Cleared-at n x h = Clears-mem x _ delete_workflow_series-IsDelete (mem_at n _ _ h)

  Cleared-by_nodes : (x : Series) → Clears (delete_node_phases wf wf.nodes) x → Cleared x
  unfolding delete_workflow_series
  Cleared-by_nodes x c old = c _

  node_phase-injective : (j k : String) → node_phase_series wf j ≡ node_phase_series wf k → j ≡ k
  node_phase-injective j k e = cc

  node_phase-cleared :
      (nodes : Dict String String) (k : String)
      → contains k (tally phase_of_node [] nodes) ≡ true
      → Clears
          (delete_each (node_phase_series wf) (mark_all phase_of_node [] nodes))
          (node_phase_series wf k)
  unfolding lookup
  node_phase-cleared nodes k h old = ground (
    arith,
    after-delete_each (node_phase_series wf) node_phase-injective k old
        (mark_all phase_of_node [] nodes),
    lookup-tally phase_of_node k [] nodes,
    contains-mark_all phase_of_node k [] nodes,
  )

  set_nodes-Clears :
      (ds : List Write)
      → Clears ds (labelled workflow_node_total (wf.namespace ∷ wf.name ∷ []))
      → (o : Option (Dict String String))
      → ((x : Series) → Clears (delete_node_phases wf o) x → Clears ds x)
      → All (λ w. Clears ds (target w)) (set_nodes wf o)
  set_nodes-Clears ds c none h = tt
  set_nodes-Clears ds c (some nodes) h = (
    c,
    set_each-Clears (node_phase_series wf) whole ds (tally phase_of_node [] nodes)
        (λ k e. h _ (node_phase-cleared nodes k e)),
  )

  nodes-cleared : AllCleared (collect_node_metrics wf)
  unfolding collect_node_metrics delete_workflow_series
  nodes-cleared =
      set_nodes-Clears (delete_workflow_series wf) (Cleared-at 10 _ refl) wf.nodes Cleared-by_nodes

  time-Cleared :
      (m : Metric) (t : Time)
      → Cleared (labelled m (wf.namespace ∷ wf.name ∷ []))
      → AllCleared (set_time wf m t)
  unfolding set_time
  time-Cleared m t c = All-cond-one _ _ _ c

  duration-cleared : (now : Time) → AllCleared (set_duration wf now)
  unfolding set_duration delete_workflow_series
  duration-cleared now =
      All-cond C (is_zero wf.started_at) [] (positive_duration wf (run_time wf now)) tt
        (All-cond C (ltb_ℤ (pos 0) (run_time wf now)) (w ∷ []) [] (Cleared-at 9 _ refl, tt) tt)
    where
      C : Write → Type 0
      C v = Cleared (target v)

      w : Write
      w =
          set (labelled workflow_duration_seconds (wf.namespace ∷ wf.name ∷ wf.phase ∷ []))
            (run_time wf now)

  pub collect-cleared : (now : Time) → AllCleared (collect_workflow_series wf now)
  unfolding collect_workflow_series delete_workflow_series
  collect-cleared now = (
    Cleared-at 0 _ refl,
    (
      Cleared-at 1 _ refl,
      (
        Cleared-at 2 _ refl,
        (Cleared-at 3 _ refl, (Cleared-at 4 _ refl, (Cleared-at 5 _ refl, times))),
      ),
    ),
  )
    where
      rest : AllCleared (set_duration wf now ++ collect_node_metrics wf)
      rest = All-append _ (set_duration wf now) _ (duration-cleared now) nodes-cleared

      times : AllCleared (
          set_time wf workflow_created_time wf.creation_timestamp
          ++ (set_time wf workflow_started_time wf.started_at
              ++ (set_time wf workflow_finished_time wf.finished_at
                  ++ (set_duration wf now ++ collect_node_metrics wf))))
      times =
          All-append _ (set_time wf workflow_created_time wf.creation_timestamp) _
            (time-Cleared _ _ (Cleared-at 6 _ refl))
            (All-append _ (set_time wf workflow_started_time wf.started_at) _
              (time-Cleared _ _ (Cleared-at 7 _ refl))
              (All-append _ (set_time wf workflow_finished_time wf.finished_at) _
                (time-Cleared _ _ (Cleared-at 8 _ refl)) rest))

  -- Deleting a workflow's series after collecting them leaves of every series what the deletion
  -- alone would leave, whatever was exposed before.
  pub delete-collect :
      (now : Time) (x : Series) (old : Option Sample)
      → after x old (collect_workflow_series wf now ++ delete_workflow_series wf)
        ≡ after x old (delete_workflow_series wf)
  delete-collect now x old =
      after-append x old (collect_workflow_series wf now) (delete_workflow_series wf)
      ∙ after-Clears x old (collect_workflow_series wf now) (delete_workflow_series wf)
          (collect-cleared now)
