-- ===== src/Pod/Restarts.antt =====
-- The restart counters: adding pods never lowers one, and a termination is counted once.
use argo_workflows_metrics.Base.{
  ◌≡◌, refl, sym, ◌∙◌, String, Bool, true, false, not, ◌&&◌, Option, none, some, List, [], ◌∷◌,
  arith, All, All-map, string_eq, ◌==◌, if◌then◌else◌, is_some, inl, inr, Bool-cases,
}
use argo_workflows_metrics.Base.Int.{ℤ, ◌≤ℤ◌}
use argo_workflows_metrics.Base.Dict.{Dict, insert, lookup-insert}
use argo_workflows_metrics.Pod.{
  Terminated, ContainerStatus, Pod, PodCollector, container_state_key, workflow_of, seen,
  count_termination, count_last, count_statuses, collect_pod_metrics, add_pod,
}

-- No counter falls.
abbrev pub Grows : Dict String ℤ → Dict String ℤ → Type 0
Grows old new = (k : String) → seen k old ≤ℤ seen k new

Grows-refl : (d : Dict String ℤ) → Grows d d
Grows-refl d k = omega arith

Grows-trans : (d e f : Dict String ℤ) → Grows d e → Grows e f → Grows d f
Grows-trans d e f g h k = omega (arith, g k, h k)

seen-insert :
    (j k : String) (n : ℤ) (d : Dict String ℤ)
    → seen j (insert k n d) ≡ (if j == k then n else seen j d)
seen-insert j k n d = ground (arith, lookup-insert j k n d)

count_termination-Grows :
    (pod : Pod) (status : ContainerStatus) (t : Terminated) (d : Dict String ℤ)
    → Grows d (count_termination pod status t d).0
unfolding count_termination
count_termination-Grows pod status t d j =
    ground (arith, seen-insert j (container_state_key pod status.name) status.restart_count d)

count_last-Grows :
    (pod : Pod) (status : ContainerStatus) (o : Option Terminated) (d : Dict String ℤ)
    → Grows d (count_last pod status o d).0
count_last-Grows pod status none d = Grows-refl d
count_last-Grows pod status (some t) d = count_termination-Grows pod status t d

count_statuses-Grows :
    (pod : Pod) (statuses : List ContainerStatus) (d : Dict String ℤ)
    → Grows d (count_statuses pod statuses d).0
unfolding count_statuses
count_statuses-Grows pod [] d = Grows-refl d
count_statuses-Grows pod (status ∷ statuses) d =
    let d' = (count_last pod status status.last_termination d).0 in
    Grows-trans d d' _ (count_last-Grows pod status status.last_termination d)
      (count_statuses-Grows pod statuses d')

-- The restarts of the status, if it shows a termination, have been counted.
abbrev pub Counted : Pod → Dict String ℤ → ContainerStatus → Type 0
Counted pod d status =
    is_some status.last_termination ≡ true
    → status.restart_count ≤ℤ seen (container_state_key pod status.name) d

Counted-Grows :
    (pod : Pod) (d e : Dict String ℤ)
    → Grows d e
    → (status : ContainerStatus) → Counted pod d status
    → Counted pod e status
Counted-Grows pod d e g status h t = omega (arith, h t, g (container_state_key pod status.name))

count_termination-counts :
    (pod : Pod) (status : ContainerStatus) (t : Terminated) (d : Dict String ℤ)
    → status.restart_count
      ≤ℤ seen (container_state_key pod status.name) (count_termination pod status t d).0
unfolding count_termination
count_termination-counts pod status t d =
    let k = container_state_key pod status.name in
    ground (arith, seen-insert k k status.restart_count d)

count_last-counts :
    (pod : Pod) (status : ContainerStatus) (o : Option Terminated) (d : Dict String ℤ)
    → is_some o ≡ true
    → status.restart_count
      ≤ℤ seen (container_state_key pod status.name) (count_last pod status o d).0
count_last-counts pod status none d e = absurd cc
count_last-counts pod status (some t) d e = count_termination-counts pod status t d

count_statuses-Counted :
    (pod : Pod) (statuses : List ContainerStatus) (d : Dict String ℤ)
    → All (Counted pod (count_statuses pod statuses d).0) statuses
unfolding count_statuses
count_statuses-Counted pod [] d = tt
count_statuses-Counted pod (status ∷ statuses) d =
    let d' = (count_last pod status status.last_termination d).0 in
    (
      Counted-Grows pod d' _ (count_statuses-Grows pod statuses d') status
          (count_last-counts pod status status.last_termination d),
      count_statuses-Counted pod statuses d',
    )

count_last-quiet :
    (pod : Pod) (status : ContainerStatus) (o : Option Terminated) (d : Dict String ℤ)
    → (is_some o ≡ true → status.restart_count ≤ℤ seen (container_state_key pod status.name) d)
    → count_last pod status o d ≡ (d, [])
unfolding count_termination
count_last-quiet pod status none d h = refl
count_last-quiet pod status (some t) d h = let l = h refl in ground arith

-- Nothing is counted a second time.
count_statuses-quiet :
    (pod : Pod) (statuses : List ContainerStatus) (d : Dict String ℤ)
    → All (Counted pod d) statuses
    → count_statuses pod statuses d ≡ (d, [])
unfolding count_statuses
count_statuses-quiet pod [] d h = refl
count_statuses-quiet pod (status ∷ statuses) d h =
    rw
      (
        count_last-quiet pod status status.last_termination d h.0,
        count_statuses-quiet pod statuses d h.1,
      )
      refl

pub add_pod-Grows :
    (o : Option Pod) (c : PodCollector) → Grows c.restart_counters (add_pod o c).0.restart_counters
unfolding add_pod collect_pod_metrics
add_pod-Grows none c j = Grows-refl c.restart_counters j
add_pod-Grows (some pod) c j =
    ground (arith, count_statuses-Grows pod pod.container_statuses c.restart_counters j)

-- Pods added one after the other.
abbrev pub add_pods : List (Option Pod) → PodCollector → PodCollector
add_pods [] c = c
add_pods (o ∷ os) c = add_pods os (add_pod o c).0

add_pods-Grows :
    (os : List (Option Pod)) (c : PodCollector)
    → Grows c.restart_counters (add_pods os c).restart_counters
add_pods-Grows [] c = Grows-refl c.restart_counters
add_pods-Grows (o ∷ os) c =
    Grows-trans c.restart_counters (add_pod o c).0.restart_counters _ (add_pod-Grows o c)
      (add_pods-Grows os (add_pod o c).0)

pub add_pod-mode :
    (o : Option Pod) (c : PodCollector)
    → (add_pod o c).0.collect_container_stats ≡ c.collect_container_stats
unfolding add_pod
add_pod-mode none c = refl
add_pod-mode (some pod) c = ground arith

add_pods-mode :
    (os : List (Option Pod)) (c : PodCollector)
    → (add_pods os c).collect_container_stats ≡ c.collect_container_stats
add_pods-mode [] c = refl
add_pods-mode (o ∷ os) c = add_pods-mode os (add_pod o c).0 ∙ add_pod-mode o c

-- The two conditions under which a pod is read at all.
abbrev pub is_read : Pod → PodCollector → Bool
is_read pod c = c.collect_container_stats && not (workflow_of pod == "")

-- Adding a pod that is read counts its terminations.
pub add_pod-Counted :
    (pod : Pod) (c : PodCollector)
    → is_read pod c ≡ true
    → All (Counted pod (add_pod (some pod) c).0.restart_counters) pod.container_statuses
unfolding add_pod collect_pod_metrics
add_pod-Counted pod c e =
    let (on, off) : (c.collect_container_stats ≡ true) × ((workflow_of pod == "") ≡ false) =
      ground arith in
    rw (on, off) (count_statuses-Counted pod pod.container_statuses c.restart_counters)

-- Adding a pod whose terminations were counted, or that is not read, does nothing on metrics.
pub add_pod-quiet :
    (pod : Pod) (c : PodCollector)
    → (is_read pod c ≡ true → All (Counted pod c.restart_counters) pod.container_statuses)
    → ((add_pod (some pod) c).1 ≡ [])
      × ((add_pod (some pod) c).0.restart_counters ≡ c.restart_counters)
unfolding add_pod collect_pod_metrics
add_pod-quiet pod c h = elim (Bool-cases (is_read pod c)) [
  | inl e ↦
      let q = count_statuses-quiet pod pod.container_statuses c.restart_counters (h e) in
      ground arith
  | inr e ↦ ground arith
]

-- A pod that was added once is counted once: adding it again, after any further pods were added in
-- between, makes no call on the metrics and changes no restart counter, whatever the collector held
-- before.
pub redelivered :
    (pod : Pod) (os : List (Option Pod)) (c : PodCollector)
    → let c' = add_pods os (add_pod (some pod) c).0 in
      ((add_pod (some pod) c').1 ≡ [])
      × ((add_pod (some pod) c').0.restart_counters ≡ c'.restart_counters)
redelivered pod os c =
    let c₁ = (add_pod (some pod) c).0 in
    add_pod-quiet pod (add_pods os c₁) λ e.
      All-map _ _ pod.container_statuses
        (Counted-Grows pod c₁.restart_counters _ (add_pods-Grows os c₁))
        (add_pod-Counted pod c (mode e))
  where
    mode : is_read pod (add_pods os (add_pod (some pod) c).0) ≡ true → is_read pod c ≡ true
    mode e = rw (sym (add_pod-mode (some pod) c), sym (add_pods-mode os (add_pod (some pod) c).0)) e
