-- ===== src/Health/Overlap/Raised.antt =====
-- The gauges that are only ever raised: of the two synchronisations and of the shutdown.
use mathlib.Core.List.{append_assoc}
use argo_workflows_metrics.Base.{
  ◌≡◌, ◌≢◌, ◌⊎◌, inl, inr, refl, sym, ap, subst, ◌∙◌, Bool, true, false, Option, some, List, [],
  ◌∷◌, ◌++◌, All, All-append, All-map, Bool-cases, arith,
}
use argo_workflows_metrics.Base.Time.{Time, Duration}
use argo_workflows_metrics.Metrics.{
  Series, Sample, Write, set, Metric, effect, whole, exporter_shutting_down, exporter_is_leader,
  exporter_leader_transitions_total, exporter_liveness, exporter_readiness, series_eq,
}
use argo_workflows_metrics.Metrics.Registry.{Registry, IsLawful, run}
use argo_workflows_metrics.Metrics.Trace.{
  after, after-append, after_missed, effect_missed, target, Misses, value-run,
}
use argo_workflows_metrics.Health.{State, new_state, informer_synced, plain, mark_leader}
use argo_workflows_metrics.Health.Reach.{Call, leads, live_probe, ready_probe, step}
use argo_workflows_metrics.Health.Mirror.{bit, live-writes, ready-writes, workflow_ne_pod}
use argo_workflows_metrics.Health.Overlap.Raises.{IsRaise, effect-set, raised, All-remove, advanced}
use argo_workflows_metrics.Health.Overlap.{
  Shared, Step, locks, writes, Reach, here, next, calls_left,
}

pub data Flag : Type 0 where
  workflows pods shutdown : Flag

abbrev pub gauge_of : Flag → Series
gauge_of workflows = informer_synced "workflow"
gauge_of pods = informer_synced "pod"
gauge_of shutdown = plain exporter_shutting_down

abbrev pub is_up : Flag → State → Bool
is_up workflows s = s.workflow_synced
is_up pods s = s.pod_synced
is_up shutdown s = s.shutting_down

-- The call raises the flag, or it leaves both the flag and its gauge.
abbrev Raises : Flag → State → State × List Write → Type 0
Raises f s (s', ws) =
    ((is_up f s' ≡ true) × (ws ≡ set (gauge_of f) (whole 1) ∷ []))
    ⊎ ((is_up f s' ≡ is_up f s) × Misses (gauge_of f) ws)

-- The gauges of the leadership and of the probes are others.
abbrev is_other : Metric → Bool
is_other exporter_is_leader = true
is_other exporter_leader_transitions_total = true
is_other exporter_liveness = true
is_other exporter_readiness = true
is_other _ = false

gauge_ne_other : (f : Flag) (x : Series) → is_other x.metric ≡ true → gauge_of f ≢ x
gauge_ne_other workflows x e h = absurd (cc (e, h))
gauge_ne_other pods x e h = absurd (cc (e, h))
gauge_ne_other shutdown x e h = absurd (cc (e, h))

is_up-leads : (f : Flag) (s : State) (b : Bool) → is_up f (record s { is_leader = b }) ≡ is_up f s
is_up-leads workflows s b = refl
is_up-leads pods s b = refl
is_up-leads shutdown s b = refl

step-Raises : (f : Flag) (s : State) (call : Call) → Raises f s (step s call)
unfolding step mark_leader
step-Raises f s (leads true) =
    inr (is_up-leads f s true, (gauge_ne_other f _ refl, (gauge_ne_other f _ refl, tt)))
step-Raises f s (leads false) =
    inr (is_up-leads f s false, (gauge_ne_other f _ refl, (gauge_ne_other f _ refl, tt)))
step-Raises f s (live_probe now) =
    rw (live-writes now s) (inr (refl, (gauge_ne_other f _ refl, tt)))
step-Raises f s (ready_probe now) =
    rw (ready-writes now s) (inr (refl, (gauge_ne_other f _ refl, tt)))
step-Raises f s call = ground (arith, workflow_ne_pod)

-- What holds of a gauge with a value, of its flag and of the calls that are left.
record Follows (x : Series) (up : Bool) (value : Option Sample) (ws : List Write) : Type 0 where
  raises : All (IsRaise x) ws
  low : up ≡ false → (value ≡ some (whole 0)) × Misses x ws
  high : up ≡ true → after x value ws ≡ some (whole 1)
  bits : (value ≡ some (whole 0)) ⊎ (value ≡ some (whole 1))

abbrev FollowsAt : Flag → Shared → Option Sample → Type 0
FollowsAt f s value = Follows (gauge_of f) (is_up f s.state) value (calls_left s.pending)

Misses-raises : (x : Series) (ws : List Write) → Misses x ws → All (IsRaise x) ws
Misses-raises x ws = All-map _ _ ws (λ w n. inl n)

locks-Follows :
    (x : Series) (up up' : Bool) (value : Option Sample) (ws vs : List Write)
    → ((up' ≡ true) × (vs ≡ set x (whole 1) ∷ [])) ⊎ ((up' ≡ up) × Misses x vs)
    → Follows x up value ws
    → Follows x up' value (vs ++ ws)
locks-Follows x up up' value ws vs (inl (u, e)) f =
    subst (λ us. Follows x up' value (us ++ ws)) (sym e)
      record {
        raises = (inr refl, f.raises);
        low = λ d. absurd (cc (u, d));
        high = λ _. ap (λ o. after x o ws) (effect-set x value (whole 1)) ∙ raised x ws f.raises;
        bits = f.bits;
      }
locks-Follows x up up' value ws vs (inr (u, n)) f = record {
  raises = All-append _ vs ws (Misses-raises x vs n) f.raises;
  low = λ d. let (e, o) = f.low (sym u ∙ d) in (e, All-append _ vs ws n o);
  high = λ d.
      after-append x value vs ws
      ∙ ap (λ o. after x o ws) (after_missed x value vs n)
      ∙ f.high (sym u ∙ d);
  bits = f.bits;
}

writes-Follows :
    (x : Series) (up : Bool) (value : Option Sample) (us ws : List Write) (w : Write)
    → Follows x up value (us ++ (w ∷ ws))
    → Follows x up (effect x value w) (us ++ ws)
writes-Follows x up value us ws w f = record {
  raises = (All-remove (IsRaise x) us ws w f.raises).1;
  low = λ d.
      let (e, o) = f.low d in
      let (n, q) = All-remove (λ v. x ≢ target v) us ws w o in (effect_missed x value w n ∙ e, q);
  high = λ d. advanced x value us ws w f.raises (f.high d);
  bits = elim (All-remove (IsRaise x) us ws w f.raises).0 [
    | inl n ↦
        subst (λ o. (o ≡ some (whole 0)) ⊎ (o ≡ some (whole 1))) (sym (effect_missed x value w n))
          f.bits
    | inr r ↦ inr (ap (effect x value) r ∙ effect-set x value (whole 1))
  ];
}

calls_left-append :
    (before later : List (List Write)) (ws : List Write)
    → calls_left (before ++ (ws ∷ later)) ≡ calls_left before ++ (ws ++ calls_left later)
calls_left-append [] later ws = refl
calls_left-append (us ∷ before) later ws =
    ap (λ vs. us ++ vs) (calls_left-append before later ws)
    ∙ sym (append_assoc us (calls_left before) (ws ++ calls_left later))

Step-FollowsAt :
    (f : Flag) (s t : Shared) (value : Option Sample) (ws : List Write)
    → Step s t ws
    → FollowsAt f s value
    → FollowsAt f t (after (gauge_of f) value ws)
Step-FollowsAt f s t value ws (locks call) v =
    locks-Follows (gauge_of f) (is_up f s.state) _ value (calls_left s.pending) _
      (step-Raises f s.state call) v
Step-FollowsAt f s t value ws (writes w us before later e) v =
    let l = calls_left before in
    let m = us ++ calls_left later in
    subst (Follows (gauge_of f) (is_up f s.state) (effect (gauge_of f) value w))
      (sym (calls_left-append before later us))
      (writes-Follows (gauge_of f) (is_up f s.state) value l m w (
        subst (Follows (gauge_of f) (is_up f s.state) value)
          (ap calls_left e ∙ calls_left-append before later (w ∷ us)) v))

Reach-FollowsAt :
    (f : Flag) (s t : Shared) (value : Option Sample) (ws : List Write)
    → Reach s t ws
    → FollowsAt f s value
    → FollowsAt f t (after (gauge_of f) value ws)
Reach-FollowsAt f s t value ws here v = v
Reach-FollowsAt f s u value us (next {t} {ws = ws} {vs = vs} r st) v =
    subst (FollowsAt f u) (sym (after-append (gauge_of f) value ws vs))
      (Step-FollowsAt f t u _ vs st (Reach-FollowsAt f s t value ws r v))

new_state-zero :
    (now : Time) (grace threshold : Duration) (elect : Bool) (f : Flag) (old : Option Sample)
    → (after (gauge_of f) old (new_state now grace threshold elect).1 ≡ some (whole 0))
      × (is_up f (new_state now grace threshold elect).0 ≡ false)
unfolding new_state
new_state-zero now grace threshold elect f old = ground (arith, workflow_ne_pod)

new_state-FollowsAt :
    (now : Time) (grace threshold : Duration) (elect : Bool) (f : Flag) (old : Option Sample)
    → FollowsAt f
        (record { state = (new_state now grace threshold elect).0; pending = [] })
        (after (gauge_of f) old (new_state now grace threshold elect).1)
new_state-FollowsAt now grace threshold elect f old =
    let (e, d) = new_state-zero now grace threshold elect f old in
    record { raises = tt; low = λ _. (e, tt); high = λ u. absurd (cc (u, d)); bits = inl e }

-- A gauge agrees with its flag, or the flag is up and the calls that are left will raise it.
abbrev pub Trails : Flag → Shared → Option Sample → Type 0
Trails f t shown =
    (shown ≡ some (bit (is_up f t.state)))
    ⊎ ((is_up f t.state ≡ true)
        × (shown ≡ some (whole 0))
        × (after (gauge_of f) shown (calls_left t.pending) ≡ some (whole 1)))

FollowsAt-Trails :
    (f : Flag) (t : Shared) (value : Option Sample) → FollowsAt f t value → Trails f t value
FollowsAt-Trails f t value v = elim (Bool-cases (is_up f t.state)) [
  | inl u ↦ elim v.bits [ inl z ↦ inr (u, z, v.high u) | inr e ↦ inl (rw u e) ]
  | inr d ↦ inl (rw d (v.low d).0)
]

-- From the creation of the health state, however many goroutines call its operations and probes and
-- however their accesses under the lock and their later calls on the metrics overlap, on a lawful
-- registry, each gauge of the two informers' synchronisation and of the shutdown agrees with its
-- flag in the state, or the flag is up, the gauge is still 0, and the calls on the metrics that are
-- left to make will set it to 1.
pub overlapped-Trails :
    (R : Registry) (L : IsLawful R) (r : R.State) (now : Time) (grace threshold : Duration)
    (elect : Bool) (t : Shared) (ws : List Write) (f : Flag)
    → let (s, us) = new_state now grace threshold elect in
      Reach (record { state = s; pending = [] }) t ws
      → Trails f t (R.value (run R (us ++ ws) r) (gauge_of f))
overlapped-Trails R L r now grace threshold elect t ws f reach =
    let (s, us) = new_state now grace threshold elect in
    let x = gauge_of f in
    subst (Trails f t) (sym (value-run R L (us ++ ws) r x ∙ after-append x (R.value r x) us ws)) (
      FollowsAt-Trails f t _ (
        Reach-FollowsAt f (record { state = s; pending = [] }) t _ ws reach
          (new_state-FollowsAt now grace threshold elect f (R.value r x))))
