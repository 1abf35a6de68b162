-- ===== src/Health/Readiness.antt =====
-- What the probes answer: `IsReady` and `IsLive` against descriptions that do not follow the code.
use argo_workflows_metrics.Base.{
  ℕ, ◌+◌, ◌-◌, ◌^◌, ◌≤◌, ◌<◌, ◌≡◌, ◌↔◌, ◌⊎◌, ◌≢◌, true, false, arith, nat_eq,
}
use argo_workflows_metrics.Base.Int.{pos, ◌≤ℤ◌, ◌<ℤ◌}
use argo_workflows_metrics.Base.Time.{Time, zero_time, sub, sub_exact}
use argo_workflows_metrics.Health.{State, is_ready, is_fresh, max_time, stale}

-- The later of the two events.
pub max_time_lem :
    (a b : Time)
    → (a ≤ max_time a b) × (b ≤ max_time a b) × ((max_time a b ≡ a) ⊎ (max_time a b ≡ b))
unfolding max_time
max_time_lem a b = ground arith

abbrev pub last_event_of : State → Time
last_event_of s = max_time s.last_workflow_evt s.last_pod_evt

-- Events are recent enough: the check is off, or the grace period lasts, or no event has come yet,
-- or the last one is not older than the threshold.
abbrev pub IsRecent : Time → State → Type 0
IsRecent now s =
    (s.stale_threshold ≤ℤ pos 0)
    ⊎ (sub now s.started_at <ℤ s.startup_grace)
    ⊎ (last_event_of s ≡ zero_time)
    ⊎ (sub now (last_event_of s) ≤ℤ s.stale_threshold)

-- The replica serves: it is not shutting down, leads if it has to, and both informers are synced.
pub record Serves (s : State) : Type 0 where
  pub up : s.shutting_down ≡ false
  pub leads : s.leader_elect ≡ true → s.is_leader ≡ true
  pub workflows : s.workflow_synced ≡ true
  pub pods : s.pod_synced ≡ true

fresh_iff : (now : Time) (s : State) → ((is_fresh now s).ok ≡ true) ↔ IsRecent now s
unfolding is_fresh
fresh_iff now s = ground arith

-- The readiness probe answers ok if and only if the replica is not shutting down, leads if leader
-- election is on, has both informers synced, and its events are recent: the staleness check is off,
-- the grace period lasts, no event has come, or the latest event is not older than the threshold.
pub ready_iff :
    (now : Time) (s : State) → ((is_ready now s).ok ≡ true) ↔ (Serves s × IsRecent now s)
unfolding is_ready
ready_iff now s =
    (λ h. (serves h, (fresh_iff now s).0 (fresh h)), λ (v, r). ready v ((fresh_iff now s).1 r))
  where
    serves : (is_ready now s).ok ≡ true → Serves s
    serves h = ground arith

    fresh : (is_ready now s).ok ≡ true → (is_fresh now s).ok ≡ true
    fresh h = ground arith

    ready : Serves s → (is_fresh now s).ok ≡ true → (is_ready now s).ok ≡ true
    ready v r = ground arith

-- With a positive threshold, after the grace period, a replica that serves and has seen an event,
-- not later than now and at most 2^63 - 1 ns ago, answers by the age of the latest event alone: ok
-- up to the threshold, and beyond it not ok, with the age as the reason.
pub ready_by_age :
    (now : Time) (s : State) (threshold : ℕ)
    → Serves s
    → s.stale_threshold ≡ pos threshold
    → 0 < threshold
    → s.startup_grace ≤ℤ sub now s.started_at
    → last_event_of s ≢ zero_time
    → last_event_of s ≤ now
    → now ≤ last_event_of s + (2 ^ 63 - 1)
    → ((now ≤ last_event_of s + threshold) × ((is_ready now s).ok ≡ true))
      ⊎ ((last_event_of s + threshold < now)
          × ((is_ready now s).ok ≡ false)
          × ((is_ready now s).reason ≡ stale (pos (now - last_event_of s))))
unfolding is_ready is_fresh
ready_by_age now s threshold v e p g n l u = ground (arith, sub_exact now (last_event_of s) l u)
