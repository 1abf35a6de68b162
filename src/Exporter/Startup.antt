-- ===== src/Exporter/Startup.antt =====
-- What holds of a start that is accepted.
use argo_workflows_metrics.Base.{
  ◌⊎◌, inl, inr, ◌≡◌, refl, ap, subst, true, false, Option, arith, All, Bool-cases,
}
use argo_workflows_metrics.Base.Int.{pos, pos_part, neg_part, ◌≤ℤ◌, ◌<ℤ◌}
use argo_workflows_metrics.Base.Time.{Time}
use argo_workflows_metrics.Metrics.{IsLegal, labels, kind}
use argo_workflows_metrics.Health.{State, is_live, is_ready, new_state}
use argo_workflows_metrics.Shard.{Text, Result, ok, err, Matcher, single_of}
use argo_workflows_metrics.Shard.Bounds.{IsBuilt, build-IsBuilt}
use argo_workflows_metrics.Exporter.{
  Flags, Outcome, fatal, built, Built, build, start, start_with, is_sharded,
}

-- A new health state is alive, and not ready until the informers have synced.
record Fresh (s : State) : Type 0 where
  lives : (now : Time) → (is_live now s).ok ≡ true
  waits : (now : Time) → (is_ready now s).ok ≡ false

build-Fresh : (flags : Flags) (now : Time) (m : Matcher) → Fresh (build flags now m).health_state
unfolding build new_state is_live is_ready
build-Fresh flags now m = record { lives = λ t. refl; waits = λ t. ground arith }

build-IsLegal : (flags : Flags) (now : Time) (m : Matcher) → All IsLegal (build flags now m).writes
unfolding build new_state labels kind
build-IsLegal flags now m = ground arith

-- What an accepted start has built.
pub record Started (flags : Flags) (b : Built) : Type 0 where
  pub has_shards : pos 1 ≤ℤ flags.shard_total
  pub exclusive : (flags.leader_elect ≡ false) ⊎ (flags.shard_total ≡ pos 1)
  pub in_range : (pos 0 ≤ℤ b.matcher.index) × (b.matcher.index <ℤ flags.shard_total)
  pub lives : (now : Time) → (is_live now b.health_state).ok ≡ true
  pub waits : (now : Time) → (is_ready now b.health_state).ok ≡ false
  pub legal : All IsLegal b.writes

abbrev IsStarted : Flags → Outcome → Type 0
IsStarted flags (fatal f) = Unit
IsStarted flags (built b) = Started flags b

build-Started :
    (flags : Flags) (now : Time) (m : Matcher)
    → (pos 1 ≤ℤ flags.shard_total)
      × ((flags.leader_elect ≡ false) ⊎ (flags.shard_total ≡ pos 1))
      × ((pos 0 ≤ℤ m.index) × (m.index <ℤ flags.shard_total))
    → Started flags (build flags now m)
unfolding build
build-Started flags now m (h, x, r) =
    let f = build-Fresh flags now m in
    record {
      has_shards = h;
      exclusive = x;
      in_range = r;
      lives = f.lives;
      waits = f.waits;
      legal = build-IsLegal flags now m;
    }

start_with-IsStarted :
    (flags : Flags) (now : Time) (r : Result Matcher)
    → IsBuilt flags.namespace flags.shard_total r
    → IsStarted flags (start_with flags now r)
start_with-IsStarted flags now (err e) h = tt
start_with-IsStarted flags now (ok m) (inl (t, e)) = simp e (
    build-Started flags now (single_of flags.namespace) (
      omega (arith, ap pos_part t, ap neg_part t),
      inr t,
      (omega arith, omega (arith, ap pos_part t, ap neg_part t)),
    ))
start_with-IsStarted flags now (ok m) (inr (h, u, e)) =
    let sharded : is_sharded m.mode ≡ true = ap (λ (n : Matcher). is_sharded n.mode) e in
    elim (Bool-cases flags.leader_elect) [
      | inl x ↦ simp (sharded, x) tt
      | inr x ↦ simp (sharded, x) (build-Started flags now m (omega (arith, h), inl x, u))
    ]

-- A start that is not refused has at least one shard and exactly one if leaders are elected, an
-- index in [0, total), a health state that is alive and not ready at every time, and has made no
-- call on which the client library panics.
pub start-Started :
    (host : Option Text) (flags : Flags) (now : Time) (b : Built)
    → start host flags now ≡ built b
    → Started flags b
unfolding start
start-Started host flags now b e = subst (IsStarted flags) e (
    start_with-IsStarted flags now _
      (build-IsBuilt host flags.namespace flags.shard_total flags.shard_index))
