-- ===== src/Exporter/Readiness.antt =====
-- What the readiness probe of a process answers, from what has happened to it.
use argo_workflows_metrics.Base.{
  ◌⊎◌, inl, inr, ◌≡◌, refl, sym, ap, ◌∙◌, ◌↔◌, Bool, true, false, ◌||◌, List, [], ◌∷◌, arith,
  Bool-cases, subst,
}
use argo_workflows_metrics.Base.Time.{Time}
use argo_workflows_metrics.Health.{State, is_ready, mark_leader, mark_shutting_down, new_state}
use argo_workflows_metrics.Health.Readiness.{Serves, IsRecent, ready_iff}
use argo_workflows_metrics.Health.Reach.{
  Call, leads, workflows_synced, pods_synced, shuts_down, workflow_event, pod_event, live_probe,
  ready_probe, step,
}
use argo_workflows_metrics.Shard.{Matcher}
use argo_workflows_metrics.Exporter.{
  Flags, build, Process, Happening, started_leading, stopped_leading, controllers_failed,
  interrupted, drained, calls, begin, happen, happenings,
}
use argo_workflows_metrics.Exporter.Lifecycle.{Tracked, begin-Tracked, happen-Tracked}

abbrev ends : Happening → Bool
ends interrupted = true
ends (calls shuts_down) = true
ends _ = false

abbrev syncs_workflows : Happening → Bool
syncs_workflows (calls workflows_synced) = true
syncs_workflows _ = false

abbrev syncs_pods : Happening → Bool
syncs_pods (calls pods_synced) = true
syncs_pods _ = false

-- Who leads after it.
abbrev led_by : Happening → Bool → Bool
led_by started_leading b = true
led_by stopped_leading b = false
led_by (calls (leads c)) b = c
led_by _ b = b

-- Whether something of the kind has happened.
abbrev has_happened : (Happening → Bool) → List Happening → Bool
has_happened f [] = false
has_happened f (h ∷ hs) = f h || has_happened f hs

abbrev led : List Happening → Bool → Bool
led [] b = b
led (h ∷ hs) b = led hs (led_by h b)

-- The state after some happenings, from the state before them.
record Reads (down workflows pods : Bool) (lead : Bool → Bool) (s t : State) : Type 0 where
  shuts : t.shutting_down ≡ (down || s.shutting_down)
  workflows_seen : t.workflow_synced ≡ (workflows || s.workflow_synced)
  pods_seen : t.pod_synced ≡ (pods || s.pod_synced)
  leading : t.is_leader ≡ lead s.is_leader
  elects : t.leader_elect ≡ s.leader_elect

abbrev ReadsOne : Happening → State → State → Type 0
ReadsOne h = Reads (ends h) (syncs_workflows h) (syncs_pods h) (led_by h)

abbrev ReadsAll : List Happening → State → State → Type 0
ReadsAll hs =
    Reads (has_happened ends hs) (has_happened syncs_workflows hs) (has_happened syncs_pods hs)
      (led hs)

step-ReadsOne : (s : State) (call : Call) → ReadsOne (calls call) s (step s call).0
unfolding step mark_leader
step-ReadsOne s (leads b) = ground arith
step-ReadsOne s workflows_synced = ground arith
step-ReadsOne s pods_synced = ground arith
step-ReadsOne s shuts_down = ground arith
step-ReadsOne s (workflow_event now) = ground arith
step-ReadsOne s (pod_event now) = ground arith
step-ReadsOne s (live_probe now) = ground arith
step-ReadsOne s (ready_probe now) = ground arith

happen-ReadsOne :
    (h : Happening) (p : Process) → Tracked p → ReadsOne h p.health (happen h p).0.health
unfolding happen mark_leader mark_shutting_down
happen-ReadsOne started_leading p t = ground arith
happen-ReadsOne stopped_leading p t = ground arith
happen-ReadsOne controllers_failed p t = ground arith
happen-ReadsOne interrupted p t = ground arith
happen-ReadsOne drained p t = ground arith
happen-ReadsOne (calls call) p t = step-ReadsOne p.health call

exited_stays : (hs : List Happening) (p : Process) → p.exited ≡ true → (happenings hs p).0 ≡ p
unfolding happenings
exited_stays [] p e = refl
exited_stays (h ∷ hs) p e = simp e (exited_stays hs p e)

Reads-trans :
    (h : Happening) (hs : List Happening) (s t u : State)
    → ReadsOne h s t
    → ReadsAll hs t u
    → ReadsAll (h ∷ hs) s u
Reads-trans h hs s t u a b = record {
  shuts = ground (arith, a.shuts, b.shuts);
  workflows_seen = ground (arith, a.workflows_seen, b.workflows_seen);
  pods_seen = ground (arith, a.pods_seen, b.pods_seen);
  leading = b.leading ∙ ap (led hs) a.leading;
  elects = b.elects ∙ a.elects;
}

happenings-ReadsAll :
    (hs : List Happening) (p : Process)
    → Tracked p
    → (happenings hs p).0.exited ≡ false
    → ReadsAll hs p.health (happenings hs p).0.health
unfolding happenings
happenings-ReadsAll [] p t e = record {
  shuts = refl;
  workflows_seen = refl;
  pods_seen = refl;
  leading = refl;
  elects = refl;
}
happenings-ReadsAll (h ∷ hs) p t e = elim (Bool-cases p.exited) [
  | inl x ↦ absurd (cc (x, ap (λ (q : Process). q.exited) (exited_stays (h ∷ hs) p x), e))
  | inr x ↦
      let next : (happenings (h ∷ hs) p).0 ≡ (happenings hs (happen h p).0).0 = simp x refl in
      let r =
        happenings-ReadsAll hs (happen h p).0 (happen-Tracked h p x t)
          (ap (λ (q : Process). q.exited) (sym next) ∙ e) in
      subst (λ (q : Process). ReadsAll (h ∷ hs) p.health q.health) (sym next)
        (Reads-trans h hs p.health (happen h p).0.health _ (happen-ReadsOne h p t) r)
]

-- The state with which a process begins.
record Starts (elect : Bool) (s : State) : Type 0 where
  up : s.shutting_down ≡ false
  unsynced : s.workflow_synced ≡ false
  pods_unsynced : s.pod_synced ≡ false
  elects : s.leader_elect ≡ elect
  follows : elect ≡ true → s.is_leader ≡ false

begin-Starts :
    (flags : Flags) (now : Time) (m : Matcher)
    → Starts flags.leader_elect (begin (build flags now m) flags.leader_elect).0.health
unfolding begin build new_state mark_leader
begin-Starts flags now m = ground arith

-- What has to have happened for a process to serve.
pub record HasServed (elect : Bool) (hs : List Happening) : Type 0 where
  pub up : has_happened ends hs ≡ false
  pub leads : (elect ≡ false) ⊎ (led hs false ≡ true)
  pub workflows : has_happened syncs_workflows hs ≡ true
  pub pods : has_happened syncs_pods hs ≡ true

or_false : (b c : Bool) → c ≡ false → (b || c) ≡ b
or_false b c e = ground arith

Serves-HasServed :
    (elect : Bool) (hs : List Happening) (s t : State)
    → Starts elect s
    → ReadsAll hs s t
    → (Serves t → HasServed elect hs) × (HasServed elect hs → Serves t)
Serves-HasServed elect hs s t b r =
    let down : t.shutting_down ≡ has_happened ends hs = r.shuts ∙ or_false _ _ b.up in
    let ws : t.workflow_synced ≡ has_happened syncs_workflows hs =
      r.workflows_seen ∙ or_false _ _ b.unsynced in
    let ps : t.pod_synced ≡ has_happened syncs_pods hs =
      r.pods_seen ∙ or_false _ _ b.pods_unsynced in
    let el : t.leader_elect ≡ elect = r.elects ∙ b.elects in
    let leader : elect ≡ true → t.is_leader ≡ led hs false =
      λ e. r.leading ∙ ap (led hs) (b.follows e) in
    (
      λ v. record {
        up = sym down ∙ v.up;
        leads = elim (Bool-cases elect) [
          | inl e ↦ inr (sym (leader e) ∙ v.leads (el ∙ e))
          | inr e ↦ inl e
        ];
        workflows = sym ws ∙ v.workflows;
        pods = sym ps ∙ v.pods;
      },
      λ v. record {
        up = down ∙ v.up;
        leads =
            λ e. elim v.leads [ inl f ↦ absurd (cc (e, el, f)) | inr l ↦ leader (sym el ∙ e) ∙ l ];
        workflows = ws ∙ v.workflows;
        pods = ps ∙ v.pods;
      },
    )

-- Whatever has happened to a process since its start, in any order, as long as it has not exited,
-- its readiness probe answers ok if and only if no signal or shutdown has come, the last word on
-- the leadership made it leader if leaders are elected, both informers have synced, and its events
-- are recent.
pub ready_iff_happened :
    (flags : Flags) (now : Time) (m : Matcher) (hs : List Happening) (later : Time)
    → let p = (happenings hs (begin (build flags now m) flags.leader_elect).0).0 in
      p.exited ≡ false
      → ((is_ready later p.health).ok ≡ true)
        ↔ (HasServed flags.leader_elect hs × IsRecent later p.health)
ready_iff_happened flags now m hs later e =
    let b = build flags now m in
    let p = (begin b flags.leader_elect).0 in
    let q = (happenings hs p).0 in
    let i = ready_iff later q.health in
    let s =
      Serves-HasServed flags.leader_elect hs p.health q.health (begin-Starts flags now m)
        (happenings-ReadsAll hs p (begin-Tracked b flags.leader_elect) e) in
    (λ h. let (v, r) = i.0 h in (s.0 v, r), λ (v, r). i.1 (s.1 v, r))
