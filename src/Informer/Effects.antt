-- ===== src/Informer/Effects.antt =====
-- What a step of an informer comes to: calls on its collector and on the health state, and calls on
-- metrics of the exporter itself.
use argo_workflows_metrics.Base.{
  ◌≡◌, Bool, true, false, ◌||◌, Option, List, [], ◌∷◌, ◌++◌, arith, All, All-append, All-map,
  Bool-cases, inl, inr, string_eq,
}
use argo_workflows_metrics.Base.Time.{Time}
use argo_workflows_metrics.Metrics.{Metric, Write, IsLegal}
use argo_workflows_metrics.Metrics.Trace.{target}
use argo_workflows_metrics.Metrics.Owners.{is_own, is_health, is_informer, On, Off, On-Off, On-On}
use argo_workflows_metrics.Metrics.Histories.{
  IsRun, Serial, calls-Serial, still-Serial, Serial-trans,
}
use argo_workflows_metrics.Health.{State}
use argo_workflows_metrics.Health.Reach
use argo_workflows_metrics.Health.Runs.{run_marks, run_marks-IsRun, run_marks-On, run_marks-IsLegal}
use argo_workflows_metrics.Informer.{Source}

-- The methods of a source as calls of a history: of its collector, which writes metrics of its own, and
-- of the health state.
pub record Explains {A C : Type 0} (S : Source A C) : Type 1 where
  pub Call : Type 0
  pub run : C → List Call → C × List Write
  pub is_run : IsRun run
  pub owns : Metric → Bool
  pub apart : (m : Metric) → owns m ≡ true → is_own m ≡ false
  pub confined : (c : C) (calls : List Call) → On owns (run c calls).1
  pub legal : (c : C) (calls : List Call) → All IsLegal (run c calls).1
  pub adds : Time → A → Call
  pub deletes : A → Call
  pub adds_lem : (now : Time) (a : A) (c : C) → S.add_object now a c ≡ run c (adds now a ∷ [])
  pub deletes_lem : (a : A) (c : C) → S.delete_object a c ≡ run c (deletes a ∷ [])
  pub event_call : Time → Reach.Call
  pub synced_call : Reach.Call
  pub event_lem : (now : Time) (s : State) → S.mark_event now s ≡ Reach.step s (event_call now)
  pub synced_lem : (s : State) → S.mark_synced s ≡ Reach.step s synced_call

-- Calls on the informer's metrics alone, as the client library wants them.
abbrev pub Quiet : List Write → Type 0
Quiet = All λ w. (is_informer (target w).metric ≡ true) × IsLegal w

All-between :
    (P : Write → Type 0) (us ws vs : List Write)
    → All P us
    → All P ws
    → All P vs
    → All P (us ++ (ws ++ vs))
All-between P us ws vs a b c = All-append P us (ws ++ vs) a (All-append P ws vs b c)

own-cases : (m : Metric) → is_informer m ≡ true → (is_own m ≡ true) × (is_health m ≡ false)
own-cases m e = ground arith

not_own : (m : Metric) → is_own m ≡ false → is_health m ≡ false
not_own m e = ground arith

pub health-own : (m : Metric) → is_health m ≡ true → is_own m ≡ true
health-own m e = ground arith

module _ {A C : Type 0} (S : Source A C) (E : Explains S) where
  own-apart : (m : Metric) → is_own m ≡ true → E.owns m ≡ false
  own-apart m e = elim (Bool-cases (E.owns m)) [ inl h ↦ absurd (cc (e, E.apart m h)) | inr h ↦ h ]

  -- The metrics that a step of the informer may write.
  abbrev pub within : Metric → Bool
  within m = is_own m || E.owns m

  own-within : (ws : List Write) → On is_own ws → On within ws
  own-within ws = On-On is_own within ws (λ m e. ground arith)

  owns-within : (ws : List Write) → On E.owns ws → On within ws
  owns-within ws = On-On E.owns within ws (λ m e. ground arith)

  informer-own : (ws : List Write) → Quiet ws → On is_own ws
  informer-own ws = All-map _ _ ws (λ w h. (own-cases (target w).metric h.0).0)

  pub informer-Off : (ws : List Write) → Quiet ws → Off E.owns ws
  informer-Off ws h = On-Off is_own E.owns ws own-apart (informer-own ws h)

  informer-healthless : (ws : List Write) → Quiet ws → Off is_health ws
  informer-healthless ws = All-map _ _ ws (λ w h. (own-cases (target w).metric h.0).1)

  informer-IsLegal : (ws : List Write) → Quiet ws → All IsLegal ws
  informer-IsLegal ws = All-map _ _ ws (λ w h. h.1)

  owns-healthless : (ws : List Write) → On E.owns ws → Off is_health ws
  owns-healthless ws = On-Off E.owns is_health ws (λ m e. not_own m (E.apart m e))

  -- From one collector and health state to others, with such calls.
  pub record Effects (c c' : C) (h h' : Option State) (ws : List Write) : Type 0 where
    pub collected : Serial E.run E.owns c c' ws
    pub marked : Serial run_marks is_health h h' ws
    pub confined : On within ws
    pub legal : All IsLegal ws

  pub Effects-trans :
      (c c' c'' : C) (h h' h'' : Option State) (ws vs : List Write)
      → Effects c c' h h' ws
      → Effects c' c'' h' h'' vs
      → Effects c c'' h h'' (ws ++ vs)
  Effects-trans c c' c'' h h' h'' ws vs a b = record {
    collected = Serial-trans E.run E.owns E.is_run c c' c'' ws vs a.collected b.collected;
    marked = Serial-trans run_marks is_health run_marks-IsRun h h' h'' ws vs a.marked b.marked;
    confined = All-append _ ws vs a.confined b.confined;
    legal = All-append _ ws vs a.legal b.legal;
  }

  -- Calls on the informer's metrics alone.
  pub still-Effects : (c : C) (h : Option State) (ws : List Write) → Quiet ws → Effects c c h h ws
  still-Effects c h ws i = record {
    collected = still-Serial E.run E.owns E.is_run c ws (informer-Off ws i);
    marked = still-Serial run_marks is_health run_marks-IsRun h ws (informer-healthless ws i);
    confined = own-within ws (informer-own ws i);
    legal = informer-IsLegal ws i;
  }

  -- Calls of the collector between such calls.
  pub calls-Effects :
      (c : C) (h : Option State) (calls : List E.Call) (us vs : List Write)
      → Quiet us
      → Quiet vs
      → Effects c (E.run c calls).0 h h (us ++ ((E.run c calls).1 ++ vs))
  calls-Effects c h calls us vs i j =
      let ws = (E.run c calls).1 in
      let on = E.confined c calls in
      record {
        collected =
            calls-Serial E.run E.owns E.is_run c calls us vs (informer-Off us i)
              (informer-Off vs j);
        marked = still-Serial run_marks is_health run_marks-IsRun h (us ++ (ws ++ vs)) (
            All-between _ us ws vs (informer-healthless us i) (owns-healthless ws on)
              (informer-healthless vs j));
        confined =
            All-between _ us ws vs (own-within us (informer-own us i)) (owns-within ws on)
              (own-within vs (informer-own vs j));
        legal =
            All-between _ us ws vs (informer-IsLegal us i) (E.legal c calls)
              (informer-IsLegal vs j);
      }

  -- A call of the health state between such calls.
  pub marks-Effects :
      (c : C) (h : Option State) (call : Reach.Call) (us vs : List Write)
      → Quiet us
      → Quiet vs
      → Effects c c h (run_marks h (call ∷ [])).0 (us ++ ((run_marks h (call ∷ [])).1 ++ vs))
  marks-Effects c h call us vs i j =
      let ws = (run_marks h (call ∷ [])).1 in
      let on = run_marks-On h (call ∷ []) in
      let own = On-On is_health is_own ws health-own on in
      record {
        collected = still-Serial E.run E.owns E.is_run c (us ++ (ws ++ vs)) (
            All-between _ us ws vs (informer-Off us i) (On-Off is_own E.owns ws own-apart own)
              (informer-Off vs j));
        marked =
            calls-Serial run_marks is_health run_marks-IsRun h (call ∷ []) us vs
              (informer-healthless us i) (informer-healthless vs j);
        confined =
            All-between _ us ws vs (own-within us (informer-own us i)) (own-within ws own)
              (own-within vs (informer-own vs j));
        legal =
            All-between _ us ws vs (informer-IsLegal us i) (run_marks-IsLegal h (call ∷ []))
              (informer-IsLegal vs j);
      }
