-- ===== src/Metrics/Histories.antt =====
-- Runs of a component that other calls surround: on the component's own metrics they show what its
-- calls, one after the other, show.
use mathlib.Core.List.{append_assoc}
use argo_workflows_metrics.Base.{◌≡◌, refl, sym, ap, ◌∙◌, Bool, true, Option, List, [], ◌∷◌, ◌++◌}
use argo_workflows_metrics.Metrics.{Metric, Series, Sample, Write}
use argo_workflows_metrics.Metrics.Trace.{after, after-append}
use argo_workflows_metrics.Metrics.Owners.{Off, after-Off}

module _ {C Call : Type 0} (run : C → List Call → C × List Write) where
  -- A run of calls, one after the other.
  pub record IsRun : Type 0 where
    pub nil : (c : C) → run c [] ≡ (c, [])
    pub append :
        (c : C) (calls later : List Call)
        → run c (calls ++ later)
          ≡ ((run (run c calls).0 later).0, (run c calls).1 ++ (run (run c calls).0 later).1)

  -- Any loop over the calls is one.
  module _ (step : C → Call → C × List Write) (nil : (c : C) → run c [] ≡ (c, []))
      (cons : (c : C) (call : Call) (calls : List Call)
        → run c (call ∷ calls)
          ≡ ((run (step c call).0 calls).0, (step c call).1 ++ (run (step c call).0 calls).1)) where
    loop-append :
        (c : C) (calls later : List Call)
        → run c (calls ++ later)
          ≡ ((run (run c calls).0 later).0, (run c calls).1 ++ (run (run c calls).0 later).1)
    loop-append c [] later = rw (nil c) refl
    loop-append c (call ∷ calls) later =
        rw
          (cons c call (calls ++ later), cons c call calls, loop-append (step c call).0 calls later)
          (ap (λ us. ((run (run (step c call).0 calls).0 later).0, us))
            (sym (append_assoc (step c call).1 _ _)))

    pub loop-IsRun : IsRun
    loop-IsRun = record { nil = nil; append = loop-append }

  module _ (owns : Metric → Bool) where
    -- From one state to another by a history, with calls that show the same of the metrics it owns.
    pub record Serial (c c' : C) (ws : List Write) : Type 0 where
      pub calls : List Call
      pub collected : c' ≡ (run c calls).0
      pub shows :
          (x : Series) (old : Option Sample)
          → owns x.metric ≡ true
          → after x old ws ≡ after x old (run c calls).1

    module _ (L : IsRun) where
      -- The calls of a history, with calls on other metrics before and after them.
      pub calls-Serial :
          (c : C) (calls : List Call) (us vs : List Write)
          → Off owns us
          → Off owns vs
          → Serial c (run c calls).0 (us ++ ((run c calls).1 ++ vs))
      calls-Serial c calls us vs a b = record {
        calls = calls;
        collected = refl;
        shows = λ x old o.
            after-append x old us ((run c calls).1 ++ vs)
            ∙ after-append x (after x old us) (run c calls).1 vs
            ∙ after-Off owns x _ vs o b
            ∙ ap (λ v. after x v (run c calls).1) (after-Off owns x old us o a);
      }

      -- Calls on other metrics alone.
      pub still-Serial : (c : C) (ws : List Write) → Off owns ws → Serial c c ws
      still-Serial c ws a = record {
        calls = [];
        collected = ap (λ (st : C × List Write). st.0) (sym (L.nil c));
        shows = λ x old o.
            after-Off owns x old ws o a
            ∙ ap (λ (st : C × List Write). after x old st.1) (sym (L.nil c));
      }

      pub Serial-trans :
          (c c' c'' : C) (ws vs : List Write)
          → Serial c c' ws
          → Serial c' c'' vs
          → Serial c c'' (ws ++ vs)
      Serial-trans c c' c'' ws vs p q =
          let e = L.append c p.calls q.calls in
          record {
            calls = p.calls ++ q.calls;
            collected =
                q.collected
                ∙ ap (λ d. (run d q.calls).0) p.collected
                ∙ ap (λ (st : C × List Write). st.0) (sym e);
            shows = λ x old o.
                after-append x old ws vs
                ∙ ap (λ v. after x v vs) (p.shows x old o)
                ∙ q.shows x _ o
                ∙ ap (λ d. after x (after x old (run c p.calls).1) (run d q.calls).1) p.collected
                ∙ sym (after-append x old (run c p.calls).1 _)
                ∙ ap (λ (st : C × List Write). after x old st.1) (sym e);
          }
