-- ===== src/Informer/Steps.antt =====
-- The effects of each step of an informer.
use mathlib.Core.List.{append-nil}
use argo_workflows_metrics.Base.{
  ◌≡◌, refl, sym, ap, subst, ◌∙◌, Bool, true, false, String, Option, none, some, List, [], ◌∷◌,
  Bool-cases, inl, inr, string_eq, ◌==◌,
}
use argo_workflows_metrics.Base.Time.{Time}
use argo_workflows_metrics.Metrics.{Sample, Write, labels, kind}
use argo_workflows_metrics.Health.{State}
use argo_workflows_metrics.Health.Reach
use argo_workflows_metrics.Health.Runs.{run_marks, run_marks-one}
use argo_workflows_metrics.Queue.{WorkQueue}
use argo_workflows_metrics.Informer.Delivery.{Handler, adding, updating, deleting, handle}
use argo_workflows_metrics.Informer.{
  Item, event, alien, Object, object, tombstone, other_object, Source, ObjectInformer, Moment, Step,
  notify, on_add, on_update, on_delete, handle_event, handle_typed, finish, process_item, mark,
  start, stop,
}
use argo_workflows_metrics.Informer.Effects.{
  Explains, Effects, still-Effects, calls-Effects, marks-Effects,
}

module _ {A C : Type 0} (S : Source A C) (E : Explains S) (Q : WorkQueue (Item A)) where
  -- A step of the informer.
  abbrev pub StepEffects : ObjectInformer C Q → Step S Q → Type 0
  StepEffects oi (oi', ws) =
      Effects S E oi.collector oi'.collector oi.health_state oi'.health_state ws

  mark-run :
      (f : State → State × List Write) (call : Reach.Call) (o : Option State)
      → ((s : State) → f s ≡ Reach.step s call)
      → mark f o ≡ run_marks o (call ∷ [])
  mark-run f call none e = refl
  mark-run f call (some s) e =
      ap (λ (st : State × List Write). (some st.0, st.1)) (e s) ∙ sym (run_marks-one s call)

  notify-Effects :
      (now : Time) (label : String) (a : A) (oi : ObjectInformer C Q)
      → StepEffects oi (notify S Q now label a oi)
  unfolding notify labels kind
  notify-Effects now label a oi = elim (Bool-cases (S.accepts oi.namespace_matcher a)) [
    | inl e ↦
        rw (e, mark-run (S.mark_event now) (E.event_call now) oi.health_state (E.event_lem now))
          (marks-Effects S E oi.collector oi.health_state (E.event_call now) (_ ∷ []) _
            ((refl, (refl, refl)), tt) ((refl, (refl, refl)), tt))
    | inr e ↦ rw e (still-Effects S E oi.collector oi.health_state [] tt)
  ]

  on_add-Effects :
      (now : Time) (obj : Object A) (oi : ObjectInformer C Q)
      → StepEffects oi (on_add S Q now obj oi)
  unfolding on_add labels kind
  on_add-Effects now (object a) oi = notify-Effects now "add" a oi
  on_add-Effects now (tombstone obj) oi =
      still-Effects S E oi.collector oi.health_state _ ((refl, (refl, refl)), tt)
  on_add-Effects now other_object oi =
      still-Effects S E oi.collector oi.health_state _ ((refl, (refl, refl)), tt)

  pub handle-Effects :
      (now : Time) (h : Handler) (obj : Object A) (oi : ObjectInformer C Q)
      → StepEffects oi (handle S Q h now obj oi)
  unfolding on_update on_delete labels kind
  handle-Effects now adding obj oi = on_add-Effects now obj oi
  handle-Effects now updating (object a) oi = notify-Effects now "update" a oi
  handle-Effects now updating (tombstone obj) oi =
      still-Effects S E oi.collector oi.health_state _ ((refl, (refl, refl)), tt)
  handle-Effects now updating other_object oi =
      still-Effects S E oi.collector oi.health_state _ ((refl, (refl, refl)), tt)
  handle-Effects now deleting (object a) oi = notify-Effects now "delete" a oi
  handle-Effects now deleting (tombstone (object a)) oi = notify-Effects now "delete" a oi
  handle-Effects now deleting (tombstone (tombstone obj)) oi =
      still-Effects S E oi.collector oi.health_state _ ((refl, (refl, refl)), tt)
  handle-Effects now deleting (tombstone other_object) oi =
      still-Effects S E oi.collector oi.health_state _ ((refl, (refl, refl)), tt)
  handle-Effects now deleting other_object oi =
      still-Effects S E oi.collector oi.health_state _ ((refl, (refl, refl)), tt)

  finish-Effects :
      (i : Item A) (q : Q.Queue) (now : Time) (elapsed : Sample) (t : String) (o : Option A)
      (oi : ObjectInformer C Q)
      → StepEffects oi (finish S Q i q (handle_typed S now t o oi.collector) elapsed oi)
  unfolding labels kind
  finish-Effects i q now elapsed t none oi =
      still-Effects S E oi.collector oi.health_state _
        ((refl, (refl, refl)), ((refl, (refl, refl)), ((refl, (refl, refl)), tt)))
  finish-Effects i q now elapsed t (some a) oi =
      let c = oi.collector in
      let h = oi.health_state in
      let added =
        calls-Effects S E c h (E.adds now a ∷ []) [] _ tt
          ((refl, (refl, refl)), ((refl, (refl, refl)), tt)) in
      let deleted =
        calls-Effects S E c h (E.deletes a ∷ []) [] _ tt
          ((refl, (refl, refl)), ((refl, (refl, refl)), tt)) in
      let failed =
        still-Effects S E c h _
          ((refl, (refl, refl)), ((refl, (refl, refl)), ((refl, (refl, refl)), tt))) in
      elim (Bool-cases (t == "add")) [
        | inl e ↦ rw (e, E.adds_lem now a c) added
        | inr e ↦ elim (Bool-cases (t == "update")) [
          | inl f ↦ rw (e, f, E.adds_lem now a c) added
          | inr f ↦ elim (Bool-cases (t == "delete")) [
            | inl g ↦ rw (e, f, g, E.deletes_lem a c) deleted
            | inr g ↦ rw (e, f, g) failed
          ]
        ]
      ]

  pub process_item-Effects :
      (moment : Moment) (i : Item A) (q : Q.Queue) (oi : ObjectInformer C Q)
      → StepEffects oi (process_item S Q moment i q oi)
  unfolding handle_event labels kind
  process_item-Effects (now, elapsed) alien q oi =
      still-Effects S E oi.collector oi.health_state _
        ((refl, (refl, refl)), ((refl, (refl, refl)), ((refl, (refl, refl)), tt)))
  process_item-Effects (now, elapsed) (event evt) q oi =
      finish-Effects (event evt) q now elapsed evt.event_type evt.subject oi

  pub start-Effects :
      (synced : Bool) (oi : ObjectInformer C Q) → StepEffects oi (start S Q synced oi).0
  unfolding start labels kind
  start-Effects false oi =
      still-Effects S E oi.collector oi.health_state _ ((refl, (refl, refl)), tt)
  start-Effects true oi =
      let call = E.synced_call in
      let h = oi.health_state in
      rw (mark-run S.mark_synced call h E.synced_lem) (
        subst (Effects S E oi.collector oi.collector h (run_marks h (call ∷ [])).0)
          (append-nil (run_marks h (call ∷ [])).1)
          (marks-Effects S E oi.collector h call [] [] tt tt))

  pub stop-Effects : (oi : ObjectInformer C Q) → StepEffects oi (stop S Q oi)
  unfolding stop labels kind
  stop-Effects oi = elim (Bool-cases oi.stopped) [
    | inl e ↦ rw e (still-Effects S E oi.collector oi.health_state [] tt)
    | inr e ↦ rw e (still-Effects S E oi.collector oi.health_state _ ((refl, (refl, refl)), tt))
  ]
