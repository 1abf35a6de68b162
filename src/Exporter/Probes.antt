-- ===== src/Exporter/Probes.antt =====
-- cmd/exporter/main.go: the handlers of /healthz and /readyz.
use argo_workflows_metrics.Base.{
  ℕ, ◌≡◌, ◌↔◌, Bool, true, false, String, ◌<>◌, List, arith, nat_eq, if◌then◌else◌,
}
use argo_workflows_metrics.Base.Time.{Time, Duration, is_zero}
use argo_workflows_metrics.Metrics.{Write}
use argo_workflows_metrics.Health.{
  State, Snapshot, snapshot, Reason, down, alive, not_leader, workflow_unsynced, pod_unsynced,
  ready, grace, no_events, stale, Answer, is_live, is_ready,
}
use argo_workflows_metrics.Health.Readiness.{Serves, IsRecent, ready_iff}

pub record Response : Type 0 where
  pub status : ℕ
  pub body : String

abbrev pub status_ok : ℕ
status_ok = 200

abbrev pub status_service_unavailable : ℕ
status_service_unavailable = 503

abbrev pub bool_to_state : Bool → String → String → String
bool_to_state value true_value false_value = if value then true_value else false_value

-- `%t`
abbrev pub bool_text : Bool → String
bool_text b = if b then "true" else "false"

-- `%q` of a text with nothing to escape, as the reasons are.
abbrev pub quoted : String → String
quoted text = "\"" <> (text <> "\"")

-- The formats of package time are arguments: `round_text` is `d.Round(time.Second).String()` and
-- `rfc3339` is `t.Format(time.RFC3339)`.
module _ (round_text : Duration → String) (rfc3339 : Time → String) where
  abbrev pub reason_text : Reason → String
  reason_text down = "shutting down"
  reason_text alive = "alive"
  reason_text not_leader = "not leader"
  reason_text workflow_unsynced = "workflow informer not synced"
  reason_text pod_unsynced = "pod informer not synced"
  reason_text ready = "ready"
  reason_text grace = "ready (startup grace)"
  reason_text no_events = "ready (no events yet)"
  reason_text (stale idle_for) = "no workflow/pod events for " <> round_text idle_for

  abbrev pub format_event_time : Time → String
  format_event_time value = if is_zero value then "never" else rfc3339 value

  abbrev pub response_text : String → Reason → Snapshot → String
  response_text word reason snap =
      "status="
      <> (word
          <> (" reason="
              <> (quoted (reason_text reason)
                  <> (" leader_elect="
                      <> (bool_text snap.leader_elect
                          <> (" is_leader="
                              <> (bool_text snap.is_leader
                                  <> (" workflow_synced="
                                      <> (bool_text snap.workflow_synced
                                          <> (" pod_synced="
                                              <> (bool_text snap.pod_synced
                                                  <> (" last_workflow_event="
                                                      <> (format_event_time snap.last_workflow_evt
                                                          <> (" last_pod_event="
                                                            <> (format_event_time snap.last_pod_evt
                                                            <> "\n")))))))))))))))

  -- The state is read twice: for the answer, and again for the snapshot in the text.
  abbrev pub respond : Answer → String → String → State → Response × List Write
  respond answer good bad later = (
    record {
      status = if answer.ok then status_ok else status_service_unavailable;
      body = response_text (bool_to_state answer.ok good bad) answer.reason (snapshot later);
    },
    answer.writes,
  )

  unfoldable pub healthz_handler : Time → State → State → Response × List Write
  healthz_handler now s later = respond (is_live now s) "alive" "unhealthy" later

  unfoldable pub readyz_handler : Time → State → State → Response × List Write
  readyz_handler now s later = respond (is_ready now s) "ready" "not-ready" later

  respond-status :
      (answer : Answer) (good bad : String) (later : State)
      → ((respond answer good bad later).0.status ≡ status_ok) ↔ (answer.ok ≡ true)
  respond-status answer good bad later = ground arith

  -- The readiness handler responds with the status 200 exactly if the replica serves and its events
  -- are recent, and the liveness handler exactly if the shutdown is not marked, whatever the state
  -- is when the text is made.
  pub probes-status :
      (now : Time) (s later : State)
      → (((readyz_handler now s later).0.status ≡ status_ok) ↔ (Serves s × IsRecent now s))
        × (((healthz_handler now s later).0.status ≡ status_ok) ↔ (s.shutting_down ≡ false))
  unfolding healthz_handler readyz_handler is_live
  probes-status now s later =
      let r = respond-status (is_ready now s) "ready" "not-ready" later in
      let i = ready_iff now s in ((λ e. i.0 (r.0 e), λ h. r.1 (i.1 h)), ground arith)
