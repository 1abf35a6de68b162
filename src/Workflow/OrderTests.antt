-- ===== src/Workflow/OrderTests.antt =====
-- Two orders of the maps of one collector, and an instance of the theorem on them.
use argo_workflows_metrics.Base.{
  ◌≡◌, refl, String, true, false, none, some, List, [], ◌∷◌, arith, string_eq, ◌==◌,
}
use argo_workflows_metrics.Base.Dict.{lookup, NodupKeys}
use argo_workflows_metrics.Base.Dict.Nested.{NodupKeys₂}
use argo_workflows_metrics.Workflow.{Workflow, WorkflowCollector}
use argo_workflows_metrics.Workflow.Aggregate.Order.{Alike}
use argo_workflows_metrics.Workflow.Collector.{Call, adds, deletes, replaces}
use argo_workflows_metrics.Workflow.Collector.History.{run_calls}
use argo_workflows_metrics.Workflow.Collector.Order.{Agree, history-Agree}

abbrev build_1 : Workflow
build_1 = record {
  namespace = "ci";
  name = "build-1";
  uid = "u1";
  priority = none;
  service_account_name = "";
  creation_timestamp = 0;
  phase = "Running";
  started_at = 0;
  finished_at = 0;
  nodes = none;
}

abbrev build_2 : Workflow
build_2 = record build_1 { name = "build-2"; uid = "u2"; phase = "Pending" }

abbrev one_order : WorkflowCollector
one_order = record {
  collect_details = true;
  workflows = ("ci/build-1", build_1) ∷ ("ci/build-2", build_2) ∷ [];
  last_namespaces = ("ci", tt) ∷ [];
  last_namespace_phases = ("ci", ("Running", tt) ∷ ("Pending", tt) ∷ []) ∷ [];
}

abbrev other_order : WorkflowCollector
other_order = record {
  collect_details = true;
  workflows = ("ci/build-2", build_2) ∷ ("ci/build-1", build_1) ∷ [];
  last_namespaces = ("ci", tt) ∷ [];
  last_namespace_phases = ("ci", ("Pending", tt) ∷ ("Running", tt) ∷ []) ∷ [];
}

keys_differ : ◌==◌ {A = String} "ci/build-1" "ci/build-2" ≡ false
unfolding string_eq
keys_differ = refl

phases_differ : ◌==◌ {A = String} "Running" "Pending" ≡ false
unfolding string_eq
phases_differ = refl

one-NodupKeys : NodupKeys one_order.workflows × NodupKeys other_order.workflows
unfolding lookup string_eq
one-NodupKeys = ((refl, (refl, tt)), (refl, (refl, tt)))

phases-NodupKeys₂ :
    NodupKeys₂ one_order.last_namespace_phases × NodupKeys₂ other_order.last_namespace_phases
unfolding lookup string_eq
phases-NodupKeys₂ = ((refl, (refl, (refl, tt)), tt), (refl, (refl, (refl, tt)), tt))

orders-Alike : Alike one_order other_order
unfolding lookup
orders-Alike = record {
  details = refl;
  workflows = λ k. ground (arith, keys_differ);
  namespaces = λ n. refl;
  phases = λ n p. ground (arith, phases_differ);
  distinct = one-NodupKeys;
  distinct_phases = phases-NodupKeys₂;
}

abbrev calls : List Call
calls = adds 5 (some build_1) ∷ deletes (some build_2) ∷ replaces 6 (some build_2 ∷ none ∷ []) ∷ []

history-Agree_example : Agree (run_calls one_order calls) (run_calls other_order calls)
history-Agree_example = history-Agree one_order other_order calls orders-Alike
