-- ===== src/Lib.antt =====
-- Argo Workflows Metrics Exporter: a model of the exporter's own logic and the theorems on it.
--
-- The exporter watches workflows and pods, keeps a cache of the workflows it has seen, and shows
-- their state as Prometheus metrics. Health probes tell whether it is alive and ready, and several
-- replicas can share the namespaces among them.
--
-- The parts, and the files that model them:
-- - pkg/metrics/metrics.go, the metrics with their kinds and labels: Metrics.antt. A call on a metric
--   is a value (`Write`), and code that calls metrics returns its calls in order. The Prometheus
--   client library is not part of the repository: Metrics/Registry.antt states its documented laws as
--   an interface. Metrics/Trace.antt and Metrics/Loops.antt hold the lemmas on sequences of calls.
-- - pkg/collector/workflow.go and phases.go: Workflow.antt (the workflow objects, the cache keys, the
--   collector's state), Workflow/Series.antt (collectWorkflowSeries, collectNodeMetrics,
--   deleteWorkflowSeries), Workflow/Aggregate.antt (updateAggregatedMetrics, diffNamespaces,
--   diffNamespacePhases) and Workflow/Collector.antt (AddWorkflow, DeleteWorkflow, ReplaceWorkflows).
-- - pkg/collector/pod.go: Pod.antt.
-- - pkg/informer/workflow.go and pkg/informer/pod/pod.go: Informer.antt has the constructor, the
--   handlers, the worker loop, the start and the stop, which the two files share up to the type of
--   object, the name in labels, the filter and the collector's methods (`Source`), over the data of
--   Informer/Objects.antt;
--   Informer/Workflows.antt and Informer/Pods.antt have the two sources and the two full reconciles.
--   The work queue of client-go is an interface with its documented laws (Queue.antt), which a queue
--   on a list has (Queue/Line.antt). What a watch delivers, what the store lists and whether the cache
--   synced are arguments. Informer/Pipeline.antt goes from deliveries to the metrics;
--   Informer/Interleaving.antt lets deliveries, several workers and full reconciles of an informer
--   interleave as steps, a worker taking an item and handling it in two. Informer/Effects.antt sums a
--   step up as calls on the collector and on the health state, in either informer.
-- - pkg/health/state.go: Health.antt, and Health/Overlap.antt with its operations under several goroutines.
-- - cmd/exporter/main.go, buildNamespaceMatcher, resolveShardIndex and namespaceShard: Shard.antt,
--   with the library functions that they call in Shard/Bytes.antt.
-- - the rest of cmd/exporter/main.go: Exporter.antt (the start from the flags to the collectors,
--   resolveLeaderElectionNamespace, runControllers, and the process under the callbacks of the leader
--   election and the signal) and Exporter/Probes.antt (healthzHandler, readyzHandler).
--   Exporter/Settings.antt has the flags with their defaults, buildConfig, the configuration of the
--   leader election and rootHandler. Exporter/Whole.antt joins all parts: the process with its two
--   informers, which share the health state and run once they are started, as a step relation.
--   Exporter/Whole/Apart.antt takes a run of it apart again into a history of each collector and one
--   of the health state; Metrics/Owners.antt says whose each metric is, and Metrics/Histories.antt
--   what histories show where other calls surround them.
--
-- Conventions. An operation takes its state and the time that time.Now gives, and returns the new
-- state with its calls on the metrics. A Go map is an association list without an order that matters
-- (Base/Dict.antt); a missing key reads as the zero value where the source reads it so. A time is its
-- distance from the zero Time in nanoseconds; durations are integers of nanoseconds, and Time.Sub
-- saturates as in Go. A sample is an integer of 10^-9 units, so that seconds of a duration are exact;
-- the rounding of float64 is not modelled. An int is an integer; the 32 bits of uint32 are written
-- out. Decimal printing runs on fuel n + 1, enough as n / 10 < n. The worker loop runs on fuel and
-- gets the time of each turn from a clock; after a stop, more fuel than items wait is enough, and
-- before it the loop has no end.
--
-- An operation that a lock guards is one step. The health state releases its lock before it calls
-- the metrics: the step relation of the whole process takes such an access and its calls as one
-- step, and its theorems state no value of a health gauge; Health/Overlap.antt lets goroutines
-- overlap in between. A full reconcile lists the store before it takes its lock; the listing is a
-- step of its own in Informer/Interleaving.antt, and Informer/LateReconcile.antt and
-- Informer/PodRace.antt are about what can come in between. ReplaceWorkflows reads the clock for
-- each workflow and visits its map in any order; the model has one time and the order of the
-- listing. A panic of the namespace matcher is a value in Shard.antt, and a namespace that is not
-- accepted in the whole process.
--
-- Not modelled: log lines, DeepCopy (values are not shared), the Kubernetes clients and watches,
-- the lease of the leader election, the HTTP server, and the parsing of the command line, which are
-- calls of libraries. The formats of package time that the probes use are arguments.
pub mod Base
pub mod Metrics
pub mod Workflow
pub mod Health
pub mod Shard
pub mod Pod
pub mod Informer
pub mod Queue
pub mod Exporter
