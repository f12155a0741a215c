-- ===== src/Lib.antt =====
-- The policy core of the Illumio Kubernetes operator.
--
-- The operator watches Kubernetes resources and drives a Policy Compute Engine (PCE). An admin describes
-- a cluster with a ClusterProfile: which namespaces are managed, and which Illumio labels they get. An
-- application team writes a SegmentationIntent or a SegmentationPolicy in a namespace. The operator
-- compiles either to the same allow entries, resolves their labels to hrefs of the PCE, writes one
-- draft ruleset for each resource, and provisions it if the profile allows it or a human has approved it.
-- Two resources only read: a PolicyInsight asks once which observed flows the draft policy would block,
-- and a RuleView mirrors the PCE's rules for a namespace at an interval.
--
-- The parts, the file of each, and the code it is about:
--
--   Prelude            shared names, Boolean tests, lists, association lists (Labels, Dict), integers with
--                      the wrap-around of int64, texts; Prelude/Order has comparisons and what is
--                      documented of slices.SortFunc (Sorter, SorterIsLawful)
--   Result, Exec       results, and actions that read and change a state W and may fail; Exec/Errors
--                      holds the errors of internal/pce/errors.go and the tests on them; Exec/Frame,
--                      Exec/Value, Exec/Yields, Exec/Costs and Exec/Triple hold the rules by which a proof
--                      follows an action
--   Api                api/v1alpha1: the resources as records, ScopeLabelKeys, ResolveUnknownLabelMode;
--                      Api/Meta has Kubernetes' own types, as far as they are read
--   Pce                internal/pce: the objects; Pce/Interfaces has the interface PolicyClient of
--                      internal/controller/policy_client.go
--   Pce/Client         internal/pce/labels.go and policy.go: the lookups, over requests that are a parameter
--   Pce/Http           internal/pce/client.go: do, its errors, parseRetryAfter
--   Pce/Traffic        internal/pce/traffic.go: QueryTraffic with its polling
--   Pce/RuleSearch     internal/pce/rulesearch.go: SearchRules
--   Namespaces         internal/controller/cwpmatch.go: ComputeDesiredCWP (Namespaces/Cwp), and the
--                      patterns of path.Match that it uses (Namespaces/Glob)
--   Namespaces/Update  buildCWPUpdate and sameLabelSet of internal/controller/clusterprofile_controller.go;
--                      the cache of label hrefs is a part of the state
--   Namespaces/Loop    reconcileNamespaceCWPs of the same file
--   Policy/Compile     internal/controller/policyir.go: CompileIntent and CompilePolicy
--   Policy/Rules       the same file: BuildRuleSet and BuildRules
--   Policy/Enforcement StrictestEnforcement and internal/controller/enforcement.go
--   Policy/Profile     resolveClusterProfile of internal/controller/policybackend.go
--   Policy/Resolve     resolveProvider and resolveAllows of the same file, labelcreate.go
--   Policy/Draft       reconcileRuleSet of the same file
--   Policy/Backend     ReconcilePolicy, FinalizePolicy and applyBackendResult of the same file
--   Policy/Safety      what the parts guarantee together
--   Policy/Controller  internal/controller/segmentationintent_controller.go and
--                      segmentationpolicy_controller.go: one definition over a record of what differs
--   Connections        internal/controller/pceconnection_controller.go
--   Insight/Flows      internal/controller/preflight.go: counts and findings of observed flows
--   Insight/Scope      scopeLabelValues, and the first half of the reconcilers of PolicyInsight and RuleView
--   Insight/Request    internal/controller/policyinsight_controller.go
--   RuleView           internal/controller/ruleview.go; RuleView/Sync has ruleview_controller.go
--   Onboarding         internal/controller/clusterprofile_controller.go: the reconciler of a ClusterProfile
--                      is in Onboarding/Reconcile, its parts in Reports, Cluster and Pairing;
--                      Onboarding/Overlap has labelmap.go
--   Tests              a PCE and a cluster in memory, runs of the code, the theorems at concrete inputs
--
-- State and effects. An action is a function from a state W to a result and a new state (Exec). W is a
-- parameter: the code reaches the cluster and the PCE through the records Reader, PolicyClient and the
-- others of Api/Cluster and Pce/Interfaces, whose fields are the calls that the Go code makes. Nothing
-- is assumed of these calls but what a theorem names: a frame (Keeps), or a record of laws (IsLawful)
-- that states what the API documents. Tests/World instantiates them. An error of Go is the err of a
-- Result, and its text is a constructor with the values it is made of.
--
-- Representation. A Go map is an association list, and a loop over it goes in the list's order,
-- which stands for the order that Go chooses. A pointer that may be nil is an Option. Go's int is a
-- natural number where only ports, numbers of entries and versions are stored in it; numbers of
-- connections, which are added, are patterns of 64 bits, added modulo 2 ^ 64 and compared as signed
-- numbers. A time is a number of nanoseconds, and a duration too, in ℤ; products and differences of
-- durations wrap around or saturate as in Go. Texts are strings; patterns are matched on the list of
-- code points. All loops are structural recursion on the list, except the two parsers of patterns,
-- whose fuel is the number of code points that are left, and one more within a class: each step
-- consumes a code point; and the polling of a traffic query, whose fuel is the number of polls: 46
-- are enough, since 2 seconds pass before each further one and none follows the deadline of 90
-- seconds. A sort is a parameter that is known by its laws alone, since slices.SortFunc is not
-- stable. The decimal text of a number has its value as fuel.
--
-- Not modelled: JSON and the requests behind the lookups of internal/pce, and cmd/main.go with the
-- registration of the controllers at controller-runtime. Logging, metrics and events have no effect
-- on the state. Times are not truncated to seconds, as Kubernetes does when it stores them.
pub mod Prelude
pub mod Result
pub mod Exec
pub mod Api
pub mod Pce
pub mod Namespaces
pub mod Policy
pub mod Connections
pub mod Insight
pub mod RuleView
pub mod Onboarding
mod Tests
