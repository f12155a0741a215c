-- ===== src/Insight.antt =====
-- The what-if preflight of a namespace: internal/controller/preflight.go and
-- policyinsight_controller.go.
pub mod Flows
pub mod Scope
pub mod Request
