-- ===== src/Api.antt =====
-- The custom resources of api/v1alpha1, and what the program uses of the Kubernetes API.
pub mod Meta
pub mod Cluster
pub mod Segmentation
pub mod ClusterProfile
pub mod Connection
pub mod LabelMode
pub mod Insight
pub mod RuleView
