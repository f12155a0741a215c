-- ===== src/Namespaces.antt =====
-- Namespace management: internal/controller/cwpmatch.go and the namespace loop of
-- clusterprofile_controller.go.
pub mod Glob
pub mod Cwp
pub mod Update
pub mod Loop
