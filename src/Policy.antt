-- ===== src/Policy.antt =====
-- The policy pipeline of internal/controller: the front ends compile a resource to allow entries,
-- and the backend writes these to the PCE as a ruleset.
pub mod Compile
pub mod Rules
pub mod Enforcement
pub mod Profile
pub mod Resolve
pub mod Draft
pub mod Backend
pub mod Safety
pub mod Controller
