-- ===== src/Tests.antt =====
-- Runs of the definitions, and the theorems at concrete inputs.
mod World
mod Policy
mod Namespaces
mod Draft
mod Backend
mod Controller
mod Update
mod Client
mod Sorting
mod Insight
mod Rules
mod Finalizing
mod Onboarding
