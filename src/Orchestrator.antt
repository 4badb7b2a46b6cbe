-- ===== src/Orchestrator.antt =====
-- src/orchestrator: the shell and the deployments that it and the container runtime ask for.
pub mod Input
pub mod Text
pub mod State
pub mod Deployments
pub mod Commands
pub mod Consistency
pub mod Reach
