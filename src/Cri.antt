-- ===== src/Cri.antt =====
-- src/orchestrator/cri_runtime.c: the container runtime that a shim in a guest calls over vsock.
pub mod Objects
pub mod State
pub mod Dispatch
pub mod Transport
pub mod Events
