-- ===== src/Monitor.antt =====
-- src/monitor: the monitor's state, its requests, and what it does on a fault.
pub mod State
pub mod Network
pub mod Requests
pub mod Deploy
pub mod Calls
pub mod Fault
pub mod Init
pub mod Steps
