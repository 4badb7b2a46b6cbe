-- ===== src/Service.antt =====
-- src/monitor/service: what a client image asks for (its manifest), what each protocon has to
-- offer (the registry), the choice of a protocon, and the installation of its services.
pub mod Types
pub mod Manifest
pub mod Registry
pub mod Planner
pub mod Installer
