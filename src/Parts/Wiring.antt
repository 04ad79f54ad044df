-- ===== src/Parts/Wiring.antt =====
-- How the objects of one custom resource refer to one another: labels, volumes, secrets and ports.
pub mod Labels
pub mod Volumes
pub mod References
pub mod Ports
