-- ===== src/Validation.antt =====
-- src/validation: the neural firewall and its safety probe.
pub mod Probe
pub mod Gate
