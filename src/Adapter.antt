-- ===== src/Adapter.antt =====
-- src/adapter: the manifold adapters and the factory that makes one from a specification.
pub mod Linear
pub mod NormMatch
pub mod Spec
