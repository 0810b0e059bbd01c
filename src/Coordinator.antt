-- ===== src/Coordinator.antt =====
-- src/trinity/coordinator: the parameter vector that the optimizer searches over.
pub mod Params
