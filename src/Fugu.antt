-- ===== src/Fugu.antt =====
-- src/trinity/fugu: the Conductor's workflows, from the proposal's text to the priced run.
pub mod Extract
pub mod Gate
pub mod Execute
pub mod Reward
pub mod Grpo
pub mod Eval
