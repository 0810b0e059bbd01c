-- ===== src/Graders.antt =====
-- src/trinity/orchestration/reward.py: what the graders read out of an answer.
pub mod Scan
pub mod Choice
pub mod Boxed
pub mod Number
pub mod Json
pub mod Answers
pub mod Sandbox
pub mod Bfcl
