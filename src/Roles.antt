-- ===== src/Roles.antt =====
-- The three roles of src/trinity/roles: verdicts, post-processing and prompts.
pub mod Verifier
pub mod Postprocess
pub mod Prompts
