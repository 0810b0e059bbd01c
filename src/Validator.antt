-- ===== src/Validator.antt =====
-- validator/src/eval_backend: the job queue of the evaluation service.
pub mod Queue
pub mod Claim
pub mod Worker
pub mod Runtime
pub mod AdminAuth
