-- ===== src/Fugu/Execute.antt =====
-- src/trinity/fugu/workflow.py: the execution of a workflow, and what it guarantees.
pub mod State
pub mod Messages
pub mod World
pub mod Loop
mod Rounds
mod Induction
mod Tests
pub mod Meter
pub mod Tokens
pub mod Counts
mod Metered
pub mod Calls
