-- ===== src/Contradictions.antt =====
-- src/contradictions.ts: the runtime that classifies a new memory against those that it may contradict.
pub mod Reasons
pub mod Budget
pub mod Shadow
pub mod Policy
pub mod Revision
pub mod Classify
pub mod Revise
