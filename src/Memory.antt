-- ===== src/Memory.antt =====
-- Memories: forgetting them (src/memory-lifecycle.ts), their rows as beliefs that replace each other,
-- and updating them (src/tools/update.ts).
pub mod Forget
pub mod Beliefs
pub mod Patch
pub mod Update
