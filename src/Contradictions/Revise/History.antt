-- ===== src/Contradictions/Revise/History.antt =====
-- src/contradictions.ts: the history of beliefs through a whole call of maybeReviseBelief.
