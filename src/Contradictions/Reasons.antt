-- ===== src/Contradictions/Reasons.antt =====
-- src/contradictions.ts: the outcomes that are reported as metrics.
pub data ContradictionReason : Type 0 where
  disabled processing_approval_missing provider_model_approval_missing : ContradictionReason
  terms_approval_missing scope_approval_missing budget_approval_missing : ContradictionReason
  budget_model_missing budget_exhausted shadow_saturated shadow_shutdown : ContradictionReason
  runtime_config_changed outside_approved_scope no_candidates : ContradictionReason
  candidate_query_error candidate_timeout input_too_large : ContradictionReason
  provider_timeout provider_error output_too_large invalid_output : ContradictionReason
  no_match low_confidence review_only : ContradictionReason
  idempotent_mutation_disallowed stale_candidate mutated : ContradictionReason
