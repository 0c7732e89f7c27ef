-- ===== src/Contradictions/Policy/Limits.antt =====
-- src/contradictions.ts: the numbers of a policy, whatever the environment holds.
use total_recall.Base.{
  ℕ, ◌≤◌, Bool, true, Option, none, some, String, arith, codes, decimal?, Option-cases, inl, inr,
  get, if◌then◌else◌, false, not, ◌||◌, ◌==◌,
}
use total_recall.Contradictions.Reasons.{
  ContradictionReason, disabled, processing_approval_missing, provider_model_approval_missing,
  terms_approval_missing, scope_approval_missing, budget_approval_missing,
}
use total_recall.Contradictions.Budget.{BudgetConfig}
use total_recall.Contradictions.Policy.{
  Decimals, Environment, ContradictionPolicy, bounded_integer, contradiction_policy_from_env,
  policy_with_costs, policy_with_limit, enabled_policy, usd_setting, budget_of, is_approved,
  disabled_for,
}

-- Any text yields a number within the limits, where the fallback is within them.
pub bounded_integer_within :
    (raw : Option String) (fallback low high : ℕ)
    → low ≤ fallback
    → fallback ≤ high
    → (low ≤ bounded_integer raw fallback low high) × (bounded_integer raw fallback low high ≤ high)
unfolding bounded_integer
bounded_integer_within none fallback low high h k = (h, k)
bounded_integer_within (some raw) fallback low high h k =
    elim (Option-cases (decimal? (codes raw))) [
      | inl unread ↦ rw (unread, bounded_integer) (h, k)
      | inr (n, e) ↦ rw (e, bounded_integer) (ground arith)
    ]

module _ (d : Decimals) where
  unfoldable pub IsWithinLimits : ContradictionPolicy d.Value → Type 0
  IsWithinLimits p =
      (100 ≤ p.timeout_ms)
      × (p.timeout_ms ≤ 60_000)
      × (1 ≤ p.shadow_max_in_flight)
      × (p.shadow_max_in_flight ≤ 32)
      × (p.shadow_max_queued ≤ 1_000)

  policy_with_costs-IsWithinLimits :
      (env : Environment) (o : Option BudgetConfig) → IsWithinLimits (policy_with_costs d env o)
  unfolding IsWithinLimits enabled_policy
  policy_with_costs-IsWithinLimits env none = omega arith
  policy_with_costs-IsWithinLimits env (some amounts) = omega (
    arith,
    bounded_integer_within (get "CONTRADICTION_TIMEOUT_MS" env) 10_000 100 60_000,
    bounded_integer_within (get "CONTRADICTION_SHADOW_MAX_IN_FLIGHT" env) 2 1 32,
    bounded_integer_within (get "CONTRADICTION_SHADOW_MAX_QUEUED" env) 8 0 1_000,
  )

  choice-IsWithinLimits :
      (b : Bool) (p q : ContradictionPolicy d.Value)
      → IsWithinLimits p
      → IsWithinLimits q
      → IsWithinLimits (if b then p else q)
  choice-IsWithinLimits true p q hp hq = hp
  choice-IsWithinLimits false p q hp hq = hq

  disabled_for-IsWithinLimits : (r : ContradictionReason) → IsWithinLimits (disabled_for d r)
  unfolding IsWithinLimits
  disabled_for-IsWithinLimits r = omega arith

  policy_with_limit-IsWithinLimits :
      (env : Environment) (o : Option ℕ) → IsWithinLimits (policy_with_limit d env o)
  policy_with_limit-IsWithinLimits env none = disabled_for-IsWithinLimits budget_approval_missing
  policy_with_limit-IsWithinLimits env (some limit) =
      choice-IsWithinLimits
        (not (is_approved env "CONTRADICTION_COST_BUDGET_APPROVED") || limit == 0) _ _
        (disabled_for-IsWithinLimits budget_approval_missing)
        (policy_with_costs-IsWithinLimits env (
          budget_of limit (usd_setting env "CONTRADICTION_ESTIMATED_REQUEST_COST_USD")
            (usd_setting env "CONTRADICTION_ESTIMATED_INPUT_COST_USD_PER_MILLION_BYTES")
            (usd_setting env "CONTRADICTION_ESTIMATED_OUTPUT_COST_USD_PER_MILLION_BYTES")))

  -- Whatever the environment holds, the time limit is between 100 ms and a minute, there are 1 to 32
  -- slots for shadow jobs, and at most 1000 jobs wait.
  pub policy-IsWithinLimits :
      (env : Environment) → IsWithinLimits (contradiction_policy_from_env d env)
  unfolding contradiction_policy_from_env
  policy-IsWithinLimits env = choice-IsWithinLimits _ _ _ (disabled_for-IsWithinLimits disabled) (
      choice-IsWithinLimits _ _ _ (disabled_for-IsWithinLimits processing_approval_missing) (
        choice-IsWithinLimits _ _ _ (disabled_for-IsWithinLimits provider_model_approval_missing) (
          choice-IsWithinLimits _ _ _ (disabled_for-IsWithinLimits terms_approval_missing) (
            choice-IsWithinLimits _ _ _ (disabled_for-IsWithinLimits scope_approval_missing) (
              policy_with_limit-IsWithinLimits env
                (usd_setting env "CONTRADICTION_COST_BUDGET_USD"))))))
