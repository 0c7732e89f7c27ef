-- ===== src/Contradictions/Budget/Tests.antt =====
-- Runs of the budget on small inputs.
use total_recall.Base.{ℕ, ◌+◌, ◌≤◌, ◌≡◌, refl, List, [], ◌∷◌, ok, err, true, false, arith}
use total_recall.Contradictions.Budget.{
  BudgetConfig, not_a_byte_count, estimate, round_up_rate, try_reserve, reserve_all,
}
use total_recall.Contradictions.Budget.Limit.{granted, reserve_all-within_limit}

abbrev small_budget : BudgetConfig
small_budget = record {
  limit = 10;
  request = 3;
  input_per_million_bytes = 2;
  output_per_million_bytes = 0;
}

abbrev three_calls : List (ℕ × ℕ)
three_calls = (500_001, 7) ∷ (9_007_199_254_740_992, 7) ∷ (1, 0) ∷ (1, 0) ∷ []

three_calls_run :
    reserve_all small_budget 0 three_calls
    ≡ (ok true ∷ err not_a_byte_count ∷ ok true ∷ ok false ∷ [], 9)
unfolding reserve_all try_reserve estimate round_up_rate
three_calls_run = refl

reserve_all-within_limit_example :
    ((reserve_all small_budget 0 three_calls).1 ≤ 10)
    × ((reserve_all small_budget 0 three_calls).1
        ≡ 0 + granted small_budget three_calls (reserve_all small_budget 0 three_calls).0)
reserve_all-within_limit_example = reserve_all-within_limit small_budget three_calls 0 (omega arith)
