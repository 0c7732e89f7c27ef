-- ===== src/Contradictions/Budget.antt =====
-- src/contradictions.ts: the budget of a process, in millionths of a dollar. Amounts are bigints that
-- the parser of the settings makes, so none is negative; a count of bytes is a natural number.
mod Rates
pub mod Limit
mod Tests
use total_recall.Base.{
  ℕ, ◌+◌, ◌-◌, ◌*◌, ◌/◌, ◌==◌, leb, ltb, Bool, true, false, not, ◌||◌, List, [], ◌∷◌, if◌then◌else◌,
  is_safe_integer, ensure, Result, ok, err, ◌>>=◌, ◌>>◌,
}

pub record BudgetConfig : Type 0 where
  pub limit : ℕ
  pub request : ℕ
  pub input_per_million_bytes : ℕ
  pub output_per_million_bytes : ℕ

pub data BudgetError : Type 0 where
  not_a_byte_count : BudgetError

abbrev pub pricing_units_per_million : ℕ
pricing_units_per_million = 1_000_000

unfoldable pub round_up_rate : ℕ → ℕ → Result BudgetError ℕ
round_up_rate bytes rate =
    if not (is_safe_integer bytes)
    then err not_a_byte_count
    else if bytes == 0 || rate == 0
    then ok 0
    else ok ((bytes * rate + pricing_units_per_million - 1) / pricing_units_per_million)

unfoldable pub estimate : BudgetConfig → ℕ → ℕ → Result BudgetError ℕ
unfolding round_up_rate
estimate c input_bytes max_output_bytes = do
  input ← round_up_rate input_bytes c.input_per_million_bytes
  output ← round_up_rate max_output_bytes c.output_per_million_bytes
  ok (c.request + input + output)

-- The answer, and `reservedMicroUsd` after the call.
unfoldable pub try_reserve : BudgetConfig → ℕ → ℕ → ℕ → Result BudgetError (Bool × ℕ)
unfolding estimate
try_reserve c reserved input_bytes max_output_bytes = do
  cost ← estimate c input_bytes max_output_bytes
  if cost == 0 || ltb c.limit (reserved + cost)
      then ok (false, reserved)
      else ok (true, reserved + cost)

-- The calls of a process in their order: what each answers, and the reservation after all of them. A
-- call that throws leaves the reservation as it is.
unfoldable pub reserve_all : BudgetConfig → ℕ → List (ℕ × ℕ) → List (Result BudgetError Bool) × ℕ
unfolding try_reserve
reserve_all c reserved [] = ([], reserved)
reserve_all c reserved ((input, output) ∷ calls) = elim (try_reserve c reserved input output) [
  | ok answer ↦ let rest = reserve_all c answer.1 calls in (ok answer.0 ∷ rest.0, rest.1)
  | err e ↦ let rest = reserve_all c reserved calls in (err e ∷ rest.0, rest.1)
]
