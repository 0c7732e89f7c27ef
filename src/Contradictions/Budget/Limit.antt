-- ===== src/Contradictions/Budget/Limit.antt =====
-- src/contradictions.ts: what a process reserves over its life.
use total_recall.Base.{
  ℕ, ◌+◌, ◌≤◌, ◌≡◌, List, [], ◌∷◌, arith, Result, ok, err, Result-cases, Bool, true, false, inl,
  inr, if◌then◌else◌, subst,
}
use total_recall.Contradictions.Budget.{
  BudgetConfig, BudgetError, estimate, try_reserve, reserve_all,
}

abbrev pub cost_of : Result BudgetError ℕ → ℕ
cost_of (ok cost) = cost
cost_of (err e) = 0

-- What the calls that were answered with true cost, added up.
abbrev pub granted : BudgetConfig → List (ℕ × ℕ) → List (Result BudgetError Bool) → ℕ
granted c ((input, output) ∷ calls) (ok true ∷ answers) =
    cost_of (estimate c input output) + granted c calls answers
granted c (call ∷ calls) (answer ∷ answers) = granted c calls answers
granted c calls answers = 0

-- The reservation is within the limit and has grown by what a granted call costs.
abbrev pub Charges : BudgetConfig → ℕ → ℕ → ℕ → Result BudgetError (Bool × ℕ) → Type 0
Charges c reserved input output (ok answer) =
    (answer.1 ≤ c.limit)
    × (answer.1 ≡ reserved + (if answer.0 then cost_of (estimate c input output) else 0))
Charges c reserved input output (err e) = Unit

pub try_reserve-Charges :
    (c : BudgetConfig) (reserved input output : ℕ)
    → reserved ≤ c.limit
    → Charges c reserved input output (try_reserve c reserved input output)
unfolding try_reserve
try_reserve-Charges c reserved input output h = elim (Result-cases (estimate c input output)) [
  | inl (cost, e) ↦ rw e (ground arith)
  | inr (x, e) ↦ rw e tt
]

-- From a reservation within the limit, any calls in any order keep it within the limit, and it grows
-- by exactly what the calls that were answered with true cost: what is refused or throws is not charged.
pub reserve_all-within_limit :
    (c : BudgetConfig) (calls : List (ℕ × ℕ)) (reserved : ℕ)
    → reserved ≤ c.limit
    → ((reserve_all c reserved calls).1 ≤ c.limit)
      × ((reserve_all c reserved calls).1
          ≡ reserved + granted c calls (reserve_all c reserved calls).0)
unfolding reserve_all
reserve_all-within_limit c [] reserved h = (h, omega arith)
reserve_all-within_limit c ((input, output) ∷ calls) reserved h =
    elim (Result-cases (try_reserve c reserved input output)) [
      | inl ((true, r), e) ↦
          let step =
            subst (Charges c reserved input output) e
              (try_reserve-Charges c reserved input output h) in
          rw (e, reserve_all) (ground (arith, reserve_all-within_limit c calls r step.0))
      | inl ((false, r), e) ↦
          let step =
            subst (Charges c reserved input output) e
              (try_reserve-Charges c reserved input output h) in
          rw (e, reserve_all) (ground (arith, reserve_all-within_limit c calls r step.0))
      | inr (x, e) ↦ rw (e, reserve_all) (reserve_all-within_limit c calls reserved h)
    ]
