-- ===== src/Contradictions/Budget/Rates.antt =====
-- src/contradictions.ts: what an amount of bytes costs, rounded up.
use total_recall.Base.{
  ℕ, ◌+◌, ◌-◌, ◌*◌, ◌/◌, ◌≤◌, ◌<◌, ◌≡◌, refl, ◌==◌, true, inl, inr, arith, Bool-cases, ◌||◌,
  is_safe_integer, ok,
}
use total_recall.Contradictions.Budget.{round_up_rate, pricing_units_per_million}

zero_product : (a b : ℕ) → (a == 0 || b == 0) ≡ true → a * b ≡ 0
zero_product a b h = grind arith

-- For a safe byte count the cost is the least whole amount that is not below the rate times the count,
-- in millionths: it covers that product, and no smaller amount does.
pub round_up_rate_least :
    (bytes rate : ℕ)
    → is_safe_integer bytes ≡ true
    → (cost : ℕ) × (round_up_rate bytes rate ≡ ok cost)
      × (bytes * rate ≤ cost * pricing_units_per_million)
      × ((less : ℕ) → less < cost → less * pricing_units_per_million < bytes * rate)
unfolding round_up_rate
round_up_rate_least bytes rate safe = elim (Bool-cases (bytes == 0 || rate == 0)) [
  | inl free ↦
      let none_due : bytes * rate ≡ 0 = zero_product bytes rate free in
      (0, rw (safe, free) refl, omega arith, λ less h. omega arith)
  | inr due ↦ (
    (bytes * rate + pricing_units_per_million - 1) / pricing_units_per_million,
    rw (safe, due) refl,
    omega arith,
    λ less h. omega arith,
  )
]
