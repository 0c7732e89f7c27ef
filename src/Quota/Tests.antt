-- ===== src/Quota/Tests.antt =====
-- Quotas at concrete operations.
use total_recall.Base.{ℕ, ◌≤◌, ◌≡◌, refl, true, false, none, some, List, [], ◌∷◌, String, min}
use total_recall.Quota.Usage.{UsageRow, count_of, charge}
use total_recall.Quota.{
  Limits, Tables, RateLimitResult, QuotaError, rate_limit_exceeded, no_usage, Faults, minute_start,
  day_start, charge_both, serve, quota_result,
}
use total_recall.Quota.Exact.{tally, admitted_bounds, admitted_exact}

abbrev two_a_minute : Limits
two_a_minute = record { per_minute = some 2; per_day = none }

abbrev both : Limits
both = record { per_minute = some 2; per_day = some 3 }

abbrev burst : List (String × ℕ)
burst = ("k", 60_000) ∷ ("j", 60_001) ∷ ("k", 60_002) ∷ ("k", 119_999) ∷ ("k", 120_000) ∷ []

abbrev quiet : Faults
quiet = record {
  connect = false;
  begin = false;
  query = false;
  upsert = false;
  commit = false;
  commit_took_effect = false;
}

burst_admitted :
    (serve (λ k. two_a_minute) no_usage burst).1
    ≡ ("k", 60_000) ∷ ("j", 60_001) ∷ ("k", 60_002) ∷ ("k", 120_000) ∷ []
unfolding serve count_of charge charge_both
burst_admitted = refl

admitted_bounds_example :
    (tally minute_start "k" 60_000 (serve (λ k. both) no_usage burst).1 ≤ 2)
    × (tally day_start "k" 0 (serve (λ k. both) no_usage burst).1 ≤ 3)
admitted_bounds_example = admitted_bounds (λ k. both) burst "k" 2 3 60_000 0 refl refl

admitted_exact_example :
    tally minute_start "k" 60_000 (serve (λ k. two_a_minute) no_usage burst).1
    ≡ min 2 (tally minute_start "k" 60_000 burst)
admitted_exact_example = admitted_exact (λ k. two_a_minute) burst "k" 2 60_000 refl refl

-- A key that may never operate.
abbrev barred : Limits
barred = record { per_minute = some 0; per_day = none }

abbrev barred_error : QuotaError
barred_error = rate_limit_exceeded (quota_result 90_500 barred 0 0 false)

abbrev fine : RateLimitResult
fine = quota_result 90_500 two_a_minute 0 0 true

abbrev broken : Faults
broken = record quiet { commit = true }

abbrev usage : ℕ → ℕ → UsageRow
usage start count = record { api_key_id = "k"; window_start = start; request_count = count }

abbrev before_cleanup : Tables
before_cleanup = record {
  minute_usage = usage 0 5 ∷ usage 90_000_000 3 ∷ [];
  daily_usage = usage 0 5 ∷ [];
}

abbrev after_cleanup : Tables
after_cleanup = record { minute_usage = usage 90_000_000 3 ∷ []; daily_usage = usage 0 5 ∷ [] }
