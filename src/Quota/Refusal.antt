-- ===== src/Quota/Refusal.antt =====
-- src/security.ts: what a refused operation leaves behind and tells its caller.
use total_recall.Base.{ℕ, ◌+◌, ◌*◌, ◌≤◌, ◌≡◌, ◌⊎◌, Bool, true, false, String, arith, err}
use total_recall.Quota.Usage.{count_of}
use total_recall.Quota.{
  Limits, Tables, RateLimitResult, QuotaError, rate_limit_exceeded, minute_ms, day_ms, minute_start,
  day_start, exhausted, quota_result, consume_on_client,
}

-- The windows of an instant that keep the key out.
abbrev pub MinuteShut : String → Limits → ℕ → Tables → Bool → Type 0
MinuteShut key limits now t b =
    exhausted limits.per_minute (count_of key (minute_start now) t.minute_usage) ≡ b

abbrev pub DayShut : String → Limits → ℕ → Tables → Bool → Type 0
DayShut key limits now t b =
    exhausted limits.per_day (count_of key (day_start now) t.daily_usage) ≡ b

module _ (key : String) (limits : Limits) (now : ℕ) (t : Tables) (x : QuotaError) where
  -- A refusal comes with a hint of one second to a day; a window that is used up is over once the
  -- hinted time has passed, and one of the two windows is used up.
  pub refusal_hint :
      consume_on_client key limits now t ≡ err x
      → (r : RateLimitResult) × (x ≡ rate_limit_exceeded r)
        × (1 ≤ r.retry_after_seconds)
        × (r.retry_after_seconds ≤ 86_400)
        × (MinuteShut key limits now t true ⊎ DayShut key limits now t true)
        × (MinuteShut key limits now t false
            ⊎ (minute_start now + minute_ms ≤ now + 1000 * r.retry_after_seconds))
        × (DayShut key limits now t false
            ⊎ (day_start now + day_ms ≤ now + 1000 * r.retry_after_seconds))
  unfolding consume_on_client quota_result
  refusal_hint e = (
    quota_result now limits (count_of key (minute_start now) t.minute_usage)
        (count_of key (day_start now) t.daily_usage) false,
    ground arith,
    ground arith,
    ground arith,
    ground arith,
    ground arith,
    ground arith,
  )
