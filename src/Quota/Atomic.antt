-- ===== src/Quota/Atomic.antt =====
-- src/security.ts: `consumeRateLimit` charges both windows or none, whatever the connection does.
use total_recall.Base.{ℕ, ◌≡◌, false, ◌&&◌, String, arith, ok, err}
use total_recall.Quota.Usage.{count_of}
use total_recall.Quota.{
  Limits, Tables, RateLimitResult, QuotaError, Faults, charge_both, consume_on_client,
  consume_rate_limit, minute_start, day_start, exhausted,
}

module _ (f : Faults) (key : String) (limits : Limits) (now : ℕ) (t : Tables) where
  -- An operation that is let through has been charged to every window that is limited, and to nothing
  -- else, and had room in each.
  pub success_charges :
      (r : RateLimitResult)
      → (consume_rate_limit f key limits now t).1 ≡ ok r
      → ((consume_rate_limit f key limits now t).0 ≡ charge_both limits key now t)
        × (exhausted limits.per_minute (count_of key (minute_start now) t.minute_usage) ≡ false)
        × (exhausted limits.per_day (count_of key (day_start now) t.daily_usage) ≡ false)
  unfolding consume_rate_limit consume_on_client charge_both
  success_charges r e = (ground arith, ground arith, ground arith)

  -- An operation that fails, for want of quota or because of the database, changes no count, unless
  -- it failed at a COMMIT that took effect all the same.
  pub failure_changes_nothing :
      (x : QuotaError)
      → (consume_rate_limit f key limits now t).1 ≡ err x
      → (f.commit && f.commit_took_effect) ≡ false
      → (consume_rate_limit f key limits now t).0 ≡ t
  unfolding consume_rate_limit consume_on_client
  failure_changes_nothing x e c = ground arith
