-- ===== src/Quota.antt =====
-- src/security.ts: the request quota of an API key, in fixed UTC windows of a minute and a day.
-- Times are milliseconds since the epoch; a day is named by its first millisecond.
pub mod Usage
pub mod Exact
pub mod Refusal
pub mod Atomic
pub mod Cleanup
mod Tests
use total_recall.Base.{
  ℕ, ◌+◌, ◌-◌, ◌*◌, ◌/◌, ◌%◌, max, Bool, true, false, not, ◌&&◌, ◌||◌, Option, none, some, List, [],
  ◌∷◌, String, leb, if◌then◌else◌, is_some, Result, ok, err,
}
use Usage.{UsageRow, count_of, charge}

pub record Limits : Type 0 where
  pub per_minute : Option ℕ
  pub per_day : Option ℕ

-- api_key_minute_usage and api_key_daily_usage
pub record Tables : Type 0 where
  pub minute_usage : List UsageRow
  pub daily_usage : List UsageRow

abbrev pub no_usage : Tables
no_usage = record { minute_usage = []; daily_usage = [] }

pub record Window : Type 0 where
  pub limit : ℕ
  pub remaining : ℕ
  pub reset_at : ℕ

pub record RateLimitResult : Type 0 where
  pub allowed : Bool
  pub minute : Option Window
  pub day : Option Window
  pub retry_after_seconds : ℕ

pub data QuotaError : Type 0 where
  rate_limit_exceeded : RateLimitResult → QuotaError
  rate_limit_unavailable connection_failed : QuotaError

abbrev pub minute_ms : ℕ
minute_ms = 60_000

abbrev pub day_ms : ℕ
day_ms = 86_400_000

-- date_trunc('minute', now) and now::date, in UTC
abbrev pub minute_start : ℕ → ℕ
minute_start now = now - now % minute_ms

abbrev pub day_start : ℕ → ℕ
day_start now = now - now % day_ms

-- `limit !== null && count >= limit`
abbrev pub exhausted : Option ℕ → ℕ → Bool
exhausted none count = false
exhausted (some limit) count = leb limit count

abbrev window : Option ℕ → ℕ → ℕ → Bool → Option Window
window none count reset allowed = none
window (some limit) count reset allowed = some (record {
  limit = limit;
  remaining = limit - count - (if allowed then 1 else 0);
  reset_at = reset;
})

-- Math.ceil(ms / 1000)
abbrev pub seconds_up : ℕ → ℕ
seconds_up ms = (ms + 999) / 1000

pub quota_result : ℕ → Limits → ℕ → ℕ → Bool → RateLimitResult
quota_result now limits minute_count day_count allowed =
    let minute_reset = minute_start now + minute_ms in
    let day_reset = day_start now + day_ms in
    record {
      allowed = allowed;
      minute = window limits.per_minute minute_count minute_reset allowed;
      day = window limits.per_day day_count day_reset allowed;
      retry_after_seconds =
          if allowed
          then 0
          else max 1 (
              seconds_up (
                max (if exhausted limits.per_minute minute_count then minute_reset - now else 0)
                  (if exhausted limits.per_day day_count then day_reset - now else 0)));
    }

-- One upsert, which is left out where the window has no limit.
abbrev charge_limited : Option ℕ → String → ℕ → List UsageRow → List UsageRow
charge_limited limit key start rows = if is_some limit then charge key start rows else rows

pub charge_both : Limits → String → ℕ → Tables → Tables
charge_both limits key now t = record {
  minute_usage = charge_limited limits.per_minute key (minute_start now) t.minute_usage;
  daily_usage = charge_limited limits.per_day key (day_start now) t.daily_usage;
}

pub consume_on_client : String → Limits → ℕ → Tables → Result QuotaError (Tables × RateLimitResult)
unfolding quota_result charge_both
consume_on_client key limits now t =
    let minute_count = count_of key (minute_start now) t.minute_usage in
    let day_count = count_of key (day_start now) t.daily_usage in
    let denied = exhausted limits.per_minute minute_count || exhausted limits.per_day day_count in
    if denied
    then err (rate_limit_exceeded (quota_result now limits minute_count day_count false))
    else ok (charge_both limits key now t, quota_result now limits minute_count day_count true)

abbrev pub unlimited_result : RateLimitResult
unlimited_result = record { allowed = true; minute = none; day = none; retry_after_seconds = 0 }

-- What the connection can do wrong: fail to open, and fail at BEGIN, at the queries for the lock and
-- the counts, at an upsert, or at COMMIT. A COMMIT that fails may have
-- taken effect all the same.
pub record Faults : Type 0 where
  pub connect : Bool
  pub begin : Bool
  pub query : Bool
  pub upsert : Bool
  pub commit : Bool
  pub commit_took_effect : Bool

-- `consumeRateLimit` with a connection of its own: the tables that others see, and what is thrown.
pub consume_rate_limit :
    Faults → String → Limits → ℕ → Tables → Tables × Result QuotaError RateLimitResult
consume_rate_limit f key limits now t =
    if not (is_some limits.per_minute || is_some limits.per_day)
    then (t, ok unlimited_result)
    else if f.connect
    then (t, err connection_failed)
    else if f.begin || f.query
    then (t, err rate_limit_unavailable)
    else elim (consume_on_client key limits now t) [
      | err (rate_limit_exceeded r) ↦ (t, err (rate_limit_exceeded r))
      | err e ↦ (t, err rate_limit_unavailable)
      | ok (t', r) ↦
          if f.upsert
          then (t, err rate_limit_unavailable)
          else if f.commit
          then (if f.commit_took_effect then t' else t, err rate_limit_unavailable)
          else (t', ok r)
    ]

-- Operations of many keys, one after the other as the key's advisory lock orders them; with the
-- operations that were admitted.
pub serve : (String → Limits) → Tables → List (String × ℕ) → Tables × List (String × ℕ)
unfolding consume_on_client
serve limits t [] = (t, [])
serve limits t ((key, now) ∷ ops) = elim (consume_on_client key (limits key) now t) [
  | err e ↦ serve limits t ops
  | ok (t', r) ↦ let (t'', admitted) = serve limits t' ops in (t'', (key, now) ∷ admitted)
]
