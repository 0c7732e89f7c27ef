-- ===== src/Quota/Cleanup.antt =====
-- src/security.ts: the deletion of old windows. A database that fails throws and deletes nothing.
use total_recall.Base.{
  ℕ, ◌+◌, ◌*◌, ◌≤◌, ◌≡◌, ==_iff, refl, ltb, not, ◌||◌, Option, none, some, List, [], ◌∷◌, String,
  str_eq, if◌then◌else◌, codes, decimal?, is_safe_integer, Result, ok, err, arith,
}
use total_recall.Quota.Usage.{UsageRow, count_of}
use total_recall.Quota.{Tables, day_ms, day_start, minute_start}

pub data CleanupError : Type 0 where
  not_a_positive_integer out_of_range : CleanupError

-- The value of RATE_LIMIT_USAGE_RETENTION_DAYS, `none` where it is not set.
unfoldable pub rate_limit_retention_days_from_env : Option String → Result CleanupError ℕ
unfolding decimal?
rate_limit_retention_days_from_env none = ok 7
rate_limit_retention_days_from_env (some s) =
    if str_eq s "" then ok 7 else elim (decimal? (codes s)) [
      | none ↦ err not_a_positive_integer
      | some n ↦
          if not (is_safe_integer n) || (ltb n 1 || ltb 3_650 n) then err out_of_range else ok n
    ]

-- `window_start < limit - age`, where nothing is that old if the difference is negative
unfoldable pub delete_before : ℕ → ℕ → List UsageRow → List UsageRow
delete_before limit age [] = []
delete_before limit age (r ∷ rows) =
    let rest = delete_before limit age rows in
    if ltb (r.window_start + age) limit then rest else r ∷ rest

unfoldable pub cleanup_rate_limit_usage : ℕ → ℕ → Tables → Result CleanupError Tables
cleanup_rate_limit_usage now retention_days t =
    if ltb retention_days 1
    then err not_a_positive_integer
    else ok (record {
      minute_usage = delete_before now (retention_days * day_ms) t.minute_usage;
      daily_usage = delete_before (day_start now) (retention_days * day_ms) t.daily_usage;
    })

count_of-delete_before :
    (key : String) (start limit age : ℕ) (rows : List UsageRow)
    → limit ≤ start + age
    → count_of key start (delete_before limit age rows) ≡ count_of key start rows
unfolding count_of delete_before
count_of-delete_before key start limit age [] h = refl
count_of-delete_before key start limit age (r ∷ rows) h =
    ground
      (arith, h, ==_iff r.window_start start, count_of-delete_before key start limit age rows h)

-- A clean-up changes no count of a window that may still be charged: those of the current minute and
-- of the current day are what they were.
pub cleanup_rate_limit_usage-count_of :
    (now retention_days : ℕ) (key : String) (t t' : Tables)
    → cleanup_rate_limit_usage now retention_days t ≡ ok t'
    → (count_of key (minute_start now) t'.minute_usage
        ≡ count_of key (minute_start now) t.minute_usage)
      × (count_of key (day_start now) t'.daily_usage ≡ count_of key (day_start now) t.daily_usage)
unfolding cleanup_rate_limit_usage
cleanup_rate_limit_usage-count_of now retention_days key t t' e =
    let long : 1 ≤ retention_days = ground arith in
    let age : 86_400_000 ≤ retention_days * 86_400_000 = omega (arith, long) in
    ground (
      arith,
      count_of-delete_before key (minute_start now) now (retention_days * day_ms) t.minute_usage
          (omega (arith, age)),
      count_of-delete_before key (day_start now) (day_start now) (retention_days * day_ms)
          t.daily_usage (omega (arith, age)),
    )
