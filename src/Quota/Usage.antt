-- ===== src/Quota/Usage.antt =====
-- src/security.ts: the rows of a usage table, and the upsert that charges one operation.
use total_recall.Base.{
  ℕ, ◌+◌, ◌≡◌, ◌&&◌, List, [], ◌∷◌, String, str_eq, eq_iff, arith, ◌==◌, if◌then◌else◌,
}

pub record UsageRow : Type 0 where
  pub api_key_id : String
  pub window_start : ℕ
  pub request_count : ℕ

-- COALESCE((SELECT request_count …), 0)
unfoldable pub count_of : String → ℕ → List UsageRow → ℕ
count_of key start [] = 0
count_of key start (r ∷ rows) =
    if str_eq r.api_key_id key && r.window_start == start
    then r.request_count
    else count_of key start rows

-- INSERT … ON CONFLICT … DO UPDATE SET request_count = request_count + 1
unfoldable pub charge : String → ℕ → List UsageRow → List UsageRow
charge key start [] = record { api_key_id = key; window_start = start; request_count = 1 } ∷ []
charge key start (r ∷ rows) =
    if str_eq r.api_key_id key && r.window_start == start
    then record r { request_count = r.request_count + 1 } ∷ rows
    else r ∷ charge key start rows

pub count_of-charge :
    (key j : String) (start v : ℕ) (rows : List UsageRow)
    → count_of j v (charge key start rows)
      ≡ (if str_eq key j && start == v then count_of key start rows + 1 else count_of j v rows)
unfolding count_of charge
count_of-charge key j start v [] = ground (arith, eq_iff key j)
count_of-charge key j start v (r ∷ rows) = ground (
  arith,
  eq_iff key j,
  eq_iff r.api_key_id key,
  eq_iff r.api_key_id j,
  count_of-charge key j start v rows,
)
