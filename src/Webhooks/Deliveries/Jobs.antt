-- ===== src/Webhooks/Deliveries/Jobs.antt =====
-- src/subscriptions.ts and scripts/webhook-delivery.ts: jobs one after the other, and how often a
-- delivery is settled.
use total_recall.Base.{
  refl, Bool-cases, if_lem, if◌then◌else◌, ℕ, ◌+◌, ◌-◌, ◌*◌, ◌≤◌, ◌<◌, ◌≡◌, sym, ap, subst, Bool,
  true, Option, none, some, List, [], ◌∷◌, String, str_eq, eq_iff, arith, Occurs, update_where,
  Option-cases, ◌⊎◌, inl, inr, sum_by, sum_by-update_where, count_where-update, length, max,
}
use total_recall.Webhooks.Deliveries.{
  DeliveryRow, pending, processing, retry, delivered, dead, cancelled, is_claimable, candidate,
  has_id, claimed_row, claim_webhook_delivery, Journey, webhook_max_attempts, deliver_next,
}
use total_recall.Webhooks.Deliveries.Attempts.{
  HasPrimaryKey, candidate_found, Delivers, deliver_next-Delivers,
}

-- The jobs that a row may still take.
abbrev pub weight : DeliveryRow → ℕ
weight r = elim r.status [
  | pending ↦ max 1 (webhook_max_attempts - r.attempts)
  | processing ↦ max 1 (webhook_max_attempts - r.attempts)
  | retry ↦ max 1 (webhook_max_attempts - r.attempts)
  | delivered ↦ 0
  | dead ↦ 0
  | cancelled ↦ 0
]

Delivers-weight :
    (j : Journey) (now : ℕ) (r : DeliveryRow) (f : DeliveryRow → DeliveryRow)
    → is_claimable now r ≡ true
    → Delivers j r f
    → weight (f r) < weight r
unfolding is_claimable
Delivers-weight j now r f due (same_id, counted, settled) =
    let n = counted r in let s = settled r in ground arith

deliver_next-HasPrimaryKey :
    (skipped : String → Bool) (now : ℕ) (j : Journey) (rows : List DeliveryRow)
    → HasPrimaryKey rows
    → HasPrimaryKey (deliver_next skipped now j rows)
deliver_next-HasPrimaryKey skipped now j rows key =
    elim (deliver_next-Delivers skipped now j rows) [
      | inl (nothing, same) ↦ subst HasPrimaryKey (sym same) key
      | inr (r, f, found, o, due, free, e, (same_id, counted, settled)) ↦
          subst HasPrimaryKey (sym e) (λ id.
            subst (λ (n : ℕ). n ≤ 1)
              (sym (
                count_where-update (has_id id) (has_id r.id) f rows
                  (λ x. ap (λ i. str_eq i id) (same_id x))))
              (key id))
    ]

-- What a job that is lost after its claim leaves: a worker that crashes, or a settling statement that
-- fails, leaves the row as the claim made it.
claim-cases :
    (skipped : String → Bool) (now : ℕ) (rows : List DeliveryRow)
    → ((claim_webhook_delivery skipped now rows).1 ≡ rows)
      ⊎ ((r : DeliveryRow) × Occurs r rows
          × (is_claimable now r ≡ true)
          × ((claim_webhook_delivery skipped now rows).1
              ≡ update_where (has_id r.id) (claimed_row now) rows))
unfolding claim_webhook_delivery
claim-cases skipped now rows = elim (Option-cases (candidate skipped now rows)) [
  | inl nothing ↦ inl (ground arith)
  | inr (r, found) ↦
      let (o, due, free) = candidate_found skipped now rows r found in inr (r, o, due, ground arith)
]

claimed-weight :
    (now : ℕ) (r : DeliveryRow) → is_claimable now r ≡ true → weight (claimed_row now r) ≤ weight r
unfolding is_claimable
claimed-weight now r due = ground arith

claim-HasPrimaryKey :
    (skipped : String → Bool) (now : ℕ) (rows : List DeliveryRow)
    → HasPrimaryKey rows
    → HasPrimaryKey (claim_webhook_delivery skipped now rows).1
claim-HasPrimaryKey skipped now rows key = elim (claim-cases skipped now rows) [
  | inl same ↦ subst HasPrimaryKey (sym same) key
  | inr (r, o, due, e) ↦ subst HasPrimaryKey (sym e) (λ id.
      subst (λ (n : ℕ). n ≤ 1)
        (sym (count_where-update (has_id id) (has_id r.id) (claimed_row now) rows (λ x. refl)))
        (key id))
]

claim-weight :
    (skipped : String → Bool) (now : ℕ) (rows : List DeliveryRow)
    → HasPrimaryKey rows
    → sum_by weight (claim_webhook_delivery skipped now rows).1 ≤ sum_by weight rows
claim-weight skipped now rows key = elim (claim-cases skipped now rows) [
  | inl same ↦ omega (arith, ap (sum_by weight) same)
  | inr (r, o, due, e) ↦
      let less = claimed-weight now r due in
      let total =
        sum_by-update_where weight (has_id r.id) (claimed_row now) rows r (key r.id) o
          (ground (arith, eq_iff r.id r.id)) in
      let moved = ap (sum_by weight) e in omega (arith, less, total, moved)
]

-- A job of the worker, what it meets, and whether it is lost after its claim.
pub record Job : Type 0 where
  pub skipped : String → Bool
  pub starts_at : ℕ
  pub journey : Journey
  pub is_lost : Bool

abbrev pub run_job : Job → List DeliveryRow → List DeliveryRow
run_job b rows =
    if b.is_lost
    then (claim_webhook_delivery b.skipped b.starts_at rows).1
    else deliver_next b.skipped b.starts_at b.journey rows

abbrev pub settled_by : Job → Option DeliveryRow → ℕ
settled_by b none = 0
settled_by b (some r) = if b.is_lost then 0 else 1

-- How many of the jobs find a delivery and settle it, one after the other.
unfoldable pub jobs_settled : List Job → List DeliveryRow → ℕ
jobs_settled [] rows = 0
jobs_settled (b ∷ jobs) rows =
    settled_by b (candidate b.skipped b.starts_at rows) + jobs_settled jobs (run_job b rows)

deliver_next-weight :
    (skipped : String → Bool) (now : ℕ) (j : Journey) (rows : List DeliveryRow)
    → HasPrimaryKey rows
    → ((candidate skipped now rows ≡ none) × (deliver_next skipped now j rows ≡ rows))
      ⊎ (sum_by weight (deliver_next skipped now j rows) < sum_by weight rows)
deliver_next-weight skipped now j rows key = elim (deliver_next-Delivers skipped now j rows) [
  | inl idle ↦ inl idle
  | inr (r, f, found, o, due, free, e, delivers) ↦
      let less = Delivers-weight j now r f due delivers in
      let total =
        sum_by-update_where weight (has_id r.id) f rows r (key r.id) o
          (ground (arith, eq_iff r.id r.id)) in
      let moved = ap (sum_by weight) e in inr (omega (arith, less, total, moved))
]

run_job-weight :
    (b : Job) (rows : List DeliveryRow)
    → HasPrimaryKey rows
    → settled_by b (candidate b.skipped b.starts_at rows) + sum_by weight (run_job b rows)
      ≤ sum_by weight rows
run_job-weight b rows key = elim (Bool-cases b.is_lost) [
  | inl lost ↦
      let less = claim-weight b.skipped b.starts_at rows key in
      elim (Option-cases (candidate b.skipped b.starts_at rows)) [
        | inl nothing ↦ ground (arith, less)
        | inr (r, found) ↦ ground (arith, less)
      ]
  | inr settles ↦ elim (deliver_next-weight b.skipped b.starts_at b.journey rows key) [
    | inl (nothing, same) ↦ ground (arith, ap (sum_by weight) same)
    | inr less ↦ elim (Option-cases (candidate b.skipped b.starts_at rows)) [
      | inl nothing ↦ ground (arith, less)
      | inr (r, found) ↦ ground (arith, less)
    ]
  ]
]

run_job-HasPrimaryKey :
    (b : Job) (rows : List DeliveryRow) → HasPrimaryKey rows → HasPrimaryKey (run_job b rows)
run_job-HasPrimaryKey b rows key =
    if_lem HasPrimaryKey b.is_lost (claim-HasPrimaryKey b.skipped b.starts_at rows key)
      (deliver_next-HasPrimaryKey b.skipped b.starts_at b.journey rows key)

jobs_settled-le-weight :
    (jobs : List Job) (rows : List DeliveryRow)
    → HasPrimaryKey rows
    → jobs_settled jobs rows ≤ sum_by weight rows
unfolding jobs_settled
jobs_settled-le-weight [] rows key = omega arith
jobs_settled-le-weight (b ∷ jobs) rows key = omega (
  arith,
  jobs_settled-le-weight jobs (run_job b rows) (run_job-HasPrimaryKey b rows key),
  run_job-weight b rows key,
)

weight_total : (rows : List DeliveryRow) → sum_by weight rows ≤ 6 * length rows
weight_total [] = omega arith
weight_total (r ∷ rows) = ground (arith, weight_total rows)

-- Where ids are unique, and whatever each job meets, whenever it starts, and however many of them are
-- lost after their claim, so that their row stays in processing until it is claimed again: among any
-- number of jobs, one after the other, at most six for each row settle a delivery they have claimed.
-- What is lost is not counted, and the code has no bound for it.
pub jobs_settled-bounded :
    (jobs : List Job) (rows : List DeliveryRow)
    → HasPrimaryKey rows
    → jobs_settled jobs rows ≤ 6 * length rows
jobs_settled-bounded jobs rows key =
    omega (arith, jobs_settled-le-weight jobs rows key, weight_total rows)
