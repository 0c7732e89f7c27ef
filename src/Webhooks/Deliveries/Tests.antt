-- ===== src/Webhooks/Deliveries/Tests.antt =====
-- Jobs of the worker.
use total_recall.Base.{
  ℕ, ◌≡◌, ◌≤◌, ◌*◌, refl, none, some, [], ◌∷◌, List, arith, true, false, String, Bool, length, ◌⊎◌,
  Occurs, update_where, eq_iff,
}
use total_recall.Webhooks.Deliveries.{
  DeliveryRow, pending, retry, is_claimable, candidate, has_id, claim_webhook_delivery, http,
  mark_delivery_delivered, mark_delivery_failed, Journey, resolved, responded, retry_at_for_attempt,
  requested_delay, after_response, after_post, process_delivery, deliver_next,
}
use total_recall.Webhooks.Deliveries.Attempts.{HasPrimaryKey, Delivers, deliver_next-Delivers}
use total_recall.Webhooks.Deliveries.Jobs.{Job, jobs_settled, jobs_settled-bounded}

abbrev row : String → ℕ → DeliveryRow
row id at = record {
  id = id;
  status = pending;
  attempts = 0;
  next_attempt_at = at;
  created_at = 0;
  locked_at = none;
  delivered_at = none;
  last_http_status = none;
  last_error_code = none;
}

abbrev journey : ℕ → Journey
journey status = record {
  authorized = true;
  decrypts = true;
  destination = resolved;
  still_authorized = true;
  post = responded status none;
  date_in = λ s. 0;
  jitter = 3;
  ends_at = 1_000;
}

abbrev two_rows : List DeliveryRow
two_rows = row "a" 9 ∷ row "b" 5 ∷ []

abbrev job : ℕ → Job
job status = record {
  skipped = λ id. false;
  starts_at = 10;
  journey = journey status;
  is_lost = false;
}

busy_then_done :
    (deliver_next (λ id. false) 10 (journey 503) two_rows
      ≡ row "a" 9
        ∷ record (row "b" 64_000) {
          status = retry;
          attempts = 1;
          last_http_status = some 503;
          last_error_code = some (http 503);
        }
        ∷ [])
    × (jobs_settled (job 200 ∷ job 200 ∷ job 200 ∷ []) two_rows ≡ 2)
unfolding deliver_next claim_webhook_delivery process_delivery after_post after_response candidate
    is_claimable mark_delivery_failed mark_delivery_delivered retry_at_for_attempt requested_delay
    jobs_settled
busy_then_done = (refl, refl)

two_rows-HasPrimaryKey : HasPrimaryKey two_rows
two_rows-HasPrimaryKey id = ground (arith, eq_iff "a" id, eq_iff "b" id, eq_iff "a" "b")

jobs_settled-bounded_example :
    jobs_settled (record (job 200) { is_lost = true } ∷ job 503 ∷ job 200 ∷ job 200 ∷ []) two_rows
    ≤ 6 * length two_rows
jobs_settled-bounded_example =
    jobs_settled-bounded (record (job 200) { is_lost = true } ∷ job 503 ∷ job 200 ∷ job 200 ∷ [])
      two_rows two_rows-HasPrimaryKey

deliver_next-Delivers_example :
    ((candidate (λ id. false) 10 two_rows ≡ none)
      × (deliver_next (λ id. false) 10 (journey 503) two_rows ≡ two_rows))
    ⊎ ((r : DeliveryRow) × (f : DeliveryRow → DeliveryRow) × (candidate (λ id. false) 10 two_rows
          ≡ some r)
        × Occurs r two_rows
        × (is_claimable 10 r ≡ true)
        × (◌≡◌ {A = Bool} false false)
        × (deliver_next (λ id. false) 10 (journey 503) two_rows
            ≡ update_where (has_id r.id) f two_rows)
        × Delivers (journey 503) r f)
deliver_next-Delivers_example = deliver_next-Delivers (λ id. false) 10 (journey 503) two_rows
