-- ===== src/Webhooks/Deliveries/Lifecycle.antt =====
-- src/subscriptions.ts and scripts/webhook-delivery.ts: what one job does to the rows.
use total_recall.Base.{
  ℕ, ◌+◌, ◌≤◌, ◌<◌, ◌≡◌, refl, Bool, true, false, not, ◌&&◌, Option, none, some, List, String,
  arith, update_where, ◌⊎◌, inl, inr, if◌then◌else◌, ltb, leb,
}
use total_recall.Webhooks.Deliveries.{
  DeliveryRow, ErrorCode, crypto_error, dns_error, destination_blocked, pending, processing, retry,
  delivered, dead, cancelled, in_processing, cancel_unauthorized_delivery, mark_delivery_delivered,
  mark_delivery_failed, Failure, Journey, PostResult, responded, throws, resolved, unresolved,
  blocked, retry_at_for_attempt, webhook_max_attempts, after_response, after_post, process_delivery,
  can_retry, terminal_failure, retry_delivery, requested_delay, Destination, is_too_large,
  is_retryable_status,
}

-- A row after a job that took it with n attempts: settled for good, or put back for another attempt,
-- which one is left of, between a minute and twelve hours from now.
abbrev pub Settles : Journey → ℕ → DeliveryRow → Type 0
Settles j n y = elim y.status [
  | pending ↦ ⊥
  | processing ↦ ⊥
  | retry ↦
      (n < webhook_max_attempts)
      × (j.ends_at + 60_000 ≤ y.next_attempt_at)
      × (y.next_attempt_at ≤ j.ends_at + 43_200_000)
  | delivered ↦
      (j.authorized ≡ true)
      × (j.decrypts ≡ true)
      × (j.destination ≡ resolved)
      × (j.still_authorized ≡ true)
  | dead ↦ Unit
  | cancelled ↦ Unit
]

-- The job changes the rows with the id by one function, to settled rows.
unfoldable pub Treats : Journey → String → ℕ → List DeliveryRow → List DeliveryRow → Type 0
Treats j id n rows rows' =
    (f : DeliveryRow → DeliveryRow) × (rows' ≡ update_where (in_processing id) f rows)
    × ((x : DeliveryRow) → (f x).id ≡ x.id)
    × ((x : DeliveryRow) → (f x).attempts ≡ x.attempts)
    × ((x : DeliveryRow) → Settles j n (f x))

retry_at-bounds :
    (attempts requested jitter now : ℕ)
    → (now + 60_000 ≤ retry_at_for_attempt attempts requested jitter now)
      × (retry_at_for_attempt attempts requested jitter now ≤ now + 43_200_000)
unfolding retry_at_for_attempt
retry_at-bounds attempts requested jitter now = ground arith

module _ (j : Journey) (id : String) (n : ℕ) (rows : List DeliveryRow) where
  Failure-Treats :
      (f : Failure)
      → ((r : DeliveryRow)
          → Settles j n (record r {
            status = if f.terminal then dead else retry;
            next_attempt_at = elim f.retry_at [ none ↦ r.next_attempt_at | some t ↦ t ];
            locked_at = none;
            last_http_status = f.http_status;
            last_error_code = some f.error_code;
          }))
      → Treats j id n rows (mark_delivery_failed id f rows)
  unfolding Treats mark_delivery_failed
  Failure-Treats f settles = (_, refl, (λ x. refl), (λ x. refl), settles)

  terminal-Treats : (code : ErrorCode) → Treats j id n rows (terminal_failure j id n code rows)
  terminal-Treats code = Failure-Treats _ (λ r. tt)

  retry-Treats : (code : ErrorCode) → Treats j id n rows (retry_delivery j id n code rows)
  retry-Treats code = Failure-Treats _ (λ r. ground (arith, retry_at-bounds n 0 j.jitter j.ends_at))

  cancel-Treats : Treats j id n rows (cancel_unauthorized_delivery id rows)
  unfolding Treats cancel_unauthorized_delivery
  cancel-Treats = (_, refl, (λ x. refl), (λ x. refl), (λ x. tt))

  Treats-if :
      (b : Bool) (xs ys : List DeliveryRow)
      → (b ≡ true → Treats j id n rows xs)
      → (b ≡ false → Treats j id n rows ys)
      → Treats j id n rows (if b then xs else ys)
  Treats-if true xs ys h k = h refl
  Treats-if false xs ys h k = k refl

  -- What the worker has seen when it posts.
  abbrev MayPost : Type 0
  MayPost =
      (j.authorized ≡ true)
      × (j.decrypts ≡ true)
      × (j.destination ≡ resolved)
      × (j.still_authorized ≡ true)

  delivered-Treats :
      (status : ℕ) → MayPost → Treats j id n rows (mark_delivery_delivered id status j.ends_at rows)
  unfolding Treats mark_delivery_delivered
  delivered-Treats status may = (_, refl, (λ x. refl), (λ x. refl), (λ x. may))

  after_response-Treats :
      (status : ℕ) (retry_after : Option String)
      → MayPost
      → Treats j id n rows (after_response j id n status retry_after rows)
  unfolding after_response
  after_response-Treats status retry_after may =
      Treats-if (leb 200 status && ltb status 300) _ _ (λ e. delivered-Treats status may)
        (λ e.
          Treats-if (is_retryable_status status && can_retry j id n) _ _
            (λ again. Failure-Treats _ (λ r. ground (
              arith,
              retry_at-bounds n (requested_delay j.date_in retry_after) j.jitter j.ends_at,
            )))
            (λ last. Failure-Treats _ (λ r. tt)))

  after_post-Treats : (p : PostResult) → MayPost → Treats j id n rows (after_post j id n p rows)
  unfolding after_post
  after_post-Treats (responded status retry_after) may =
      after_response-Treats status retry_after may
  after_post-Treats (throws code) may =
      Treats-if (can_retry j id n && not (is_too_large code)) _ _ (λ e. retry-Treats code)
        (λ e. terminal-Treats code)

  Destination-cases : (d : Destination) → (d ≡ resolved) ⊎ (d ≡ unresolved) ⊎ (d ≡ blocked)
  Destination-cases resolved = inl refl
  Destination-cases unresolved = inr (inl refl)
  Destination-cases blocked = inr (inr refl)

  pub process_delivery-Treats : Treats j id n rows (process_delivery j id n rows)
  unfolding process_delivery
  process_delivery-Treats =
      Treats-if (not j.authorized) _ _ (λ e. cancel-Treats)
        (λ authorized.
          Treats-if (not j.decrypts) _ _ (λ e. terminal-Treats crypto_error)
            (λ decrypts. elim (Destination-cases j.destination) [
              | inl found ↦ simp found (
                  Treats-if (not j.still_authorized) _ _ (λ e. cancel-Treats)
                    (λ still.
                      after_post-Treats j.post (ground arith, ground arith, found, ground arith)))
              | inr (inl unknown) ↦ simp unknown (retry-Treats dns_error)
              | inr (inr refused) ↦ simp refused (terminal-Treats destination_blocked)
            ]))
