-- ===== src/Webhooks/Deliveries/Attempts.antt =====
-- src/subscriptions.ts and scripts/webhook-delivery.ts: a whole job.
use total_recall.Base.{
  ℕ, ◌+◌, ◌≤◌, ◌≡◌, ◌∙◌, Bool, true, false, none, some, List, [], ◌∷◌, String, arith, Occurs,
  count_where, update_where, update_where-twice, Option-cases, ◌⊎◌, inl, inr,
}
use total_recall.Webhooks.Deliveries.{
  DeliveryRow, is_claimable, candidate, has_id, claimed_row, claim_webhook_delivery, in_processing,
  Journey, process_delivery, deliver_next,
}
use total_recall.Webhooks.Deliveries.Lifecycle.{Settles, Treats, process_delivery-Treats}

-- The primary key of the table.
abbrev pub HasPrimaryKey : List DeliveryRow → Type 0
HasPrimaryKey rows = (id : String) → count_where (has_id id) rows ≤ 1

candidate-cases :
    (skipped : String → Bool) (now : ℕ) (x r : DeliveryRow) (rows : List DeliveryRow)
    → candidate skipped now (x ∷ rows) ≡ some r
    → ((r ≡ x) × (is_claimable now x ≡ true) × (skipped x.id ≡ false))
      ⊎ (candidate skipped now rows ≡ some r)
unfolding candidate
candidate-cases skipped now x r rows e = ground arith

pub candidate_found :
    (skipped : String → Bool) (now : ℕ) (rows : List DeliveryRow) (r : DeliveryRow)
    → candidate skipped now rows ≡ some r
    → Occurs r rows × (is_claimable now r ≡ true) × (skipped r.id ≡ false)
unfolding candidate
candidate_found skipped now [] r e = absurd (ground arith)
candidate_found skipped now (x ∷ rows) r e = elim (candidate-cases skipped now x r rows e) [
  | inl (same, due, free) ↦ (inl same, cc, cc)
  | inr later ↦ let (o, due, free) = candidate_found skipped now rows r later in (inr o, due, free)
]

-- What a job does with the row that it claims: it counts one attempt more and settles it.
abbrev pub Delivers : Journey → DeliveryRow → (DeliveryRow → DeliveryRow) → Type 0
Delivers j r f =
    ((x : DeliveryRow) → (f x).id ≡ x.id)
    × ((x : DeliveryRow) → (f x).attempts ≡ x.attempts + 1)
    × ((x : DeliveryRow) → Settles j (r.attempts + 1) (f x))

deliver_next_idle :
    (skipped : String → Bool) (now : ℕ) (j : Journey) (rows : List DeliveryRow)
    → candidate skipped now rows ≡ none
    → deliver_next skipped now j rows ≡ rows
unfolding deliver_next claim_webhook_delivery
deliver_next_idle skipped now j rows e = ground arith

deliver_next_found :
    (skipped : String → Bool) (now : ℕ) (j : Journey) (rows : List DeliveryRow) (r : DeliveryRow)
    → candidate skipped now rows ≡ some r
    → deliver_next skipped now j rows
      ≡ process_delivery j r.id (r.attempts + 1) (update_where (has_id r.id) (claimed_row now) rows)
unfolding deliver_next claim_webhook_delivery
deliver_next_found skipped now j rows r e = ground arith

-- A job finds nothing and changes nothing, or it takes one row that is due and free, counts one
-- attempt more and settles it (it is delivered only if the worker saw it authorised twice, could read
-- its secrets and resolved a public address; it is put back only with attempts left, to a time between
-- a minute and twelve hours away); every other row is as it was.
pub deliver_next-Delivers :
    (skipped : String → Bool) (now : ℕ) (j : Journey) (rows : List DeliveryRow)
    → ((candidate skipped now rows ≡ none) × (deliver_next skipped now j rows ≡ rows))
      ⊎ ((r : DeliveryRow) × (f : DeliveryRow → DeliveryRow) × (candidate skipped now rows ≡ some r)
          × Occurs r rows
          × (is_claimable now r ≡ true)
          × (skipped r.id ≡ false)
          × (deliver_next skipped now j rows ≡ update_where (has_id r.id) f rows)
          × Delivers j r f)
unfolding Treats
deliver_next-Delivers skipped now j rows = elim (Option-cases (candidate skipped now rows)) [
  | inl nothing ↦ inl (nothing, deliver_next_idle skipped now j rows nothing)
  | inr (r, found) ↦
      let (o, due, free) = candidate_found skipped now rows r found in
      let (f, e, same_id, same_attempts, settled) =
        process_delivery-Treats j r.id (r.attempts + 1)
          (update_where (has_id r.id) (claimed_row now) rows) in
      inr (
        r,
        (λ x. f (claimed_row now x)),
        found,
        o,
        due,
        free,
        deliver_next_found skipped now j rows r found
            ∙ (e
                ∙ update_where-twice (has_id r.id) (in_processing r.id) (claimed_row now) f rows
                    (λ x h. ground arith) (λ x h. ground arith)),
        (
          (λ x. same_id (claimed_row now x)),
          (λ x. same_attempts (claimed_row now x)),
          (λ x. settled (claimed_row now x)),
        ),
      )
]
