-- ===== src/Webhooks/Deliveries.antt =====
-- src/subscriptions.ts and scripts/webhook-delivery.ts: the rows of webhook_deliveries and the worker's
-- treatment of one. Rows stand in the order of their ids, instants in milliseconds. What the worker
-- meets is given. A job that is lost after its claim is in Webhooks/Deliveries/Jobs.
pub mod Lifecycle
pub mod Attempts
pub mod Jobs
mod Tests
use total_recall.Base.{
  ℕ, ◌+◌, ◌-◌, ◌*◌, ◌==◌, ltb, leb, min, max, Bool, true, false, not, ◌&&◌, ◌||◌, Option, none,
  some, List, [], ◌∷◌, String, str_eq, if◌then◌else◌, codes, decimal?, update_where,
}
use total_recall.Connector.Attribution.{trim}

pub data DeliveryStatus : Type 0 where
  pending processing retry delivered dead cancelled : DeliveryStatus

-- The codes that are stored; `http n` is the text http_n.
pub data ErrorCode : Type 0 where
  authorization_revoked crypto_error dns_error destination_blocked redirect_rejected : ErrorCode
  network_timeout response_too_large aborted network_error : ErrorCode
  http : ℕ → ErrorCode

pub record DeliveryRow : Type 0 where
  pub id : String
  pub status : DeliveryStatus
  pub attempts : ℕ
  pub next_attempt_at : ℕ
  pub created_at : ℕ
  pub locked_at : Option ℕ
  pub delivered_at : Option ℕ
  pub last_http_status : Option ℕ
  pub last_error_code : Option ErrorCode

abbrev pub webhook_max_attempts : ℕ
webhook_max_attempts = 6

abbrev pub is_processing : DeliveryStatus → Bool
is_processing processing = true
is_processing status = false

-- `status IN ('pending','retry')`
abbrev pub is_waiting : DeliveryStatus → Bool
is_waiting pending = true
is_waiting retry = true
is_waiting status = false

-- A claim older than five minutes is taken as lost.
unfoldable pub is_claimable : ℕ → DeliveryRow → Bool
is_claimable now r =
    (is_waiting r.status && leb r.next_attempt_at now)
    || (is_processing r.status
        && (elim r.locked_at [ none ↦ false | some t ↦ ltb (t + 300_000) now ]))

-- ORDER BY next_attempt_at, created_at, id: whether the first row comes before the second.
abbrev pub comes_first : DeliveryRow → DeliveryRow → Bool
comes_first r best =
    ltb r.next_attempt_at best.next_attempt_at
    || (r.next_attempt_at == best.next_attempt_at && leb r.created_at best.created_at)

-- The candidate; `skipped` rows are locked by another transaction.
unfoldable pub candidate : (String → Bool) → ℕ → List DeliveryRow → Option DeliveryRow
candidate skipped now [] = none
candidate skipped now (r ∷ rows) =
    let rest = candidate skipped now rows in
    if not (skipped r.id) && is_claimable now r
    then elim rest [ none ↦ some r | some best ↦ if comes_first r best then some r else some best ]
    else rest

abbrev pub has_id : String → DeliveryRow → Bool
has_id id r = str_eq r.id id

abbrev pub claimed_row : ℕ → DeliveryRow → DeliveryRow
claimed_row now r = record r {
  status = processing;
  attempts = r.attempts + 1;
  locked_at = some now;
  last_error_code = none;
}

-- The claimed row, and the table.
unfoldable pub claim_webhook_delivery :
    (String → Bool) → ℕ → List DeliveryRow → Option DeliveryRow × List DeliveryRow
unfolding candidate
claim_webhook_delivery skipped now rows = elim (candidate skipped now rows) [
  | none ↦ (none, rows)
  | some r ↦ (some (claimed_row now r), update_where (has_id r.id) (claimed_row now) rows)
]

-- `WHERE id = $1::uuid AND status = 'processing'`
abbrev pub in_processing : String → DeliveryRow → Bool
in_processing id r = str_eq r.id id && is_processing r.status

unfoldable pub cancel_unauthorized_delivery : String → List DeliveryRow → List DeliveryRow
cancel_unauthorized_delivery id = update_where (in_processing id) (λ r. record r {
  status = cancelled;
  locked_at = none;
  last_error_code = some authorization_revoked;
})

unfoldable pub mark_delivery_delivered : String → ℕ → ℕ → List DeliveryRow → List DeliveryRow
mark_delivery_delivered id http_status now = update_where (in_processing id) (λ r. record r {
  status = delivered;
  delivered_at = some now;
  locked_at = none;
  last_http_status = some http_status;
  last_error_code = none;
})

pub record Failure : Type 0 where
  pub error_code : ErrorCode
  pub http_status : Option ℕ
  pub retry_at : Option ℕ
  pub terminal : Bool

unfoldable pub mark_delivery_failed : String → Failure → List DeliveryRow → List DeliveryRow
mark_delivery_failed id f = update_where (in_processing id) (λ r. record r {
  status = if f.terminal then dead else retry;
  next_attempt_at = elim f.retry_at [ none ↦ r.next_attempt_at | some t ↦ t ];
  locked_at = none;
  last_http_status = f.http_status;
  last_error_code = some f.error_code;
})

-- RETRY_DELAYS_SECONDS at `Math.min(Math.max(attempts - 1, 0), 4)`
abbrev pub base_delay : ℕ → ℕ
base_delay attempts =
    if leb attempts 1
    then 60
    else if attempts == 2
    then 300
    else if attempts == 3
    then 1_800
    else if attempts == 4
    then 7_200
    else 43_200

-- The seconds that a Retry-After header asks for; `date_in` reads a date as seconds from now.
unfoldable pub requested_delay : (String → ℕ) → Option String → ℕ
unfolding decimal?
requested_delay date_in none = 0
requested_delay date_in (some header) =
    if str_eq (trim header) ""
    then 0
    else elim (decimal? (codes (trim header))) [ none ↦ date_in header | some n ↦ n ]

unfoldable pub retry_at_for_attempt : ℕ → ℕ → ℕ → ℕ → ℕ
retry_at_for_attempt attempts requested jitter now =
    let delay = min 43_200 (max (base_delay attempts) requested) in
    now + min 43_200 (delay + jitter) * 1_000

abbrev pub is_retryable_status : ℕ → Bool
is_retryable_status status = status == 408 || (status == 425 || (status == 429 || leb 500 status))

-- How the destination's address resolves.
pub data Destination : Type 0 where
  resolved unresolved blocked : Destination

-- The status and the Retry-After header of a response, or the code of what was thrown.
pub data PostResult : Type 0 where
  responded : ℕ → Option String → PostResult
  throws : ErrorCode → PostResult

-- What the worker meets on its way.
pub record Journey : Type 0 where
  pub authorized : Bool
  pub decrypts : Bool
  pub destination : Destination
  pub still_authorized : Bool
  pub post : PostResult
  pub date_in : String → ℕ
  pub jitter : ℕ
  pub ends_at : ℕ

abbrev pub is_too_large : ErrorCode → Bool
is_too_large response_too_large = true
is_too_large code = false

-- `response.status || undefined`
abbrev pub nonzero : ℕ → Option ℕ
nonzero n = if n == 0 then none else some n

module _ (j : Journey) (id : String) (attempts : ℕ) where
  abbrev pub can_retry : Bool
  can_retry = ltb attempts webhook_max_attempts

  abbrev pub terminal_failure : ErrorCode → List DeliveryRow → List DeliveryRow
  terminal_failure code =
      mark_delivery_failed id
        (record { error_code = code; http_status = none; retry_at = none; terminal = true })

  abbrev pub retry_delivery : ErrorCode → List DeliveryRow → List DeliveryRow
  retry_delivery code = mark_delivery_failed id (record {
    error_code = code;
    http_status = none;
    retry_at = some (retry_at_for_attempt attempts 0 j.jitter j.ends_at);
    terminal = leb webhook_max_attempts attempts;
  })

  unfoldable pub after_response : ℕ → Option String → List DeliveryRow → List DeliveryRow
  after_response status retry_after rows =
      if leb 200 status && ltb status 300
      then mark_delivery_delivered id status j.ends_at rows
      else if is_retryable_status status && can_retry
      then mark_delivery_failed id
          (record {
            error_code = http status;
            http_status = some status;
            retry_at = some (
                retry_at_for_attempt attempts (requested_delay j.date_in retry_after) j.jitter
                  j.ends_at);
            terminal = false;
          })
          rows
      else mark_delivery_failed id
          (record {
            error_code =
                if leb 300 status && ltb status 400 then redirect_rejected else http status;
            http_status = nonzero status;
            retry_at = none;
            terminal = true;
          })
          rows

  unfoldable pub after_post : PostResult → List DeliveryRow → List DeliveryRow
  unfolding after_response
  after_post (responded status retry_after) rows = after_response status retry_after rows
  after_post (throws code) rows =
      if can_retry && not (is_too_large code)
      then retry_delivery code rows
      else terminal_failure code rows

  unfoldable pub process_delivery : List DeliveryRow → List DeliveryRow
  unfolding after_post
  process_delivery rows =
      if not j.authorized
      then cancel_unauthorized_delivery id rows
      else if not j.decrypts
      then terminal_failure crypto_error rows
      else elim j.destination [
        | unresolved ↦ retry_delivery dns_error rows
        | blocked ↦ terminal_failure destination_blocked rows
        | resolved ↦
            if not j.still_authorized
            then cancel_unauthorized_delivery id rows
            else after_post j.post rows
      ]

-- One job of the worker: a claim and, where there is one, its treatment.
unfoldable pub deliver_next : (String → Bool) → ℕ → Journey → List DeliveryRow → List DeliveryRow
unfolding claim_webhook_delivery process_delivery
deliver_next skipped now j rows =
    let claim = claim_webhook_delivery skipped now rows in
    elim claim.0 [ none ↦ rows | some r ↦ process_delivery j r.id r.attempts claim.1 ]
