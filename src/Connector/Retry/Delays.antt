-- ===== src/Connector/Retry/Delays.antt =====
-- src/connectors/retry.ts: how long the call sleeps.
use total_recall.Base.{
  ℕ, zero, suc, ◌+◌, ◌*◌, ◌/◌, ◌≤◌, ◌<◌, ◌≡◌, none, Result, arith, All, Bool-cases, Result-cases,
  inl, inr,
}
use native.Mathlib.Nat.{
  mul-le-mul_left, mul-le-mul_right, le_of_mul-le-mul_right, le-div_iff_mul-le, div-mul-le_self,
}
use total_recall.Connector.Retry.{
  Failure, not_an_error, RetryOptions, Run, explicit_delay, exponential, jittered, delay, Trace,
  after_failure, attempts, retry_connector_operation,
}

module _ {A : Type 0} (operation : ℕ → Result Failure A) (opts : RetryOptions) (run : Run) where
  delay-le : (attempt : ℕ) (e : Failure) → delay opts run attempt e ≤ opts.max_delay_ms
  unfolding delay
  delay-le attempt e = omega arith

  abbrev Short : Trace A → Type 0
  Short t = All (λ d. d ≤ opts.max_delay_ms) t.sleeps

  after_failure-Short :
      (attempt : ℕ) (e : Failure) (more : Trace A)
      → Short more
      → Short (after_failure operation opts run attempt e more)
  unfolding after_failure
  after_failure-Short attempt e more h = ground (arith, delay-le attempt e)

  attempts-Short :
      (left attempt : ℕ) (last : Failure) → Short (attempts operation opts run left attempt last)
  unfolding attempts
  attempts-Short zero attempt last = tt
  attempts-Short (suc left) attempt last = elim (Bool-cases (run.aborted_before attempt)) [
    | inl before ↦ rw before tt
    | inr live ↦ elim (Result-cases (operation attempt)) [
      | inl (a, o) ↦ rw (live, o, attempts) tt
      | inr (e, o) ↦
          rw (live, o, attempts)
            (after_failure-Short attempt e _ (attempts-Short left (attempt + 1) e))
    ]
  ]

  -- No sleep is longer than the maximum, whatever the error's header asks for and whatever the random
  -- numbers are.
  pub sleeps-le-max_delay :
      All (λ d. d ≤ opts.max_delay_ms) (retry_connector_operation operation opts run).sleeps
  unfolding retry_connector_operation
  sleeps-le-max_delay = ground (arith, attempts-Short opts.max_attempts 1 not_an_error)

jitter_from : (expo u r q : ℕ) → r < u → q * (2 * u) ≤ expo * (u + 2 * r) → 2 * q ≤ 3 * expo
jitter_from expo u r q lt h =
    let k : expo * r ≤ expo * u = mul-le-mul_left expo (omega arith) in
    le_of_mul-le-mul_right {k = u} (omega arith) (omega arith)

scaled_bounds :
    (expo u r : ℕ)
    → r < u
    → (expo / 2 ≤ expo * (u + 2 * r) / (2 * u)) × (2 * (expo * (u + 2 * r) / (2 * u)) ≤ 3 * expo)
scaled_bounds expo u r lt =
    let half : 2 * (expo / 2) * u ≤ expo * u = mul-le-mul_right u (omega arith) in
    let le : expo / 2 * (2 * u) ≤ expo * (u + 2 * r) = omega arith in
    ((le-div_iff_mul-le (omega arith)).1 le, jitter_from expo u r _ lt (div-mul-le_self _ (2 * u)))

jittered_bounds :
    (opts : RetryOptions) (run : Run) (attempt : ℕ)
    → run.random attempt < run.unit
    → let expo = exponential opts attempt in
      (expo / 2 ≤ jittered run attempt expo)
      × (2 * jittered run attempt expo ≤ 3 * expo)
      × (expo ≤ opts.max_delay_ms)
unfolding jittered
jittered_bounds opts run attempt lt =
    let (lo, hi) = scaled_bounds (exponential opts attempt) run.unit (run.random attempt) lt in
    (lo, hi, unfold exponential in omega arith)

module _ (opts : RetryOptions) (run : Run) (attempt : ℕ) (e : Failure) where
  -- Without an explicit delay the sleep is the exponential delay with a factor from one half up to
  -- three halves, cut off at the maximum: it lies between half of the exponential delay, rounded
  -- down, and one and a half times it.
  pub delay_jitter :
      explicit_delay opts e ≡ none
      → run.random attempt < run.unit
      → let expo = exponential opts attempt in
        (expo / 2 ≤ delay opts run attempt e) × (2 * delay opts run attempt e ≤ 3 * expo)
  unfolding delay
  delay_jitter h lt = let b = jittered_bounds opts run attempt lt in rw h (omega arith, omega arith)
