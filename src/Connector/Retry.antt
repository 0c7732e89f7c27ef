-- ===== src/Connector/Retry.antt =====
-- src/connectors/retry.ts. The operation, the signal, the sleep and the random numbers are
-- parameters; what is slept is kept in the result. A random number is a numerator below `unit`.
pub mod Attempts
pub mod Delays
mod Tests
use total_recall.Base.{
  ℕ, zero, suc, ◌+◌, ◌-◌, ◌*◌, ◌/◌, ◌^◌, min, Bool, true, false, not, ◌&&◌, ◌||◌, Option, none,
  some, List, [], ◌∷◌, ◌++◌, String, str_eq, ◌==◌, ltb, leb, if◌then◌else◌, get_or, Result, ok, err,
}

-- The errors that the policy tells apart: an HTTP status with its Retry-After header read as
-- milliseconds, an error with a system code and a name, and a thrown value that is no Error.
pub data Failure : Type 0 where
  http_status : ℕ → Option ℕ → Failure
  system_error : Option String → String → Failure
  not_an_error : Failure

pub data RetryError : Type 0 where
  bad_max_attempts aborted : RetryError
  operation_failed : Failure → RetryError

unfoldable pub is_transient_connector_error : Failure → Bool
is_transient_connector_error (http_status status retry_after) =
    status == 429 || (status == 408 || leb 500 status)
is_transient_connector_error (system_error none name) = str_eq name "TimeoutError"
is_transient_connector_error (system_error (some code) name) =
    str_eq code "ECONNRESET"
    || (str_eq code "ECONNREFUSED"
        || (str_eq code "ETIMEDOUT" || (str_eq code "EAI_AGAIN" || str_eq name "TimeoutError")))
is_transient_connector_error not_an_error = false

-- The options, with the defaults filled in by `defaults`.
pub record RetryOptions : Type 0 where
  pub max_attempts : ℕ
  pub base_delay_ms : ℕ
  pub max_delay_ms : ℕ
  pub should_retry : Failure → Bool
  pub retry_after_ms : Failure → Option ℕ

abbrev pub defaults : RetryOptions
defaults = record {
  max_attempts = 4;
  base_delay_ms = 250;
  max_delay_ms = 15_000;
  should_retry = is_transient_connector_error;
  retry_after_ms = λ _. none;
}

-- The environment of one call: before which attempt the signal is set, during which sleep it comes,
-- and the numerators of `random()`.
pub record Run : Type 0 where
  pub unit : ℕ
  pub random : ℕ → ℕ
  pub aborted_before : ℕ → Bool
  pub aborted_asleep : ℕ → Bool

-- `retryAfterMs?.(error) ?? (error instanceof HttpStatusError ? … : null)`
abbrev pub header_delay : Failure → Option ℕ
header_delay (http_status status retry_after) = retry_after
header_delay _ = none

abbrev pub or_else : Option ℕ → Option ℕ → Option ℕ
or_else none o = o
or_else (some n) o = some n

unfoldable pub explicit_delay : RetryOptions → Failure → Option ℕ
explicit_delay opts e = or_else (opts.retry_after_ms e) (header_delay e)

-- `Math.min(maxDelayMs, baseDelayMs * 2 ** (attempt - 1))`
unfoldable pub exponential : RetryOptions → ℕ → ℕ
exponential opts attempt = min opts.max_delay_ms (opts.base_delay_ms * 2 ^ (attempt - 1))

-- `Math.floor(exponential * (0.5 + random()))`
unfoldable pub jittered : Run → ℕ → ℕ → ℕ
jittered run attempt expo = expo * (run.unit + 2 * run.random attempt) / (2 * run.unit)

unfoldable pub delay : RetryOptions → Run → ℕ → Failure → ℕ
delay opts run attempt e =
    min opts.max_delay_ms
      (get_or (explicit_delay opts e) (jittered run attempt (exponential opts attempt)))

-- What a call did: the attempts made, the delays slept, and the answer.
pub record Trace (A : Type 0) : Type 0 where
  pub calls : List ℕ
  pub sleeps : List ℕ
  pub result : Result RetryError A

module _ {A : Type 0} where
  abbrev pub stop : Result RetryError A → Trace A
  stop r = record { calls = []; sleeps = []; result = r }

  abbrev pub called : ℕ → Trace A → Trace A
  called n t = record t { calls = n ∷ t.calls }

  abbrev pub slept : ℕ → Trace A → Trace A
  slept d t = record t { sleeps = d ∷ t.sleeps }

  module _ (operation : ℕ → Result Failure A) (opts : RetryOptions) (run : Run) where
    -- The `catch` block: an error of the attempt, and what follows if it goes on.
    unfoldable pub after_failure : ℕ → Failure → Trace A → Trace A
    after_failure attempt e more =
        if attempt == opts.max_attempts || not (opts.should_retry e)
        then called attempt (stop (err (operation_failed e)))
        else called attempt (
            slept (delay opts run attempt e)
              (if run.aborted_asleep attempt then stop (err aborted) else more))

    -- The loop from `attempt` on, with `left` attempts to go; `last` is `lastError`.
    unfoldable pub attempts : ℕ → ℕ → Failure → Trace A
    unfolding after_failure
    attempts zero attempt last = stop (err (operation_failed last))
    attempts (suc left) attempt last =
        if run.aborted_before attempt then stop (err aborted) else elim (operation attempt) [
          | ok a ↦ called attempt (stop (ok a))
          | err e ↦ after_failure attempt e (attempts left (attempt + 1) e)
        ]

    unfoldable pub retry_connector_operation : Trace A
    unfolding attempts
    retry_connector_operation =
        if ltb opts.max_attempts 1 || ltb 10 opts.max_attempts
        then stop (err bad_max_attempts)
        else attempts opts.max_attempts 1 not_an_error
