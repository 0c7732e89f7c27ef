-- ===== src/Connector/Retry/Attempts.antt =====
-- src/connectors/retry.ts: which attempts are made, and what their results mean for the answer.
use total_recall.Base.{
  ℕ, zero, suc, ◌+◌, ◌-◌, ◌≤◌, ◌<◌, ◌≡◌, ◌≢◌, refl, ap, sym, ◌∙◌, ◌⊎◌, inl, inr, true, false, not,
  ◌||◌, List, [], ◌∷◌, ◌==◌, ltb, Result, ok, err, arith, length, Bool-cases, Result-cases, subst,
}
use total_recall.Connector.Retry.{
  Failure, not_an_error, aborted, operation_failed, RetryOptions, Run, Trace, called, slept,
  after_failure, attempts, retry_connector_operation,
}

-- attempt, attempt + 1, …: n numbers
abbrev pub upto : ℕ → ℕ → List ℕ
upto attempt zero = []
upto attempt (suc n) = attempt ∷ upto (attempt + 1) n

module _ {A : Type 0} (operation : ℕ → Result Failure A) (opts : RetryOptions) (run : Run) where
  -- An attempt that failed with an error that is retried.
  abbrev pub FailsAt : ℕ → Type 0
  FailsAt attempt = (e : Failure) × (operation attempt ≡ err e) × (opts.should_retry e ≡ true)

  abbrev pub FailsFrom : ℕ → ℕ → Type 0
  FailsFrom attempt zero = Unit
  FailsFrom attempt (suc n) = FailsAt attempt × FailsFrom (attempt + 1) n

  -- The signal was set before attempt number n from `attempt` on, which is one of those left, or it came
  -- in the sleep before it.
  abbrev pub SignalCame : ℕ → ℕ → ℕ → Type 0
  SignalCame left attempt n =
      ((n < left) × (run.aborted_before (attempt + n) ≡ true))
      ⊎ ((m : ℕ) × (n ≡ suc m) × (run.aborted_asleep (attempt + m) ≡ true))

  -- What a loop from `attempt` with `left` attempts did: n attempts failed and were retried; then one
  -- succeeded, one failed for good, or the signal came.
  pub data Explained (left attempt : ℕ) (t : Trace A) : Type 0 where
    succeeded :
        (n : ℕ) (a : A)
        → n < left
        → FailsFrom attempt n
        → operation (attempt + n) ≡ ok a
        → t.calls ≡ upto attempt (suc n)
        → length t.sleeps ≡ n
        → t.result ≡ ok a
        → Explained left attempt t
    gave_up :
        (n : ℕ) (e : Failure)
        → n < left
        → FailsFrom attempt n
        → operation (attempt + n) ≡ err e
        → (attempt + n ≡ opts.max_attempts) ⊎ (opts.should_retry e ≡ false)
        → t.calls ≡ upto attempt (suc n)
        → length t.sleeps ≡ n
        → t.result ≡ err (operation_failed e)
        → Explained left attempt t
    was_aborted :
        (n : ℕ)
        → n ≤ left
        → FailsFrom attempt n
        → SignalCame left attempt n
        → t.calls ≡ upto attempt n
        → length t.sleeps ≡ n
        → t.result ≡ err aborted
        → Explained left attempt t

  shift : {B : Type 0} (f : ℕ → B) (attempt n : ℕ) → f (attempt + suc n) ≡ f (attempt + 1 + n)
  shift f attempt n = ap f (omega arith)

  later_signal :
      (left attempt n : ℕ) → SignalCame left (attempt + 1) n → SignalCame (suc left) attempt (suc n)
  later_signal left attempt n (inl (lt, before)) =
      inl (omega arith, shift run.aborted_before attempt n ∙ before)
  later_signal left attempt n (inr (m, e, asleep)) =
      inr (suc m, ap suc e, shift run.aborted_asleep attempt m ∙ asleep)

  extend :
      (left attempt d : ℕ) (t : Trace A)
      → FailsAt attempt
      → Explained left (attempt + 1) t
      → Explained (suc left) attempt (called attempt (slept d t))
  extend left attempt d t f (succeeded n a lt fs o c s r) =
      succeeded (suc n) a (omega arith) (f, fs) (shift operation attempt n ∙ o)
        (ap (λ l. attempt ∷ l) c) (omega arith) r
  extend left attempt d t f (gave_up n e lt fs o w c s r) =
      gave_up (suc n) e (omega arith) (f, fs) (shift operation attempt n ∙ o)
        (rw (shift (λ k. k) attempt n) w) (ap (λ l. attempt ∷ l) c) (omega arith) r
  extend left attempt d t f (was_aborted n le fs came c s r) =
      was_aborted (suc n) (omega arith) (f, fs) (later_signal left attempt n came)
        (ap (λ l. attempt ∷ l) c) (omega arith) r

  first : (attempt : ℕ) {B : Type 0} (f : ℕ → B) → f (attempt + 0) ≡ f attempt
  first attempt f = ap f (omega arith)

  after_failure-Explained :
      (left attempt : ℕ) (e : Failure) (more : Trace A)
      → operation attempt ≡ err e
      → (attempt ≢ opts.max_attempts → Explained left (attempt + 1) more)
      → Explained (suc left) attempt (after_failure operation opts run attempt e more)
  unfolding after_failure
  after_failure-Explained left attempt e more o rest =
      elim (Bool-cases (attempt == opts.max_attempts || not (opts.should_retry e))) [
        | inl last ↦ rw last (
            gave_up 0 e (omega arith) tt (first attempt operation ∙ o)
              (rw (first attempt (λ k. k)) (ground arith)) refl refl refl)
        | inr more_left ↦
            let f : FailsAt attempt = (e, o, ground arith) in
            rw more_left (elim (Bool-cases (run.aborted_asleep attempt)) [
              | inl asleep ↦ rw asleep (
                  was_aborted 1 (omega arith) (f, tt)
                    (inr (0, refl, first attempt run.aborted_asleep ∙ asleep)) refl refl refl)
              | inr woke ↦ rw woke (extend left attempt _ more f (rest (ground arith)))
            ])
      ]

  round-Explained :
      (left attempt : ℕ) (last : Failure)
      → ((e : Failure)
          → attempt ≢ opts.max_attempts
          → Explained left (attempt + 1) (attempts operation opts run left (attempt + 1) e))
      → Explained (suc left) attempt (attempts operation opts run (suc left) attempt last)
  unfolding attempts
  round-Explained left attempt last rest = elim (Bool-cases (run.aborted_before attempt)) [
    | inl before ↦ rw before (
        was_aborted 0 (omega arith) tt
          (inl (omega arith, first attempt run.aborted_before ∙ before)) refl refl refl)
    | inr live ↦ elim (Result-cases (operation attempt)) [
      | inl (a, o) ↦
          rw (live, o, attempts)
            (succeeded 0 a (omega arith) tt (first attempt operation ∙ o) refl refl refl)
      | inr (e, o) ↦ rw (live, o, attempts) (after_failure-Explained left attempt e _ o (rest e))
    ]
  ]

  attempts-Explained :
      (left attempt : ℕ) (last : Failure)
      → attempt + left ≡ opts.max_attempts
      → Explained (suc left) attempt (attempts operation opts run (suc left) attempt last)
  attempts-Explained zero attempt last h =
      round-Explained zero attempt last (λ e ne. absurd (ne (omega arith)))
  attempts-Explained (suc left) attempt last h =
      round-Explained (suc left) attempt last
        (λ e ne. attempts-Explained left (attempt + 1) e (omega arith))

  -- With an allowed number of attempts the call is explained by a number n, at most the maximum and below
  -- it where an attempt n + 1 is made: the attempts 1 to n failed with errors that are retried, each
  -- followed by one sleep; then attempt n + 1 succeeded and its value is the answer, or it failed and
  -- was the last or not to be retried and its error is the answer; or the signal was set before attempt
  -- n + 1, or came in the sleep before it, and the answer is that the call was aborted. No attempt is
  -- made but these, so no more than the maximum.
  pub retry-Explained :
      1 ≤ opts.max_attempts
      → opts.max_attempts ≤ 10
      → Explained opts.max_attempts 1 (retry_connector_operation operation opts run)
  unfolding retry_connector_operation
  retry-Explained lo hi =
      let e : opts.max_attempts ≡ suc (opts.max_attempts - 1) = omega arith in
      let valid : (ltb opts.max_attempts 1 || ltb 10 opts.max_attempts) ≡ false = ground arith in
      rw valid (
        subst (λ k. Explained k 1 (attempts operation opts run k 1 not_an_error)) (sym e)
          (attempts-Explained (opts.max_attempts - 1) 1 not_an_error (omega arith)))
