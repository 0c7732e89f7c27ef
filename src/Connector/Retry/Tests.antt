-- ===== src/Connector/Retry/Tests.antt =====
-- Retries of an operation that fails twice.
use total_recall.Base.{ℕ, zero, suc, ◌≡◌, refl, false, none, some, [], ◌∷◌, Result, ok, err, arith}
use total_recall.Connector.Retry.{
  Failure, http_status, defaults, Run, delay, exponential, explicit_delay, jittered,
  is_transient_connector_error, retry_connector_operation,
}
use total_recall.Connector.Retry.Attempts.{Explained, retry-Explained}

third_time : ℕ → Result Failure ℕ
third_time zero = ok 0
third_time (suc zero) = err (http_status 503 none)
third_time (suc (suc zero)) = err (http_status 429 (some 90_000))
third_time (suc (suc (suc n))) = ok 7

abbrev calm : Run
calm = record {
  unit = 2;
  random = λ _. 1;
  aborted_before = λ _. false;
  aborted_asleep = λ _. false;
}

third_time_trace :
    retry_connector_operation third_time defaults calm
    ≡ record { calls = 1 ∷ 2 ∷ 3 ∷ []; sleeps = 250 ∷ 15_000 ∷ []; result = ok 7 }
unfolding retry_connector_operation third_time delay explicit_delay exponential jittered
    is_transient_connector_error
third_time_trace = refl

retry-Explained_example :
    Explained third_time defaults calm 4 1 (retry_connector_operation third_time defaults calm)
retry-Explained_example = retry-Explained third_time defaults calm (omega arith) (omega arith)
