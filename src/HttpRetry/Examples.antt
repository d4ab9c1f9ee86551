-- ===== src/HttpRetry/Examples.antt =====
-- Two failures that are retried, then success.
use kvikio.Base.{ℕ, ◌≡◌, refl, [], ◌∷◌, some, ok, ltb, if◌then◌else◌, arith}
use kvikio.HttpRetry.{
  CurlCode, curle_ok, http_returned_error, HttpRetryPolicy, backoff_for, is_retryable, Performed,
  perform,
}
use kvikio.HttpRetry.Attempts.{Ends, perform-Ends}

abbrev policy : HttpRetryPolicy
policy = record {
  max_attempts = 3;
  retryable_status_codes = 500 ∷ 503 ∷ [];
  base_delay_ms = 500;
  max_delay_ms = 4000;
}

-- 503 twice.
abbrev flaky : ℕ → CurlCode × ℕ
flaky k = if ltb k 3 then (http_returned_error, 503) else (curle_ok, 206)

flaky_performed :
    perform policy flaky (λ _. [])
    ≡ some (record { attempts = 3; retries = 2; slept_ms = 1500; ending = ok tt })
unfolding perform is_retryable backoff_for
flaky_performed = refl

perform-Ends_example :
    (p : Performed) × (perform policy flaky (λ _. []) ≡ some p) × Ends policy flaky 1 0 0 p
perform-Ends_example = perform-Ends policy flaky (λ _. []) (omega arith)
