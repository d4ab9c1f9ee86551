-- ===== src/HttpRetry.antt =====
-- cpp/include/kvikio/detail/http_retry.hpp and cpp/src/detail/http_retry.cpp: what to do after one
-- finished HTTP attempt. Delays are milliseconds. A message is modelled by what it reports.
pub mod Attempts
pub mod Examples
use kvikio.Base.{
  ℕ, ◌-◌, ◌*◌, ◌^◌, min, Bool, true, false, ◌||◌, List, [], ◌∷◌, ltb, leb, ◌==◌, if◌then◌else◌,
  Result, ok, err, invalid_argument, runtime_error, expect, ◌>>◌, Option, none, some, zero, suc,
  ◌+◌,
}

-- The `CURLcode`s that the policy names, and any other by its number.
pub data CurlCode : Type 0 where
  curle_ok operation_timedout couldnt_resolve_host couldnt_connect recv_error send_error : CurlCode
  partial_file got_nothing http_returned_error : CurlCode
  other : ℕ → CurlCode

pub data RetryDecision : Type 0 where
  success retry fatal exhausted : RetryDecision

-- What the text says: nothing, why the transfer failed (libcurl's text, or the code's where that is
-- empty), or the reason for a retry or for giving up.
pub data Reason : Type 0 where
  http_code : ℕ → Reason
  transport_error : CurlCode → Reason

pub data Message : Type 0 where
  empty : Message
  failure_text : List ℕ → List ℕ → Message
  failure_code : List ℕ → CurlCode → Message
  max_attempts_reached : ℕ → Reason → Message
  retrying : Reason → (delay attempt max_attempts : ℕ) → Message

pub record RetryOutcome : Type 0 where
  pub decision : RetryDecision
  pub delay_ms : ℕ
  pub message : Message

pub record HttpRetryPolicy : Type 0 where
  pub max_attempts : ℕ
  pub retryable_status_codes : List ℕ
  pub base_delay_ms : ℕ
  pub max_delay_ms : ℕ

-- The constructor: at least one attempt, 500 ms to begin with, 4000 ms at most.
unfoldable pub make_policy : ℕ → List ℕ → Result HttpRetryPolicy
make_policy max_attempts codes = do
  expect (ltb 0 max_attempts) invalid_argument
  ok (record {
    max_attempts = max_attempts;
    retryable_status_codes = codes;
    base_delay_ms = 500;
    max_delay_ms = 4000;
  })

abbrev pub is_transport_failure : CurlCode → Bool
is_transport_failure CurlCode.operation_timedout = true
is_transport_failure CurlCode.couldnt_resolve_host = true
is_transport_failure CurlCode.couldnt_connect = true
is_transport_failure CurlCode.recv_error = true
is_transport_failure CurlCode.send_error = true
is_transport_failure CurlCode.partial_file = true
is_transport_failure CurlCode.got_nothing = true
is_transport_failure _ = false

-- `std::find` over the codes.
abbrev pub contains : List ℕ → ℕ → Bool
contains [] code = false
contains (c ∷ codes) code = c == code || contains codes code

-- A status code is at most 999, so the cast to `int` changes nothing.
unfoldable pub is_retryable : HttpRetryPolicy → CurlCode → ℕ → Bool
is_retryable policy curl_code status =
    is_transport_failure curl_code || contains policy.retryable_status_codes status

unfoldable pub backoff_for : HttpRetryPolicy → ℕ → ℕ
backoff_for policy attempt =
    min policy.max_delay_ms (policy.base_delay_ms * 2 ^ min (attempt - 1) 4)

abbrev pub is_curle_ok : CurlCode → Bool
is_curle_ok CurlCode.curle_ok = true
is_curle_ok _ = false

reason_of : CurlCode → ℕ → Reason
reason_of CurlCode.http_returned_error code = http_code code
reason_of curl_code code = transport_error curl_code

failure_message : List ℕ → List ℕ → CurlCode → Message
failure_message prefix [] curl_code = failure_code prefix curl_code
failure_message prefix (c ∷ text) curl_code = failure_text prefix (c ∷ text)

unfoldable pub evaluate : HttpRetryPolicy → CurlCode → ℕ → ℕ → List ℕ → List ℕ → Result RetryOutcome
unfolding reason_of failure_message
evaluate policy curl_code status attempt curl_error_message error_prefix = do
  expect (ltb 0 attempt) invalid_argument
  ok (
      if is_curle_ok curl_code
      then record { decision = success; delay_ms = 0; message = empty }
      else if is_retryable policy curl_code status
      then if leb policy.max_attempts attempt
        then record {
          decision = exhausted;
          delay_ms = 0;
          message = max_attempts_reached policy.max_attempts (reason_of curl_code status);
        }
        else record {
          decision = retry;
          delay_ms = backoff_for policy attempt;
          message =
              retrying (reason_of curl_code status) (backoff_for policy attempt) attempt
                policy.max_attempts;
        }
      else record {
        decision = fatal;
        delay_ms = 0;
        message = failure_message error_prefix curl_error_message curl_code;
      })

-- What `CurlHandle::perform` (cpp/src/shim/libcurl.cpp) has done when it returns or throws: the
-- attempts that it made, the calls of `on_retry`, the milliseconds that it slept, and how it ended.
pub record Performed : Type 0 where
  pub attempts : ℕ
  pub retries : ℕ
  pub slept_ms : ℕ
  pub ending : Result (Unit {0})

-- What follows the verdict on one attempt; `again` is the rest of the loop after a delay.
abbrev pub after_verdict : ℕ → ℕ → ℕ → (ℕ → Option Performed) → RetryOutcome → Option Performed
after_verdict attempt retries slept_ms again v = elim v.decision [
  | success ↦
      some (record { attempts = attempt; retries = retries; slept_ms = slept_ms; ending = ok tt })
  | retry ↦ again v.delay_ms
  | _ ↦ some (record {
    attempts = attempt;
    retries = retries;
    slept_ms = slept_ms;
    ending = err runtime_error;
  })
]

-- The loop of `perform` from `attempt` on; `report k` is what `curl_easy_perform` and the response
-- code say of attempt `k`, and `text k` the error buffer. The prefix of the message, a fixed
-- text, is left empty. `none` is fuel that ran out.
pub perform_loop :
    HttpRetryPolicy → (ℕ → CurlCode × ℕ) → (ℕ → List ℕ) → ℕ → ℕ → ℕ → ℕ → Option Performed
perform_loop policy report text zero attempt retries slept_ms = none
perform_loop policy report text (suc fuel) attempt retries slept_ms =
    elim (evaluate policy (report attempt).0 (report attempt).1 attempt (text attempt) []) [
      | ok v ↦
          after_verdict attempt retries slept_ms
            (λ delay.
              perform_loop policy report text fuel (attempt + 1) (retries + 1) (slept_ms + delay))
            v
      | err e ↦
          some
            (record { attempts = attempt; retries = retries; slept_ms = slept_ms; ending = err e })
    ]

-- No transfer is tried more than `max_attempts` times, so that much fuel is enough.
pub perform : HttpRetryPolicy → (ℕ → CurlCode × ℕ) → (ℕ → List ℕ) → Option Performed
unfolding perform_loop evaluate
perform policy report text = perform_loop policy report text policy.max_attempts 1 0 0
